-- ===== src/Net/Rounds.antt =====
-- That the loop of `download_fec` ends, and what its answer is worth.
use np2ptp.Prelude.{
  ℕ, zero, suc, ◌+◌, ◌-◌, ◌*◌, ◌<◌, ◌≤◌, ◌≡◌, refl, Option, none, some, List, [], ◌∷◌, length,
  length-append, leb, ltb, min, Bool, true, false, Bool-cases, ◌||◌, ◌⊎◌, inl, inr, if◌then◌else◌,
  Bytes, Result, ok, err, arith, u64_max,
}
use mathlib.Core.Path.{subst}
use np2ptp.Core.Hash.{Hash}
use np2ptp.Core.Chunk.{Cdc}
use np2ptp.Core.Manifest.{Manifest}
use np2ptp.Core.Manifest.Container.{Hex, Bincode}
use np2ptp.Fec.{Raptorq}
use np2ptp.Store.{World}
use np2ptp.Net.{PeerId, NetError, fec_batch, max_fec_transfer_size, max_decode_attempts}
use np2ptp.Net.Client.{Requests, fetch_symbols, get_manifest}
use np2ptp.Net.Fountain.{
  Collected, nothing_yet, need_of, spacing, add_batch, Round, go_on, is_empty, settle, tried,
  counted_attempt, decode_all, attempt, after_batch, proceed, receive_batch, collect, enough_rounds,
  finish_fec, fetch_content, download_fec,
}

-- The symbols that are still needed, the attempts left with the rounds between them, and the rounds
-- up to the next attempt.
unfoldable measure : ℕ → Collected → ℕ
measure need c =
    (need - length c.symbols)
    + (16 - c.attempts) * (spacing need + 1)
    + (spacing need - (length c.symbols - c.last_attempt_len))

one_fewer : (a g : ℕ) → a < 16 → (16 - a) * (g + 1) ≡ (16 - (a + 1)) * (g + 1) + (g + 1)
one_fewer a g h = let more : 16 - a ≡ suc (16 - (a + 1)) = omega arith in rw more (omega arith)

-- There is an attempt left, and the last one was not later than now.
abbrev InLoop : Collected → Type 0
InLoop c = (c.attempts < 16) × (c.last_attempt_len ≤ length c.symbols)

module _ {D : Type 0} (raptorq : Raptorq D) (m : Manifest) (root : Hash) (need : ℕ) where
  settle-go_on :
      (exhausted : Bool) (c c' : Collected)
      → settle raptorq m root need exhausted c ≡ ok (go_on c')
      → (exhausted ≡ false) × (c.attempts < 16) × (c ≡ c')
  settle-go_on true c c' h = cc h
  settle-go_on false c c' h = elim (Bool-cases (leb max_decode_attempts c.attempts)) [
    | inl e ↦ cc (rw e at h)
    | inr e ↦ (refl, ground arith, cc (rw e at h))
  ]

  tried-go_on :
      (exhausted : Bool) (c c' : Collected) (o : Option Bytes)
      → tried raptorq m root need exhausted c o ≡ ok (go_on c')
      → (exhausted ≡ false) × (c.attempts < 16) × (c ≡ c')
  tried-go_on exhausted c c' none h = settle-go_on exhausted c c' h
  tried-go_on exhausted c c' (some content) h = cc h

  -- The loop goes on with no attempt since there are too few symbols, or too few new ones, or after an
  -- attempt that was not the last.
  abbrev GoesOn : Collected → Collected → Type 0
  GoesOn c c' =
      ((c ≡ c') × (length c.symbols < need))
      ⊎ (((c ≡ c') × (length c.symbols - c.last_attempt_len < spacing need))
          ⊎ ((counted_attempt raptorq m root need c ≡ c') × (c.attempts + 1 < 16)))

  attempt-go_on :
      (exhausted : Bool) (c c' : Collected)
      → attempt raptorq m root need exhausted c ≡ ok (go_on c')
      → (exhausted ≡ false) × GoesOn c c'
  unfolding attempt
  attempt-go_on exhausted c c' h =
      elim (Bool-cases (leb (spacing need) (length c.symbols - c.last_attempt_len) || exhausted)) [
        | inl e ↦
            let (more, left, same) =
              tried-go_on exhausted (counted_attempt raptorq m root need c) c'
                (decode_all raptorq m root need c) (rw e at h) in
            (more, inr (inr (same, left)))
        | inr e ↦
            let (more, left, same) = settle-go_on exhausted c c' (rw e at h) in
            let few : leb (spacing need) (length c.symbols - c.last_attempt_len) ≡ false =
              left_false _ exhausted e in
            (more, inr (inl (same, not_leb _ _ few)))
      ]
    where
      left_false : (a b : Bool) → (a || b) ≡ false → a ≡ false
      left_false true b h = cc h
      left_false false b h = refl

      not_leb : (a b : ℕ) → leb a b ≡ false → b < a
      not_leb a b h = ground arith

  after_batch-go_on :
      (exhausted : Bool) (c c' : Collected)
      → after_batch raptorq m root need exhausted c ≡ ok (go_on c')
      → (exhausted ≡ false) × GoesOn c c'
  unfolding after_batch
  after_batch-go_on exhausted c c' h =
      elim (Bool-cases (ltb (min (m.total_size * 2) u64_max) c.fetched_bytes)) [
        | inl e ↦ cc (rw e at h)
        | inr e ↦ elim (Bool-cases (leb need (length c.symbols))) [
          | inl enough ↦ attempt-go_on exhausted c c' (rw (e, enough) at h)
          | inr few ↦ too_few exhausted (not_leb _ _ few) (rw (e, few) at h)
        ]
      ]
    where
      not_leb : (a b : ℕ) → leb a b ≡ false → b < a
      not_leb a b h = ground arith

      too_few :
          (exhausted : Bool)
          → length c.symbols < need
          → (if exhausted then attempt raptorq m root need exhausted c else ok (go_on c))
            ≡ ok (go_on c')
          → (exhausted ≡ false) × GoesOn c c'
      too_few true few h = attempt-go_on true c c' h
      too_few false few h = (refl, inl (cc h, few))

  -- A round that goes on from `c` is one step nearer to the end.
  abbrev Nearer : Collected → Collected → Type 0
  Nearer c c' = InLoop c' × (measure need c' < measure need c)

  Nearer-GoesOn :
      (batch : List Bytes) (c c' : Collected)
      → InLoop c
      → 0 < length batch
      → GoesOn (add_batch batch c) c'
      → Nearer c c'
  unfolding measure add_batch
  Nearer-GoesOn batch c c' (left, earlier) some_new h =
      let sum = length-append c.symbols batch in
      elim h [
        | inl (same, few) ↦
            let near : Nearer c (add_batch batch c) =
              ((left, omega (arith, sum)), omega (arith, sum)) in
            subst (Nearer c) same near
        | inr (inl (same, few)) ↦
            let near : Nearer c (add_batch batch c) =
              ((left, omega (arith, sum)), omega (arith, sum)) in
            subst (Nearer c) same near
        | inr (inr (same, few)) ↦
            let fewer = one_fewer c.attempts (spacing need) left in
            let near : Nearer c (counted_attempt raptorq m root need (add_batch batch c)) =
              ((few, omega arith), omega (arith, sum, fewer)) in
            subst (Nearer c) same near
      ]

  not_empty : (batch : List Bytes) → is_empty batch ≡ false → 0 < length batch
  not_empty [] h = cc h
  not_empty (b ∷ bs) h = omega arith

  module _ {S : Type 0} (request : Requests S) (provider : PeerId) where
    abbrev Returned : Option (Result NetError (Bytes × ℕ)) × S → Type 0
    Returned (o, s) = (r : Result NetError (Bytes × ℕ)) × (o ≡ some r)

    -- A round returns if those that follow it do.
    round-Returned :
        (rest : Collected → S → Option (Result NetError (Bytes × ℕ)) × S) (c : Collected)
        (r : Result NetError (List Bytes) × S)
        → InLoop c
        → ((c' : Collected) (s' : S) → Nearer c c' → Returned (rest c' s'))
        → Returned (receive_batch raptorq m root need request provider rest c r)
    round-Returned rest c (err e, s) inside later = (err e, refl)
    round-Returned rest c (ok batch, s) inside later =
        proceeded (after_batch raptorq m root need (is_empty batch) (add_batch batch c)) refl
      where
        proceeded :
            (r : Result NetError Round)
            → after_batch raptorq m root need (is_empty batch) (add_batch batch c) ≡ r
            → Returned (proceed raptorq m root need request provider rest r s)
        proceeded (err e) same = (err e, refl)
        proceeded (ok (Round.decoded content fetched)) same = (ok (content, fetched), refl)
        proceeded (ok (go_on c')) same =
            let (more, on) = after_batch-go_on (is_empty batch) (add_batch batch c) c' same in
            later c' s (Nearer-GoesOn batch c c' inside (not_empty batch more) on)

    -- More rounds than the measure are enough.
    collect-Returned :
        (fuel : ℕ) (c : Collected) (s : S)
        → InLoop c
        → measure need c < fuel
        → Returned (collect raptorq m root need request provider fuel c s)
    unfolding collect
    collect-Returned zero c s inside h = absurd (omega arith)
    collect-Returned (suc fuel) c s inside h =
        round-Returned (collect raptorq m root need request provider fuel) c
          (fetch_symbols request provider root c.start fec_batch s) inside
          (λ c' s' (inside', less). collect-Returned fuel c' s' inside' (omega arith))

module _ (hex : Hex) (blake3 : Bytes → Bytes) (bincode : Bincode) (cdc : Cdc) {D : Type 0}
    (raptorq : Raptorq D) {S : Type 0} (request : Requests S)
    (submit_receipt : PeerId → ℕ → S → S) where
  start_lem : (need : ℕ) → measure need nothing_yet < enough_rounds need
  unfolding measure
  start_lem need = omega arith

  -- Panics of the codec aside, a download by symbols always comes to an end: whatever the provider
  -- sends, symbols of no bytes included, the loop returns content or an error in at most as many rounds as symbols are needed,
  -- sixteen attempts and the rounds between them.
  pub download_fec-returns :
      (root : Hash) (provider : PeerId) (w : World) (s : S)
      → (r : Result NetError Manifest) × (v : World) × (t : S) × (download_fec hex blake3 bincode
            cdc raptorq request submit_receipt root provider w s
          ≡ some (r, (v, t)))
  unfolding download_fec
  download_fec-returns root provider w s =
      fetched (get_manifest request blake3 bincode provider root s)
    where
      finished :
          (m : Manifest) (o : Option (Result NetError (Bytes × ℕ)) × S)
          → Returned raptorq m root (need_of m) request provider o
          → (r : Result NetError Manifest) × (v : World) × (t : S) × (finish_fec hex blake3 bincode
                cdc raptorq request submit_receipt m root provider w o
              ≡ some (r, (v, t)))
      finished m (none, t) (r, e) = cc e
      finished m (some r, t) (r', e) = (_, _, _, refl)

      fetched :
          (r : Result NetError Manifest × S)
          → (out : Result NetError Manifest) × (v : World) × (t : S) × (fetch_content hex blake3
                bincode cdc raptorq request submit_receipt root provider w r
              ≡ some (out, (v, t)))
      fetched (err e, t) = (err e, w, t, refl)
      fetched (ok m, t) = elim (Bool-cases (ltb max_fec_transfer_size m.total_size)) [
        | inl large ↦ rw large (err NetError.bad_manifest, w, t, refl)
        | inr small ↦ rw small (
            finished m
              (collect raptorq m root (need_of m) request provider (enough_rounds (need_of m))
                nothing_yet t)
              (collect-Returned raptorq m root (need_of m) request provider
                (enough_rounds (need_of m)) nothing_yet t (omega arith, omega arith)
                (start_lem (need_of m))))
      ]
