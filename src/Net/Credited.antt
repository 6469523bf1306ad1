-- ===== src/Net/Credited.antt =====
-- Which receipts count for the peer that shows them.
use np2ptp.Prelude.{
  ℕ, ◌+◌, ◌≤◌, ◌≡◌, ◌≢◌, refl, ap, ◌∙◌, some, List, [], ◌∷◌, ◌==◌, Bool, true, false, Bool-cases,
  ◌&&◌, ◌||◌, not, ◌⊎◌, ◌↔◌, inl, inr, sym, All, All-map, Bytes, eq_bytes, eq_bytes_iff, ==_iff,
  eq_bytes_refl, or_true, u64_max, min, arith,
}
use np2ptp.Prelude.Maps.{lookup}
use np2ptp.Rep.Ledger.{Key, Ledger, Counters, counters, credit, update, credit_receipt}
use np2ptp.Rep.Ledger.Accounts.{counters-update, counters-update_other}
use np2ptp.Rep.Receipt.{Ed25519, Receipt, verify}
use np2ptp.Net.{PeerId, Response, EventLoop}
use np2ptp.Net.Credit.{Mark, mark, marked, counts, credit_all, handle_receipts_response}

unfoldable pub sum_bytes : List Receipt → ℕ
sum_bytes [] = 0
sum_bytes (r ∷ rs) = r.bytes + sum_bytes rs

-- No mark comes twice, and none that was seen comes again.
unfoldable pub NoMarkAgain : List Mark → List Receipt → Type 0
NoMarkAgain seen [] = Unit
NoMarkAgain seen (r ∷ rs) = (marked seen (mark r) ≡ false) × NoMarkAgain (mark r ∷ seen) rs

unfoldable pub seen_after : List Mark → List Receipt → List Mark
seen_after seen [] = seen
seen_after seen (r ∷ rs) = seen_after (mark r ∷ seen) rs

marked-same : (seen : List Mark) (m : Mark) → marked (m ∷ seen) m ≡ true
unfolding marked
marked-same seen (client, epoch) = rw (eq_bytes_refl client) (ground arith)

marked-more : (seen : List Mark) (m n : Mark) → marked seen m ≡ true → marked (n ∷ seen) m ≡ true
unfolding marked
marked-more seen (client, epoch) (c, e) h = rw h (or_true (eq_bytes c client && (e == epoch)))

marked-seen_after :
    (seen : List Mark) (chosen : List Receipt) (m : Mark)
    → marked seen m ≡ true
    → marked (seen_after seen chosen) m ≡ true
unfolding seen_after
marked-seen_after seen [] m h = h
marked-seen_after seen (r ∷ rs) m h =
    marked-seen_after (mark r ∷ seen) rs m (marked-more seen m (mark r) h)

-- One list is another one with elements left out.
pub data PartOf : List Receipt → List Receipt → Type 0 where
  nothing : PartOf [] []
  taken : (r : Receipt) {chosen rs : List Receipt} → PartOf chosen rs → PartOf (r ∷ chosen) (r ∷ rs)
  left_out : (r : Receipt) {chosen rs : List Receipt} → PartOf chosen rs → PartOf chosen (r ∷ rs)

-- Receipts of one client for one epoch.
abbrev pub SameVoucher : Receipt → Receipt → Type 0
SameVoucher r q = (r.client ≡ q.client) × (r.epoch ≡ q.epoch)

abbrev pub NoneRepeats : List Receipt → Type 0
NoneRepeats [] = Unit
NoneRepeats (r ∷ rs) = All (λ q. ¬ SameVoucher r q) rs × NoneRepeats rs

abbrev pub Represented : Receipt → List Receipt → Type 0
Represented r [] = ⊥
Represented r (q ∷ qs) = SameVoucher r q ⊎ Represented r qs

marked-SameVoucher :
    (seen : List Mark) (r q : Receipt) → SameVoucher r q → marked (mark r ∷ seen) (mark q) ≡ true
unfolding marked
marked-SameVoucher seen r q (c, e) =
    rw ((eq_bytes_iff r.client q.client).1 c, (==_iff r.epoch q.epoch).1 e) refl

unmarked-fewer :
    (seen : List Mark) (m n : Mark) → marked (n ∷ seen) m ≡ false → marked seen m ≡ false
unmarked-fewer seen m n h = elim (Bool-cases (marked seen m)) [
  | inl e ↦ let more = marked-more seen m n e in cc (h, more)
  | inr e ↦ e
]

NoMarkAgain-All :
    (seen : List Mark) (rs : List Receipt)
    → NoMarkAgain seen rs
    → All (λ q. marked seen (mark q) ≡ false) rs
unfolding NoMarkAgain
NoMarkAgain-All seen [] h = tt
NoMarkAgain-All seen (r ∷ rs) (fresh, h) = (
  fresh,
  All-map _ _ rs (λ q. unmarked-fewer seen (mark q) (mark r))
      (NoMarkAgain-All (mark r ∷ seen) rs h),
)

NoMarkAgain-NoneRepeats :
    (seen : List Mark) (rs : List Receipt) → NoMarkAgain seen rs → NoneRepeats rs
unfolding NoMarkAgain
NoMarkAgain-NoneRepeats seen [] h = tt
NoMarkAgain-NoneRepeats seen (r ∷ rs) (_, h) = (
  All-map _ _ rs (λ q unmarked same. cc (unmarked, marked-SameVoucher seen r q same))
      (NoMarkAgain-All (mark r ∷ seen) rs h),
  NoMarkAgain-NoneRepeats (mark r ∷ seen) rs h,
)

marked-one_of :
    (seen : List Mark) (q r : Receipt)
    → marked (mark q ∷ seen) (mark r) ≡ true
    → SameVoucher r q ⊎ (marked seen (mark r) ≡ true)
unfolding marked
marked-one_of seen q r h = elim (Bool-cases (eq_bytes q.client r.client)) [
  | inr e ↦ inr (rw e at h)
  | inl c ↦ elim (Bool-cases (q.epoch == r.epoch)) [
    | inl e ↦ inl (sym ((eq_bytes_iff q.client r.client).0 c), sym ((==_iff q.epoch r.epoch).0 e))
    | inr e ↦ inr (rw (c, e) at h)
  ]
]

marked-Represented :
    (seen : List Mark) (chosen : List Receipt) (r : Receipt)
    → marked (seen_after seen chosen) (mark r) ≡ true
    → (marked seen (mark r) ≡ true) ⊎ Represented r chosen
unfolding seen_after
marked-Represented seen [] r h = inl h
marked-Represented seen (q ∷ chosen) r h = elim (marked-Represented (mark q ∷ seen) chosen r h) [
  | inr among ↦ inr (inr among)
  | inl now ↦ elim (marked-one_of seen q r now) [
    | inl same ↦ inr (inl same)
    | inr before ↦ inl before
  ]
]

module _ (ed25519 : Ed25519) (key : Key PeerId) where
  -- The signature verifies, and the receipt is about `server`.
  abbrev genuine : Bytes → Receipt → Bool
  genuine server r = verify ed25519 r && eq_bytes r.server server

  abbrev Counted : Bytes → List Mark → List Receipt → List Receipt → Type 0
  Counted server seen rs chosen =
      PartOf chosen rs
      × All (λ r. genuine server r ≡ true) chosen
      × NoMarkAgain seen chosen
      × All (λ r. (not (genuine server r) || marked (seen_after seen chosen) (mark r)) ≡ true) rs

  -- Signed by its client, and about `server`.
  abbrev pub Genuine : Bytes → Receipt → Type 0
  Genuine server r = (verify ed25519 r ≡ true) × (r.server ≡ server)

  -- The receipts that count: some of those shown, genuine, no two of one client for one epoch, and one
  -- for the client and the epoch of each genuine one.
  abbrev pub Chosen : Bytes → List Receipt → List Receipt → Type 0
  Chosen server rs chosen =
      PartOf chosen rs
      × All (Genuine server) chosen
      × NoneRepeats chosen
      × All (λ r. (¬ Genuine server r) ⊎ Represented r chosen) rs

  genuine_iff : (server : Bytes) (r : Receipt) → (genuine server r ≡ true) ↔ Genuine server r
  genuine_iff server r = elim (Bool-cases (verify ed25519 r)) [
    | inr e ↦ (λ h. cc (rw e at h), λ (v, _). cc)
    | inl e ↦ (
      λ h. (e, (eq_bytes_iff r.server server).0 (rw e at h)),
      λ (v, s). rw (e, (eq_bytes_iff r.server server).1 s) refl,
    )
  ]

  Counted-covers :
      (server : Bytes) (chosen : List Receipt) (r : Receipt)
      → (not (genuine server r) || marked (seen_after [] chosen) (mark r)) ≡ true
      → (¬ Genuine server r) ⊎ Represented r chosen
  unfolding marked
  Counted-covers server chosen r h = elim (Bool-cases (genuine server r)) [
    | inr e ↦ inl (λ g. let t = (genuine_iff server r).1 g in cc (e, t))
    | inl e ↦ elim (marked-Represented [] chosen r (rw e at h)) [
      | inl none ↦ cc none
      | inr among ↦ inr among
    ]
  ]

  Counted-Chosen :
      (server : Bytes) (rs chosen : List Receipt)
      → Counted server [] rs chosen
      → Chosen server rs chosen
  Counted-Chosen server rs chosen (part, all, fresh, covers) = (
    part,
    All-map _ _ chosen (λ r. (genuine_iff server r).0) all,
    NoMarkAgain-NoneRepeats [] chosen fresh,
    All-map _ _ rs (Counted-covers server chosen) covers,
  )

  credit_all_lem :
      (peer other : PeerId) (server : Bytes) (seen : List Mark) (rs : List Receipt)
      (ledger : Ledger PeerId)
      → (counters key ledger peer).credited_by_receipts ≤ u64_max
      → peer ≢ other
      → (chosen : List Receipt) × Counted server seen rs chosen
        × (counters key (credit_all ed25519 key peer server seen rs ledger) peer
            ≡ credit (sum_bytes chosen) (counters key ledger peer))
        × (counters key (credit_all ed25519 key peer server seen rs ledger) other
            ≡ counters key ledger other)
  unfolding credit_all credit_receipt NoMarkAgain seen_after sum_bytes counts
  credit_all_lem peer other server seen [] ledger within differ =
      let c = counters key ledger peer in
      let sum : c.credited_by_receipts ≡ min (c.credited_by_receipts + 0) u64_max = omega arith in
      ([], (nothing, tt, tt, tt), ap (λ n. record c { credited_by_receipts = n }) sum, refl)
  credit_all_lem peer other server seen (r ∷ rs) ledger within differ =
      elim (Bool-cases (counts ed25519 key server seen r)) [
        | inr skipped ↦
            let (chosen, (part, all, fresh, covers), mine, others) =
              credit_all_lem peer other server seen rs ledger within differ in
            (
              chosen,
              (left_out r part, all, fresh, (passed_over seen r chosen skipped, covers)),
              rw skipped mine,
              rw skipped others,
            )
        | inl counted ↦
            let now = update key ledger peer (credit r.bytes) in
            let here = counters-update key ledger peer (credit r.bytes) in
            let (chosen, (part, all, fresh, covers), mine, others) =
              credit_all_lem peer other server (mark r ∷ seen) rs now
                (omega (arith, ap (λ c. c.credited_by_receipts) here)) differ in
            (
              r ∷ chosen,
              (
                taken r part,
                (counted_genuine seen r counted, all),
                (counted_fresh seen r counted, fresh),
                (first_here seen r chosen, covers),
              ),
              rw counted (
                  mine
                  ∙ ap (credit (sum_bytes chosen)) here
                  ∙ twice (counters key ledger peer) r.bytes (sum_bytes chosen)),
              rw counted
                  (others ∙ counters-update_other key ledger peer other (credit r.bytes) differ),
            )
      ]
    where
      twice : (c : Counters) (a b : ℕ) → credit b (credit a c) ≡ credit (a + b) c
      twice c a b =
          let sum : min (min (c.credited_by_receipts + a) u64_max + b) u64_max
              ≡ min (c.credited_by_receipts + (a + b)) u64_max =
            omega arith in
          ap (λ n. record c { credited_by_receipts = n }) sum

      counted_genuine :
          (seen : List Mark) (r : Receipt)
          → counts ed25519 key server seen r ≡ true
          → genuine server r ≡ true
      counted_genuine seen r h = ground arith

      counted_fresh :
          (seen : List Mark) (r : Receipt)
          → counts ed25519 key server seen r ≡ true
          → marked seen (mark r) ≡ false
      counted_fresh seen r h = ground arith

      first_here :
          (seen : List Mark) (r : Receipt) (chosen : List Receipt)
          → (not (genuine server r) || marked (seen_after (mark r ∷ seen) chosen) (mark r)) ≡ true
      first_here seen r chosen =
          rw (marked-seen_after (mark r ∷ seen) chosen (mark r) (marked-same seen (mark r)))
            (or_true _)

      passed_over :
          (seen : List Mark) (r : Receipt) (chosen : List Receipt)
          → counts ed25519 key server seen r ≡ false
          → (not (genuine server r) || marked (seen_after seen chosen) (mark r)) ≡ true
      passed_over seen r chosen skipped = elim (Bool-cases (marked seen (mark r))) [
        | inl known ↦ rw (marked-seen_after seen chosen (mark r) known) (or_true _)
        | inr unknown ↦ ground arith
      ]

  -- A peer whose key is known, and who answers the pull with receipts, is credited with the sum of
  -- some of them, up to `u64::MAX`, if its credit is a u64 before: each of these is signed by its
  -- client and about this peer, no two are of the same client and epoch, and each genuine receipt that
  -- was shown has the client and epoch of one of them. Its other counters and those of other peers
  -- stay.
  pub handle_receipts_response_lem :
      (peer other : PeerId) (server : Bytes) (receipts : List Receipt) (node : EventLoop)
      → lookup eq_bytes node.rep_peers peer ≡ some server
      → (counters key node.ledger peer).credited_by_receipts ≤ u64_max
      → peer ≢ other
      → (chosen : List Receipt) × Chosen server receipts chosen
        × (counters key
              (handle_receipts_response ed25519 key peer (Response.receipts receipts) node).ledger
              peer
            ≡ credit (sum_bytes chosen) (counters key node.ledger peer))
        × (counters key
              (handle_receipts_response ed25519 key peer (Response.receipts receipts) node).ledger
              other
            ≡ counters key node.ledger other)
  unfolding handle_receipts_response
  handle_receipts_response_lem peer other server receipts node known within differ =
      let (chosen, counted, mine, others) =
        credit_all_lem peer other server [] receipts node.ledger within differ in
      rw known (chosen, Counted-Chosen server receipts chosen counted, mine, others)
