-- ===== src/Net/Live.antt =====
-- When a download from several providers succeeds.
use mathlib.Core.List.{Permᴰ}
use np2ptp.Prelude.{
  ℕ, zero, suc, ◌+◌, ◌≤◌, ◌<◌, ◌≡◌, refl, sym, ap, ◌∙◌, Option, none, some, List, [], ◌∷◌, ◌++◌,
  append_assoc, length, length-append, get_elem?, get_elem?-append_length, ◌==◌, true, Bool-cases,
  inl, inr, All, Bytes, eq_bytes_iff, Result, ok, err, arith,
}
use np2ptp.Prelude.Arranged.{All-Permᴰ}
use np2ptp.Core.Hash.{Hash}
use np2ptp.Core.Manifest.{ChunkRef, Manifest, chunk_hash_ok}
use np2ptp.Core.Manifest.Container.{Hex}
use np2ptp.Store.{World, has}
use np2ptp.Net.{PeerId, NetError}
use np2ptp.Net.Multi.{
  Answers, Arrival, provider_at, wrap, judge, try_providers, fetch_slot, fetch_missing, Drained,
  missing_from, take_in, drain, outcome, download_chunks,
}

abbrev IsOk : Arrival → Type 0
IsOk r = (x : Bytes × PeerId) × (r ≡ ok x)

module _ (blake3 : Bytes → Bytes) (m : Manifest) (providers : List PeerId) (answers : Answers) where
  -- In each slot some provider's answer to a request for this chunk has the chunk's hash.
  abbrev pub Served : Hash → Type 0
  Served h =
      (slot : ℕ)
      → (k : ℕ) × (k < length providers)
        × (bytes : Bytes) × (answers slot k h ≡ ok (some bytes))
        × (blake3 bytes ≡ h)

  abbrev Located : ℕ × Hash → Type 0
  Located (i, h) = (c : ChunkRef) × (get_elem? m.chunks i ≡ some c) × (c.hash ≡ h) × Served h

  judge-IsOk :
      (i : ℕ) (h : Hash) (p : PeerId) (next : NetError → Arrival)
      (r : Result NetError (Option Bytes))
      → ((e : NetError) → IsOk (next e))
      → IsOk (judge blake3 m providers answers i h p next r)
  judge-IsOk i h p next (ok none) later = later (NetError.missing_chunk h)
  judge-IsOk i h p next (err e) later = later e
  judge-IsOk i h p next (ok (some bytes)) later =
      elim (Bool-cases (chunk_hash_ok blake3 m i bytes)) [
        | inl good ↦ rw good ((bytes, p), refl)
        | inr bad ↦ rw bad (later NetError.bad_chunk)
      ]

  try_providers-IsOk :
      (slot i : ℕ) (h : Hash) (left k : ℕ) (e : NetError) (turn : ℕ) (bytes : Bytes)
      → k ≤ turn
      → turn < k + left
      → answers slot turn h ≡ ok (some bytes)
      → chunk_hash_ok blake3 m i bytes ≡ true
      → IsOk (try_providers blake3 m providers answers slot i h left k e)
  unfolding try_providers
  try_providers-IsOk slot i h zero k e turn bytes low high got good = absurd (omega arith)
  try_providers-IsOk slot i h (suc left) k e turn bytes low high got good =
      elim (Bool-cases (k == turn)) [
        | inl now ↦
            let same : k ≡ turn = ground arith in
            rw (same, got, good)
              ((bytes, provider_at providers (wrap (slot + turn) (length providers))), refl)
        | inr not_yet ↦
            judge-IsOk i h (provider_at providers (wrap (slot + k) (length providers)))
              (try_providers blake3 m providers answers slot i h left (suc k)) (answers slot k h)
              (λ e'.
                try_providers-IsOk slot i h left (suc k) e' turn bytes (ground arith) (omega arith)
                  got good)
      ]

  fetch_missing-IsOk :
      (slot : ℕ) (ts : List (ℕ × Hash))
      → All Located ts
      → All IsOk (fetch_missing blake3 m providers answers slot ts)
  unfolding fetch_missing fetch_slot chunk_hash_ok
  fetch_missing-IsOk slot [] located = tt
  fetch_missing-IsOk slot ((i, h) ∷ ts) ((c, here, same, served), later) =
      let (k, among, bytes, got, hashed) = served slot in
      let good : chunk_hash_ok blake3 m i bytes ≡ true =
        rw (here, chunk_hash_ok) ((eq_bytes_iff (blake3 bytes) c.hash).1 (hashed ∙ sym same)) in
      (
        try_providers-IsOk slot i h (length providers) 0 (NetError.missing_chunk h) k bytes
            (omega arith) (omega arith) got good,
        fetch_missing-IsOk (suc slot) ts later,
      )

  module _ (hex : Hex) where
    missing_from-Located :
        (front cs : List ChunkRef) (i : ℕ) (w : World)
        → m.chunks ≡ front ++ cs
        → length front ≡ i
        → All (λ (c : ChunkRef). Served c.hash) cs
        → All Located (missing_from hex blake3 i cs w).0
    unfolding missing_from
    missing_from-Located front [] i w e here served = tt
    missing_from-Located front (c ∷ cs) i w e here (first, served) =
        let w' = (has hex c.hash w).1 in
        let rest =
          missing_from-Located (front ++ c ∷ []) cs (suc i) w'
            (e ∙ sym (append_assoc front (c ∷ []) cs))
            (omega (arith, here, length-append front (c ∷ []))) served in
        let place : get_elem? m.chunks i ≡ some c =
          ap (λ n. get_elem? m.chunks n) (sym here)
          ∙ ap (λ l. get_elem? l (length front)) e
          ∙ get_elem?-append_length front c cs in
        elim (Bool-cases (has hex c.hash w).0) [
          | inl held ↦ rw held rest
          | inr fresh ↦ rw fresh ((c, place, refl, first), rest)
        ]

    drain-IsOk :
        (rs : List Arrival) (d : Drained)
        → All IsOk rs
        → (drain hex blake3 rs d).first_failure ≡ d.first_failure
    unfolding drain
    drain-IsOk [] d all = refl
    drain-IsOk (ok (bytes, from) ∷ rs) d (_, all) =
        drain-IsOk rs (take_in hex blake3 (ok (bytes, from)) d) all
    drain-IsOk (err e ∷ rs) d ((x, is_ok), all) = cc is_ok

    -- The download succeeds if for each chunk of the manifest, in each slot, some provider's answer has
    -- the chunk's hash, in whatever order the chunks arrive: failures, wrong bytes and refusals of the
    -- other providers do no harm.
    pub download_chunks_live :
        (arrange : List Arrival → List Arrival) (w : World)
        → ((rs : List Arrival) → Permᴰ rs (arrange rs))
        → All (λ (c : ChunkRef). Served c.hash) m.chunks
        → (download_chunks hex blake3 providers answers arrange m w).0 ≡ ok m
    unfolding download_chunks
    download_chunks_live arrange w arranged served =
        let missing = (missing_from hex blake3 0 m.chunks w).0 in
        let rs = fetch_missing blake3 m providers answers 0 missing in
        let located = missing_from-Located [] m.chunks 0 w refl refl served in
        let start : Drained = record {
          store = (missing_from hex blake3 0 m.chunks w).1;
          fetched_bytes = [];
          first_failure = none;
        } in
        ap (outcome hex blake3 m) (
          drain-IsOk (arrange rs) start
            (All-Permᴰ IsOk (arranged rs) (fetch_missing-IsOk 0 missing located)))
