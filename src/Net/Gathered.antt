-- ===== src/Net/Gathered.antt =====
-- What a download from several providers does to the local store.
use mathlib.Core.Path.{subst}
use np2ptp.Prelude.{
  ℕ, zero, suc, ◌+◌, ◌≤◌, ◌≡◌, refl, ap, Option, none, some, List, [], ◌∷◌, length, true,
  Bool-cases, inl, inr, All, Bytes, Result, ok, err,
}
use np2ptp.Core.Hash.{Hash}
use np2ptp.Core.Manifest.{Manifest, chunk_hash_ok}
use np2ptp.Store.Text.{u32_max}
use np2ptp.Net.{PeerId, NetError}
use np2ptp.Net.Multi.{
  Answers, Arrival, provider_at, wrap, judge, try_providers, fetch_slot, fetch_missing,
}

-- A chunk that arrived is small, and has the hash that was asked for.
abbrev pub Fits : (Bytes → Bytes) → Hash → Arrival → Type 0
Fits blake3 h (ok (bytes, from)) = (length bytes ≤ u32_max) × (blake3 bytes ≡ h)
Fits blake3 h (err e) = Unit

abbrev pub Small : Arrival → Type 0
Small (ok (bytes, from)) = length bytes ≤ u32_max
Small (err e) = Unit

-- The place of a missing chunk has its hash.
abbrev pub Placed : (Bytes → Bytes) → Manifest → ℕ × Hash → Type 0
Placed blake3 m (i, h) = (bytes : Bytes) → chunk_hash_ok blake3 m i bytes ≡ true → blake3 bytes ≡ h

-- The chunk came, and `P` holds of its hash.
abbrev pub Arrived : (Bytes → Bytes) → (Hash → Type 0) → Arrival → Type 0
Arrived blake3 P (ok (bytes, from)) = P (blake3 bytes)
Arrived blake3 P (err e) = ⊥

module _ (blake3 : Bytes → Bytes) (m : Manifest) (providers : List PeerId) (answers : Answers)
    (small : (slot k : ℕ) (h : Hash) (bytes : Bytes)
      → answers slot k h ≡ ok (some bytes)
      → length bytes ≤ u32_max) where
  judge-Fits :
      (slot i k : ℕ) (h : Hash) (p : PeerId) (next : NetError → Arrival)
      → Placed blake3 m (i, h)
      → ((e : NetError) → Fits blake3 h (next e))
      → Fits blake3 h (judge blake3 m providers answers i h p next (answers slot k h))
  judge-Fits slot i k h p next placed later = answered (answers slot k h) refl
    where
      answered :
          (r : Result NetError (Option Bytes))
          → answers slot k h ≡ r
          → Fits blake3 h (judge blake3 m providers answers i h p next r)
      answered (ok none) e = later (NetError.missing_chunk h)
      answered (err x) e = later x
      answered (ok (some bytes)) e = elim (Bool-cases (chunk_hash_ok blake3 m i bytes)) [
        | inl good ↦ rw good (small slot k h bytes e, placed bytes good)
        | inr bad ↦ rw bad (later NetError.bad_chunk)
      ]

  try_providers-Fits :
      (slot i : ℕ) (h : Hash) (left k : ℕ) (e : NetError)
      → Placed blake3 m (i, h)
      → Fits blake3 h (try_providers blake3 m providers answers slot i h left k e)
  unfolding try_providers
  try_providers-Fits slot i h zero k e placed = tt
  try_providers-Fits slot i h (suc left) k e placed =
      judge-Fits slot i k h (provider_at providers (wrap (slot + k) (length providers)))
        (try_providers blake3 m providers answers slot i h left (suc k)) placed
        (λ e'. try_providers-Fits slot i h left (suc k) e' placed)

  Fits-Small : (h : Hash) (r : Arrival) → Fits blake3 h r → Small r
  Fits-Small h (ok (bytes, from)) (fits, _) = fits
  Fits-Small h (err e) fits = tt

  pub fetch_missing-Small :
      (slot : ℕ) (ts : List (ℕ × Hash))
      → All (Placed blake3 m) ts
      → All Small (fetch_missing blake3 m providers answers slot ts)
  unfolding fetch_missing fetch_slot
  fetch_missing-Small slot [] placed = tt
  fetch_missing-Small slot ((i, h) ∷ ts) (placed, later) = (
    Fits-Small h (fetch_slot blake3 m providers answers slot (i, h))
        (try_providers-Fits slot i h (length providers) 0 (NetError.missing_chunk h) placed),
    fetch_missing-Small (suc slot) ts later,
  )

  pub length-fetch_missing :
      (slot : ℕ) (ts : List (ℕ × Hash))
      → length (fetch_missing blake3 m providers answers slot ts) ≡ length ts
  unfolding fetch_missing
  length-fetch_missing slot [] = refl
  length-fetch_missing slot (t ∷ ts) = ap suc (length-fetch_missing (suc slot) ts)

  -- What holds of the hash of each chunk that arrived holds of each missing one, if all arrived.
  pub fetch_missing-Arrived :
      (P : Hash → Type 0) (slot : ℕ) (ts : List (ℕ × Hash))
      → All (Placed blake3 m) ts
      → All (Arrived blake3 P) (fetch_missing blake3 m providers answers slot ts)
      → All (λ ((i, h) : ℕ × Hash). P h) ts
  unfolding fetch_missing fetch_slot
  fetch_missing-Arrived P slot [] placed arrived = tt
  fetch_missing-Arrived P slot ((i, h) ∷ ts) (placed, later) (here, rest) = (
    one_arrived (fetch_slot blake3 m providers answers slot (i, h))
        (try_providers-Fits slot i h (length providers) 0 (NetError.missing_chunk h) placed) here,
    fetch_missing-Arrived P (suc slot) ts later rest,
  )
    where
      one_arrived : (r : Arrival) → Fits blake3 h r → Arrived blake3 P r → P h
      one_arrived (ok (bytes, from)) (_, hashed) there = subst P hashed there
      one_arrived (err e) fits there = absurd there
