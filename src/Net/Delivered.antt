-- ===== src/Net/Delivered.antt =====
-- A download from several providers as a whole: the manifest and its chunks.
use mathlib.Core.List.{Permᴰ}
use np2ptp.Prelude.{
  ℕ, ◌≤◌, ◌≡◌, refl, ap, some, List, [], ◌∷◌, length, true, ◌⊎◌, inl, inr, All, Bytes, Result, ok,
  err,
}
use np2ptp.Core.Hash.{Hash, IsHash}
use np2ptp.Core.Manifest.{ChunkRef, Manifest, root_is_consistent}
use np2ptp.Core.Manifest.Container.{Hex, Bincode}
use np2ptp.Core.Manifest.Validate.{validate}
use np2ptp.Store.Text.{u32_max}
use np2ptp.Store.Text.RoundTrip.{Word}
use np2ptp.Store.Sound.{Sound, holds}
use np2ptp.Store.Sound.Room.{Room}
use np2ptp.Store.{World}
use np2ptp.Net.{PeerId, NetError}
use np2ptp.Net.Client.{Requests, get_manifest, get_manifest_sound}
use np2ptp.Net.Multi.{Answers, Arrival, or_next, first_manifest, download_found, download_multi}
use np2ptp.Net.Completed.{Kept, download_chunks_lem}

module _ (hex : Hex) (plain : (h : Hash) → Word (hex.encode h)) (blake3 : Bytes → Bytes)
    (digest : (content : Bytes) → IsHash (blake3 content)) (bincode : Bincode) {S : Type 0}
    (request : Requests S) where
  abbrev Checked : Hash → Manifest → Type 0
  Checked root m = (m.root ≡ root) × (root_is_consistent blake3 m ≡ true) × (validate m ≡ ok tt)

  or_next_cases :
      (next : NetError → S → Result NetError Manifest × S) (r : Result NetError Manifest × S)
      (m : Manifest)
      → (or_next hex blake3 bincode request next r).0 ≡ ok m
      → (r.0 ≡ ok m) ⊎ ((e : NetError) × (t : S) × ((next e t).0 ≡ ok m))
  or_next_cases next (ok n, t) m h = inl h
  or_next_cases next (err e, t) m h = inr (e, t, h)

  first_manifest-Checked :
      (root : Hash) (providers : List PeerId) (e : NetError) (s : S) (m : Manifest)
      → (first_manifest hex blake3 bincode request root providers e s).0 ≡ ok m
      → Checked root m
  unfolding first_manifest
  first_manifest-Checked root [] e s m h = cc h
  first_manifest-Checked root (p ∷ ps) e s m h =
      elim (or_next_cases (first_manifest hex blake3 bincode request root ps)
        (get_manifest request blake3 bincode p root s) m h) [
          | inl here ↦ get_manifest_sound request blake3 bincode p root s m here
          | inr (e', t, later) ↦ first_manifest-Checked root ps e' t m later
        ]

  module _ (answers : S → Answers)
      (small : (t : S) (slot k : ℕ) (h : Hash) (bytes : Bytes)
        → answers t slot k h ≡ ok (some bytes)
        → length bytes ≤ u32_max)
      (arrange : List Arrival → List Arrival)
      (arranged : (rs : List Arrival) → Permᴰ rs (arrange rs)) where
    -- The result is an error, or a manifest that has the root that was asked for and is consistent and
    -- valid, and whose chunks are all in the store.
    abbrev pub Delivered : Hash → World → Result NetError Manifest → Type 0
    Delivered root v r =
        ((m : Manifest) × (r ≡ ok m)
          × (m.root ≡ root)
          × (root_is_consistent blake3 m ≡ true)
          × (validate m ≡ ok tt)
          × All (λ (c : ChunkRef). holds hex blake3 v c.hash ≡ true) m.chunks)
        ⊎ ((e : NetError) × (r ≡ err e))

    -- A download from several providers into an undamaged store with room for the chunks of the manifest
    -- that is found, whatever the providers answer in chunks of less than 4 GiB and in whatever order the
    -- chunks arrive: the store stays undamaged and loses nothing, and the result is an error, or a
    -- manifest that has the root that was asked for and is consistent and valid, and whose chunks are
    -- then all in the store.
    pub download_multi_lem :
        (root : Hash) (providers : List PeerId) (w : World) (s : S)
        → Sound hex blake3 w
        → ((m : Manifest)
            → (first_manifest hex blake3 bincode request root providers NetError.no_providers s).0
              ≡ ok m
            → Room (length m.chunks) w)
        → Kept hex plain blake3 digest w
            (download_multi hex blake3 bincode request root providers answers arrange w s).2
          × Delivered root
              (download_multi hex blake3 bincode request root providers answers arrange w s).2
              (download_multi hex blake3 bincode request root providers answers arrange w s).0
    unfolding download_multi
    download_multi_lem root providers w s sound room =
        found (first_manifest hex blake3 bincode request root providers NetError.no_providers s)
          refl
      where
        found :
            (r : Result NetError Manifest × S)
            → first_manifest hex blake3 bincode request root providers NetError.no_providers s ≡ r
            → Kept hex plain blake3 digest w
                (download_found hex blake3 bincode request providers answers arrange w r).2
              × Delivered root
                  (download_found hex blake3 bincode request providers answers arrange w r).2
                  (download_found hex blake3 bincode request providers answers arrange w r).0
        found (err e, t) same = ((sound, λ k h. h), inr (e, refl))
        found (ok m, t) same =
            let here : (first_manifest hex blake3 bincode request root providers
                  NetError.no_providers s).0
                ≡ ok m =
              ap (λ p. p.0) same in
            let (right, consistent, valid) =
              first_manifest-Checked root providers NetError.no_providers s m here in
            let (kept, result) =
              download_chunks_lem hex plain blake3 digest providers (answers t) (small t) arrange
                arranged m w sound (room m here) in
            (
              kept,
              elim result [
                | inl (done, all) ↦ inl (m, done, right, consistent, valid, all)
                | inr failed ↦ inr failed
              ],
            )
