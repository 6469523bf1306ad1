-- ===== src/Net/Recovered.antt =====
-- What a download by symbols returns and keeps.
use np2ptp.Prelude.{
  ℕ, ◌≡◌, refl, sym, ap, ◌∙◌, Option, none, some, List, length, ltb, Bool, true, false, Bool-cases,
  inl, inr, if◌then◌else◌, Bytes, eq_bytes, eq_bytes_iff, Result, ok, err,
}
use np2ptp.Core.Hash.{Hash}
use np2ptp.Core.Chunk.{Cdc}
use np2ptp.Core.Manifest.{Manifest, ManifestError, root_is_consistent}
use np2ptp.Core.Manifest.Build.{from_files}
use np2ptp.Core.Manifest.Container.{Hex, Bincode}
use np2ptp.Core.Manifest.Reconstruct.{split_stream}
use np2ptp.Core.Manifest.Validate.{validate}
use np2ptp.Fec.{Raptorq}
use np2ptp.Store.{World}
use np2ptp.Store.Tree.{ingest_tree}
use np2ptp.Net.{PeerId, NetError, max_fec_transfer_size}
use np2ptp.Net.Client.{Requests, get_manifest, get_manifest_sound}
use np2ptp.Net.Fountain.{
  nothing_yet, need_of, collect, enough_rounds, keep_files, keep_decoded, or_bad_chunk, finish_fec,
  fetch_content, download_fec,
}

module _ (hex : Hex) (blake3 : Bytes → Bytes) (bincode : Bincode) (cdc : Cdc) {D : Type 0}
    (raptorq : Raptorq D) {S : Type 0} (request : Requests S)
    (submit_receipt : PeerId → ℕ → S → S) where
  -- The files are the decoded content cut up by the manifest, they make the content id when they are
  -- chunked anew, and they are put into the store.
  abbrev pub Recovers : Hash → World → Manifest → World → Type 0
  Recovers root w m v =
      (content : Bytes) × (files : List (Bytes × Bytes)) × (split_stream m content ≡ ok files)
      × ((from_files blake3 cdc files m.name).root ≡ root)
      × (v ≡ (ingest_tree hex blake3 cdc files m.name w).1)

  keep_decoded-Recovers :
      (m n : Manifest) (root : Hash) (provider : PeerId) (r : Result NetError (Bytes × ℕ))
      (w v : World) (s t : S)
      → keep_decoded hex blake3 bincode cdc raptorq request submit_receipt n root provider r (w, s)
        ≡ (ok m, (v, t))
      → (n ≡ m) × Recovers root w n v
  unfolding keep_files
  keep_decoded-Recovers m n root provider (err e) w v s t h = cc h
  keep_decoded-Recovers m n root provider (ok (content, fetched)) w v s t h =
      parts (split_stream n content) refl h
    where
      parts :
          (r : Result ManifestError (List (Bytes × Bytes)))
          → split_stream n content ≡ r
          → np2ptp.Prelude.Runs.carry
              (or_bad_chunk r)
              (keep_files hex blake3 bincode cdc raptorq request submit_receipt n root provider
                fetched)
              (w, s)
            ≡ (ok m, (v, t))
          → (n ≡ m) × Recovers root w n v
      parts (err e) same h = cc h
      parts (ok files) same h =
          elim (Bool-cases (eq_bytes (from_files blake3 cdc files n.name).root root)) [
            | inl good ↦
                let done = (rw good at h) in
                (
                  cc done,
                  (
                    content,
                    files,
                    same,
                    (eq_bytes_iff (from_files blake3 cdc files n.name).root root).0 good,
                    cc done,
                  ),
                )
            | inr bad ↦ cc (rw bad at h)
          ]

  -- When a download by symbols succeeds, whatever the provider sent: the manifest that it returns has
  -- the root that was asked for, its chunks' hashes make this root, and it is valid; the decoded
  -- content, cut into files by this manifest, makes the same root when it is chunked anew; and these
  -- files are what was put into the store.
  pub download_fec_sound :
      (root : Hash) (provider : PeerId) (w v : World) (s t : S) (m : Manifest)
      → download_fec hex blake3 bincode cdc raptorq request submit_receipt root provider w s
        ≡ some (ok m, (v, t))
      → (m.root ≡ root)
        × (root_is_consistent blake3 m ≡ true)
        × (validate m ≡ ok tt)
        × Recovers root w m v
  unfolding download_fec
  download_fec_sound root provider w v s t m h =
      fetched (get_manifest request blake3 bincode provider root s) refl h
    where
      finished :
          (n : Manifest) (o : Option (Result NetError (Bytes × ℕ)) × S)
          → finish_fec hex blake3 bincode cdc raptorq request submit_receipt n root provider w o
            ≡ some (ok m, (v, t))
          → (n ≡ m) × Recovers root w n v
      finished n (none, s') e = cc e
      finished n (some r, s') e = keep_decoded-Recovers m n root provider r w v s' t (cc e)

      fetched :
          (r : Result NetError Manifest × S)
          → get_manifest request blake3 bincode provider root s ≡ r
          → fetch_content hex blake3 bincode cdc raptorq request submit_receipt root provider w r
            ≡ some (ok m, (v, t))
          → (m.root ≡ root)
            × (root_is_consistent blake3 m ≡ true)
            × (validate m ≡ ok tt)
            × Recovers root w m v
      fetched (err e, s') same k = cc k
      fetched (ok n, s') same k = elim (Bool-cases (ltb max_fec_transfer_size n.total_size)) [
        | inl large ↦ cc (rw large at k)
        | inr small ↦
            let o =
              collect raptorq n root (need_of n) request provider (enough_rounds (need_of n))
                nothing_yet s' in
            let (here, recovers) = finished n o (rw small at k) in
            let got : (get_manifest request blake3 bincode provider root s).0 ≡ ok m =
              ap (λ p. p.0) same ∙ ap ok here in
            let (right, consistent, valid) =
              get_manifest_sound request blake3 bincode provider root s m got in
            let all : Recovers root w m v = (rw here at recovers) in (right, consistent, valid, all)
      ]
