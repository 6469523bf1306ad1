-- ===== src/Node/Live.antt =====
-- When a download succeeds.
use np2ptp.Prelude.{
  ℕ, suc, ◌≡◌, refl, sym, ap, ◌∙◌, some, List, [], ◌∷◌, ◌++◌, append_assoc, length, length-append,
  get_elem?, get_elem?-append_length, Bool, true, false, if◌then◌else◌, All, Bytes, eq_bytes_iff,
  Result, ok, arith,
}
use np2ptp.Core.Manifest.{ChunkRef, Manifest, root_is_consistent, chunk_hash_ok}
use np2ptp.Core.Manifest.Container.{Hex}
use np2ptp.Store.{World, has}
use np2ptp.Node.{
  NodeError, DownloadReport, ChunkSource, fetch_chunk, download_chunk, download_chunks, download,
}

module _ (hex : Hex) (blake3 : Bytes → Bytes) {S : Type 0} (fetch : ChunkSource S) where
  -- In every state the source answers the chunk's hash with bytes of that hash.
  abbrev pub Serves : ChunkRef → Type 0
  Serves c =
      (s : S) → (bytes : Bytes) × ((fetch c.hash s).0 ≡ ok (some bytes)) × (blake3 bytes ≡ c.hash)

  abbrev Succeeds : Result NodeError DownloadReport × (World × S) → Type 0
  Succeeds (r, t) = (report : DownloadReport) × (r ≡ ok report)

  fetch_chunk-Succeeds :
      (m : Manifest) (index : ℕ) (c : ChunkRef) (report : DownloadReport) (w : World) (s : S)
      → get_elem? m.chunks index ≡ some c
      → Serves c
      → Succeeds (fetch_chunk hex blake3 fetch m index c report (w, s))
  unfolding fetch_chunk chunk_hash_ok
  fetch_chunk-Succeeds m index c report w s here serves =
      let (bytes, got, hashed) = serves s in
      let good : chunk_hash_ok blake3 m index bytes ≡ true =
        rw (here, chunk_hash_ok) ((eq_bytes_iff (blake3 bytes) c.hash).1 hashed) in
      (rw (got, good) (record report { fetched = suc report.fetched }, refl))

  download_chunk-Succeeds :
      (m : Manifest) (index : ℕ) (c : ChunkRef) (report : DownloadReport) (t : World × S)
      → get_elem? m.chunks index ≡ some c
      → Serves c
      → Succeeds (download_chunk hex blake3 fetch m index c report t)
  unfolding download_chunk
  download_chunk-Succeeds m index c report (w, s) here serves =
      branch (has hex c.hash w).0 (has hex c.hash w).1
    where
      branch :
          (held : Bool) (w' : World)
          → Succeeds (
              if held
              then (ok (record report { deduped = suc report.deduped }), (w', s))
              else fetch_chunk hex blake3 fetch m index c report (w', s))
      branch true w' = (record report { deduped = suc report.deduped }, refl)
      branch false w' = fetch_chunk-Succeeds m index c report w' s here serves

  download_chunks-Succeeds :
      (m : Manifest) (front cs : List ChunkRef) (index : ℕ) (report : DownloadReport)
      (t : World × S)
      → m.chunks ≡ front ++ cs
      → length front ≡ index
      → All Serves cs
      → Succeeds (download_chunks hex blake3 fetch m index cs report t)
  unfolding download_chunks
  download_chunks-Succeeds m front [] index report t e i serves = (report, refl)
  download_chunks-Succeeds m front (c ∷ cs) index report t e i (served, serves) =
      let here : get_elem? m.chunks index ≡ some c =
        ap (λ l. get_elem? l index) e
        ∙ ap (get_elem? (front ++ c ∷ cs)) (sym i)
        ∙ get_elem?-append_length front c cs in
      let step = download_chunk hex blake3 fetch m index c report t in
      let (report', done) = download_chunk-Succeeds m index c report t here served in
      (rw done (
        download_chunks-Succeeds m (front ++ c ∷ []) cs (suc index) report' step.1
          (e ∙ sym (append_assoc front (c ∷ []) cs))
          (omega (arith, i, length-append front (c ∷ []))) serves))

  -- A download succeeds if the manifest's root is consistent and the source answers each of its
  -- chunks, in every state, with bytes of its hash; the local store may be in any state.
  pub download_live :
      (m : Manifest) (w : World) (s : S)
      → root_is_consistent blake3 m ≡ true
      → All Serves m.chunks
      → (report : DownloadReport) × ((download hex blake3 fetch m (w, s)).0 ≡ ok report)
  unfolding download
  download_live m w s good serves =
      (rw good (
        download_chunks-Succeeds m [] m.chunks 0 (record { fetched = 0; deduped = 0 }) (w, s) refl
          refl serves))
