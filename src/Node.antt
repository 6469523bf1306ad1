-- ===== src/Node.antt =====
-- crates/np2ptp-node/src/lib.rs: the client that fetches content chunk by chunk into its own store. A
-- progress callback is not modelled: it sees counters only.
pub mod Download
pub mod Live
pub mod Output
pub mod ServeSet
pub mod ReadTree
mod Tests
mod ServeTests
use np2ptp.Prelude.{
  ℕ, zero, suc, ◌+◌, Option, none, some, List, [], ◌∷◌, if◌then◌else◌, Bool, true, false, Bytes,
  Result, ok, err, guard,
}
use np2ptp.Prelude.Runs.{Run, pure, lift, carry, ◌>>=◌, ◌>>◌}
use np2ptp.Core.Hash.{Hash}
use np2ptp.Core.Manifest.{ChunkRef, Manifest, ManifestError, root_is_consistent, chunk_hash_ok}
use np2ptp.Core.Manifest.Container.{Hex}
use np2ptp.Store.{IoError, StoreError, World, has, put, get}

-- The messages of `InvalidUsage` are left out.
pub data NodeError : Type 0 where
  store : StoreError → NodeError
  manifest : ManifestError → NodeError
  io : IoError → NodeError
  invalid_usage : NodeError
  missing_chunk : Hash → NodeError
  bad_chunk : ℕ → NodeError
  unsafe_path : Bytes → NodeError

pub record DownloadReport : Type 0 where
  pub fetched : ℕ
  pub deduped : ℕ

abbrev pub of_store : Result StoreError (Option Bytes) → Result NodeError (Option Bytes)
of_store (ok answer) = ok answer
of_store (err e) = err (store e)

-- `ChunkSource::fetch`, whose source may keep a state of its own.
abbrev pub ChunkSource : Type 0 → Type 0
ChunkSource S = Hash → Run S NodeError (Option Bytes)

-- A step of the source beside the local store.
abbrev pub on_source {ℓ} :
    {S : Type 0} {A : Type ℓ} → Run S NodeError A → Run (World × S) NodeError A
on_source m (w, s) = let (r, s') = m s in (r, (w, s'))

module _ (hex : Hex) (blake3 : Bytes → Bytes) where
  -- `StoreSource`: another node's store.
  unfoldable pub store_source : ChunkSource World
  store_source h w = let (r, w') = get hex blake3 h w in (of_store r, w')

  module _ {S : Type 0} (fetch : ChunkSource S) where
    -- What the source answered for chunk `index`, if it is there and has the hash.
    abbrev pub accept_chunk : Manifest → ℕ → Hash → Option Bytes → Result NodeError Bytes
    accept_chunk m index h none = err (missing_chunk h)
    accept_chunk m index h (some bytes) =
        if chunk_hash_ok blake3 m index bytes then ok bytes else err (bad_chunk index)

    abbrev pub keep_chunk : DownloadReport → Bytes → Run (World × S) NodeError DownloadReport
    keep_chunk report bytes (w, s) =
        (ok (record report { fetched = suc report.fetched }), ((put hex blake3 bytes w).1, s))

    -- The branch of the loop for a chunk that the local store does not have.
    unfoldable pub fetch_chunk :
        Manifest → ℕ → ChunkRef → DownloadReport → Run (World × S) NodeError DownloadReport
    fetch_chunk m index c report = do
      answer ← on_source (fetch c.hash)
      bytes ← lift (accept_chunk m index c.hash answer)
      keep_chunk report bytes

    unfoldable pub download_chunk :
        Manifest → ℕ → ChunkRef → DownloadReport → Run (World × S) NodeError DownloadReport
    download_chunk m index c report (w, s) =
        let (held, w') = has hex c.hash w in
        if held
        then (ok (record report { deduped = suc report.deduped }), (w', s))
        else fetch_chunk m index c report (w', s)

    unfoldable pub download_chunks :
        Manifest → ℕ → List ChunkRef → DownloadReport → Run (World × S) NodeError DownloadReport
    download_chunks m index [] report = pure report
    download_chunks m index (c ∷ cs) report = do
      report' ← download_chunk m index c report
      download_chunks m (suc index) cs report'

    unfoldable pub download : Manifest → Run (World × S) NodeError DownloadReport
    download m = do
      lift (guard (root_is_consistent blake3 m) (bad_chunk 0))
      download_chunks m 0 m.chunks (record { fetched = 0; deduped = 0 })
