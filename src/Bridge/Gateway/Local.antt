-- ===== src/Bridge/Gateway/Local.antt =====
-- crates/np2ptp-bridge/src/streaming.rs: `convert_local` and `resolve_or_convert_local`, for a torrent
-- whose files are on disk. The disk is what `File::open` and the reads after it return for a path.
use np2ptp.Prelude.{
  ◌≡◌, refl, sym, ◌∙◌, Option, none, some, List, map, Bool, true, false, if◌then◌else◌, Bytes,
  Result, ok, err,
}
use np2ptp.Prelude.Runs.{Run, pure, lift, ◌>>=◌, ◌>>◌, bind-eq-ok}
use np2ptp.Core.Manifest.{Manifest}
use np2ptp.Bridge.Pieces.{
  BridgeError, store, piece_verification_failed, TorrentFile, TorrentMeta, verify_pieces,
}
use np2ptp.Bridge.Pieces.Streaming.{verify_pieces_streaming}
use np2ptp.Bridge.Pieces.Agreement.{load, verify_pieces_streaming-verify_pieces}
use np2ptp.Bridge.Gateway.{Network, Store, Outcome, raised, publish, resolve}

-- The calls of the store that read files from disk.
pub record FileStore (W StoreError : Type 0) : Type 0 where
  pub ingest_tree_files : List (Bytes × Bytes) → Option Bytes → Run W StoreError Manifest
  pub ingest_tree_files_no_copy : List (Bytes × Bytes) → Option Bytes → Run W StoreError Manifest

module _ {W NetError StoreError : Type 0} (sha1 : Bytes → Bytes) (network : Network W NetError)
    (local : Store W StoreError) (files_of : FileStore W StoreError)
    (disk : Bytes → Result Bytes (List (Result Bytes Bytes))) (join : Bytes → Bytes → Bytes) where
  -- The path of each file in the torrent, and its path on disk.
  abbrev pub located : TorrentMeta → Bytes → List (Bytes × Bytes)
  located meta data_dir = map (λ (f : TorrentFile). (f.path, join data_dir f.path)) meta.files

  abbrev pub opened : List (Bytes × Bytes) → List (Bytes × Result Bytes (List (Result Bytes Bytes)))
  opened files = map (λ ((name, path) : Bytes × Bytes). (name, disk path)) files

  abbrev pub ingest :
      Bool → List (Bytes × Bytes) → Option Bytes → Run W (BridgeError NetError StoreError) Manifest
  ingest true files name = raised store (files_of.ingest_tree_files_no_copy files name)
  ingest false files name = raised store (files_of.ingest_tree_files files name)

  unfoldable pub convert_local :
      TorrentMeta → Bytes → Bool → Run W (BridgeError NetError StoreError) Manifest
  convert_local meta data_dir no_copy = do
    lift (
        verify_pieces_streaming sha1 (opened (located meta data_dir)) meta.piece_length
          meta.piece_hashes)
    ingest no_copy (located meta data_dir) (some meta.name)

  unfoldable pub conclude_local :
      TorrentMeta → Bytes → Bool → Option Manifest → Run W (BridgeError NetError StoreError) Outcome
  conclude_local meta data_dir no_copy (some manifest) =
      pure record { manifest = manifest; infohash = meta.infohash; converted = false }
  conclude_local meta data_dir no_copy none = do
    manifest ← convert_local meta data_dir no_copy
    publish sha1 network local manifest meta.infohash
    pure record { manifest = manifest; infohash = meta.infohash; converted = true }

  unfoldable pub resolve_or_convert_local :
      TorrentMeta → Bytes → Bool → Run W (BridgeError NetError StoreError) Outcome
  resolve_or_convert_local meta data_dir no_copy = do
    found ← resolve sha1 network local meta.infohash (some meta)
    conclude_local meta data_dir no_copy found

  abbrev accepted : Result (BridgeError NetError StoreError) (Unit {0})
  accepted = ok tt

  passed :
      (test : Bool)
      → (if test then accepted else err piece_verification_failed) ≡ ok tt
      → test ≡ true
  passed true e = refl
  passed false e = cc e

  -- A manifest that `convert_local` returns, for a torrent whose files can be read, is what the store
  -- made of these files, and what was read of them has the pieces of the torrent.
  pub convert_local_sound :
      (meta : TorrentMeta) (data_dir : Bytes) (no_copy : Bool) (m : Manifest)
      (loaded : List (Bytes × Bytes)) (s : W)
      → load (opened (located meta data_dir)) ≡ ok loaded
      → (convert_local meta data_dir no_copy s).0 ≡ ok m
      → ((ingest no_copy (located meta data_dir) (some meta.name) s).0 ≡ ok m)
        × (verify_pieces sha1 loaded meta.piece_length meta.piece_hashes ≡ true)
  unfolding convert_local
  convert_local_sound meta data_dir no_copy m loaded s read e =
      let checked =
        verify_pieces_streaming-verify_pieces NetError StoreError sha1
          (opened (located meta data_dir)) loaded meta.piece_length meta.piece_hashes read in
      let (_, verified, ingested) =
        bind-eq-ok
          (lift (
            verify_pieces_streaming sha1 (opened (located meta data_dir)) meta.piece_length
              meta.piece_hashes))
          _ s m e in
      (ingested, passed _ (sym checked ∙ verified))
