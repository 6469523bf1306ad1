-- ===== src/Bridge/Gateway.antt =====
-- crates/np2ptp-bridge/src/lib.rs: `convert`, `publish`, `resolve` and `resolve_or_convert`. The
-- node's network, its store and the torrent source are interfaces over one state `W` that their
-- calls change.
pub mod Checked
pub mod Local
pub mod Tests
mod LocalTests
use np2ptp.Prelude.{
  ℕ, Option, none, some, List, [], ◌∷◌, Bool, true, false, if◌then◌else◌, Bytes, Result, ok, err,
}
use np2ptp.Prelude.Runs.{Run, pure, lift, ◌>>=◌, ◌>>◌}
use np2ptp.Core.Hash.{Hash}
use np2ptp.Core.Manifest.{Manifest}
use np2ptp.Bridge.Pieces.{
  BridgeError, net, store, piece_verification_failed, TorrentMeta, TorrentDownload, verify_pieces,
}

-- What the gateway calls of `np2ptp_net::Network`.
pub record Network (W NetError : Type 0) : Type 1 where
  pub Peer : Type 0
  pub get_mapping : Bytes → Run W NetError (Option Hash)
  pub put_mapping : Bytes → Hash → Run W NetError (Unit {0})
  pub find_providers : Hash → Run W NetError (List Peer)
  pub download : Hash → Peer → Run W NetError Manifest
  pub provide : Manifest → Run W NetError (Unit {0})

-- What the gateway calls of `np2ptp_store::Store`.
pub record Store (W StoreError : Type 0) : Type 0 where
  pub ingest_tree : List (Bytes × Bytes) → Option Bytes → Run W StoreError Manifest
  pub export_tree : Manifest → Run W StoreError (List (Bytes × Bytes))

pub record TorrentSource (W NetError StoreError : Type 0) : Type 0 where
  pub infohash : Bytes → Run W (BridgeError NetError StoreError) Bytes
  pub metadata : Bytes → Run W (BridgeError NetError StoreError) (Option TorrentMeta)
  pub fetch : Bytes → Run W (BridgeError NetError StoreError) TorrentDownload

pub record Outcome : Type 0 where
  pub manifest : Manifest
  pub infohash : Bytes
  pub converted : Bool

-- The `?` on a result whose error `From` turns into another.
abbrev pub from_error {ℓ} : {E F : Type 0} {A : Type ℓ} → (E → F) → Result E A → Result F A
from_error f (ok a) = ok a
from_error f (err e) = err (f e)

abbrev pub raised {ℓ} : {W E F : Type 0} {A : Type ℓ} → (E → F) → Run W E A → Run W F A
raised f m s = let (r, s') = m s in (from_error f r, s')

module _ {W NetError StoreError : Type 0} (sha1 : Bytes → Bytes) (network : Network W NetError)
    (local : Store W StoreError) where
  abbrev pub Bridged {ℓ} : Type ℓ → Type ℓ
  Bridged A = Run W (BridgeError NetError StoreError) A

  abbrev pub is_torrent : List (Bytes × Bytes) → TorrentMeta → Bool
  is_torrent files meta = verify_pieces sha1 files meta.piece_length meta.piece_hashes

  -- What `convert` does with a torrent that is downloaded.
  unfoldable pub take_in : TorrentDownload → Bridged (Manifest × TorrentMeta)
  take_in dl =
      if is_torrent dl.files dl.meta
      then (raised store (local.ingest_tree dl.files (some dl.meta.name)) >>= λ manifest.
          pure (manifest, dl.meta))
      else lift (err piece_verification_failed)

  unfoldable pub convert :
      TorrentSource W NetError StoreError → Bytes → Bridged (Manifest × TorrentMeta)
  convert source input = source.fetch input >>= take_in

  unfoldable pub publish : Manifest → Bytes → Bridged (Unit {0})
  publish manifest infohash = do
    raised net (network.provide manifest)
    raised net (network.put_mapping infohash manifest.root)

  -- What is done with a manifest that was downloaded, before the `next` provider.
  unfoldable pub settle :
      Option TorrentMeta → Manifest → Bridged (Option Manifest) → Bridged (Option Manifest)
  settle none manifest next = pure (some manifest)
  settle (some meta) manifest next = do
    files ← raised store (local.export_tree manifest)
    if is_torrent files meta then pure (some manifest) else next

  -- The `continue` where the download failed.
  unfoldable pub after_download :
      Option TorrentMeta
      → Result NetError Manifest
      → Bridged (Option Manifest)
      → Bridged (Option Manifest)
  after_download verify (err e) next = next
  after_download verify (ok manifest) next = settle verify manifest next

  -- The loop of `resolve` over the providers.
  unfoldable pub try_providers :
      Hash → Option TorrentMeta → List network.Peer → Bridged (Option Manifest)
  try_providers root verify [] s = (ok none, s)
  try_providers root verify (provider ∷ providers) s =
      let next = try_providers root verify providers in
      let (downloaded, s') = network.download root provider s in
      after_download verify downloaded next s'

  unfoldable pub resolve_root : Option Hash → Option TorrentMeta → Bridged (Option Manifest)
  resolve_root none verify = pure none
  resolve_root (some root) verify = do
    providers ← raised net (network.find_providers root)
    try_providers root verify providers

  unfoldable pub resolve : Bytes → Option TorrentMeta → Bridged (Option Manifest)
  resolve infohash verify = do
    mapping ← raised net (network.get_mapping infohash)
    resolve_root mapping verify

  abbrev pub infohash_of :
      TorrentSource W NetError StoreError → Bytes → Option TorrentMeta → Bridged Bytes
  infohash_of source input (some meta) = pure meta.infohash
  infohash_of source input none = source.infohash input

  -- The fast path where `resolve` found something, and the conversion where it did not.
  unfoldable pub conclude :
      TorrentSource W NetError StoreError → Bytes → Bytes → Option Manifest → Bridged Outcome
  conclude source input infohash (some manifest) =
      pure record { manifest = manifest; infohash = infohash; converted = false }
  conclude source input infohash none = do
    (manifest, meta) ← convert source input
    publish manifest meta.infohash
    pure record { manifest = manifest; infohash = meta.infohash; converted = true }

  unfoldable pub resolve_or_convert : TorrentSource W NetError StoreError → Bytes → Bridged Outcome
  resolve_or_convert source input = do
    meta ← source.metadata input
    infohash ← infohash_of source input meta
    found ← resolve infohash meta
    conclude source input infohash found
