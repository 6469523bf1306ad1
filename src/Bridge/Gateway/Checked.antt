-- ===== src/Bridge/Gateway/Checked.antt =====
-- What the gateway hands out was checked against the torrent's pieces, and what it converts is
-- published.
use np2ptp.Prelude.{
  ◌≡◌, refl, Option, none, some, List, [], ◌∷◌, Bool, true, false, if◌then◌else◌, ◌⊎◌, inl, inr,
  Bytes, Result, ok, err,
}
use np2ptp.Prelude.Runs.{Run, bind-eq-ok}
use np2ptp.Core.Hash.{Hash}
use np2ptp.Core.Manifest.{Manifest}
use np2ptp.Bridge.Pieces.{BridgeError, net, store, TorrentMeta, TorrentDownload}
use np2ptp.Bridge.Gateway.{
  Network, Store, TorrentSource, Outcome, from_error, raised, is_torrent, take_in, convert, publish,
  settle, after_download, try_providers, resolve_root, resolve, infohash_of, conclude,
  resolve_or_convert,
}

-- A call of `m` returned `a`, in some state.
abbrev pub Returned : {W E A : Type 0} → Run W E A → A → Type 0
Returned {W} m a = (s : W) × ((m s).0 ≡ ok a)

from_error_eq :
    {E F A : Type 0} (f : E → F) (r : Result E A) (a : A) → from_error f r ≡ ok a → r ≡ ok a
from_error_eq f (ok b) a e = cc e
from_error_eq f (err x) a e = cc e

module _ {W NetError StoreError : Type 0} (sha1 : Bytes → Bytes) (network : Network W NetError)
    (local : Store W StoreError) where
  -- The store gave files back for the manifest that have the torrent's pieces.
  abbrev pub Checked : TorrentMeta → Manifest → Type 0
  Checked meta manifest =
      (files : List (Bytes × Bytes)) × Returned (local.export_tree manifest) files
      × (is_torrent sha1 network local files meta ≡ true)

  abbrev pub Passes : Option TorrentMeta → Manifest → Type 0
  Passes none manifest = Unit
  Passes (some meta) manifest = Checked meta manifest

  -- The manifest is what the store made of files that have the torrent's pieces.
  abbrev pub TakenIn : TorrentMeta → Manifest → Type 0
  TakenIn meta manifest =
      (files : List (Bytes × Bytes)) × Returned (local.ingest_tree files (some meta.name)) manifest
      × (is_torrent sha1 network local files meta ≡ true)

  either_ran :
      {A : Type 0} (test : Bool) (first next : Run W (BridgeError NetError StoreError) A) (s : W)
      (a : A)
      → ((if test then first else next) s).0 ≡ ok a
      → ((test ≡ true) × ((first s).0 ≡ ok a)) ⊎ Returned next a
  either_ran true first next s a e = inl (refl, e)
  either_ran false first next s a e = inr (s, e)

  abbrev answered : {A : Type 0} → A → Result (BridgeError NetError StoreError) A
  answered a = ok a

  handed_out : (downloaded m : Manifest) → answered (some downloaded) ≡ ok (some m) → downloaded ≡ m
  handed_out downloaded m e = cc e

  settle-ok :
      (verify : Option TorrentMeta) (downloaded m : Manifest)
      (next : Run W (BridgeError NetError StoreError) (Option Manifest)) (s : W)
      → (settle sha1 network local verify downloaded next s).0 ≡ ok (some m)
      → ((downloaded ≡ m) × Passes verify downloaded) ⊎ Returned next (some m)
  unfolding settle
  settle-ok none downloaded m next s e = inl (handed_out downloaded m e, tt)
  settle-ok (some meta) downloaded m next s e =
      let (files, exported, rest) =
        bind-eq-ok (raised store (local.export_tree downloaded)) _ s (some m) e in
      elim (either_ran (is_torrent sha1 network local files meta) _ next _ (some m) rest) [
        | inl (passed, out) ↦ inl (
          handed_out downloaded m out,
          (
            files,
            (s, from_error_eq store (local.export_tree downloaded s).0 files exported),
            passed,
          ),
        )
        | inr later ↦ inr later
      ]

  abbrev pub Found : Hash → Option TorrentMeta → Manifest → Type 0
  Found root verify m =
      ((provider : network.Peer) × Returned (network.download root provider) m) × Passes verify m

  after_download-ok :
      (root : Hash) (verify : Option TorrentMeta) (provider : network.Peer) (m : Manifest)
      (next : Run W (BridgeError NetError StoreError) (Option Manifest)) (s s' : W)
      (downloaded : Result NetError Manifest)
      → (network.download root provider s).0 ≡ downloaded
      → (after_download sha1 network local verify downloaded next s').0 ≡ ok (some m)
      → Found root verify m ⊎ Returned next (some m)
  unfolding after_download
  after_download-ok root verify provider m next s s' (err x) d e = inr (s', e)
  after_download-ok root verify provider m next s s' (ok got) d e =
      elim (settle-ok verify got m next s' e) [
        | inl (same, passes) ↦ inl (rw (← same) ((provider, (s, d)), passes))
        | inr later ↦ inr later
      ]

  try_providers_sound :
      (root : Hash) (verify : Option TorrentMeta) (providers : List network.Peer) (m : Manifest)
      (s : W)
      → (try_providers sha1 network local root verify providers s).0 ≡ ok (some m)
      → Found root verify m
  unfolding try_providers
  try_providers_sound root verify [] m s e = cc e
  try_providers_sound root verify (p ∷ ps) m s e =
      elim (after_download-ok root verify p m (try_providers sha1 network local root verify ps) s
        (network.download root p s).1 (network.download root p s).0 refl e) [
          | inl found ↦ found
          | inr (later, e') ↦ try_providers_sound root verify ps m later e'
        ]

  resolve_root-ok :
      (mapping : Option Hash) (verify : Option TorrentMeta) (m : Manifest) (s : W)
      → (resolve_root sha1 network local mapping verify s).0 ≡ ok (some m)
      → (root : Hash) × (mapping ≡ some root) × Found root verify m
  unfolding resolve_root
  resolve_root-ok none verify m s e = cc e
  resolve_root-ok (some root) verify m s e =
      let (providers, _, tried) =
        bind-eq-ok (raised net (network.find_providers root)) _ s (some m) e in
      (root, refl, try_providers_sound root verify providers m _ tried)

  -- A manifest that `resolve` returns was downloaded from a peer under the root that the network maps
  -- the infohash to, and if the torrent's metadata was given, the store exported files for it that
  -- have the torrent's pieces. This holds whatever the network and the store answer.
  pub resolve_sound :
      (infohash : Bytes) (verify : Option TorrentMeta) (m : Manifest) (s : W)
      → (resolve sha1 network local infohash verify s).0 ≡ ok (some m)
      → (root : Hash) × ((network.get_mapping infohash s).0 ≡ ok (some root))
        × ((provider : network.Peer) × Returned (network.download root provider) m)
        × Passes verify m
  unfolding resolve
  resolve_sound infohash verify m s e =
      let (mapping, mapped, rest) =
        bind-eq-ok (raised net (network.get_mapping infohash)) _ s (some m) e in
      let (root, same, found) = resolve_root-ok mapping verify m _ rest in
      (
        root,
        rw (← same) (from_error_eq net (network.get_mapping infohash s).0 mapping mapped),
        found.0,
        found.1,
      )

  taken :
      (got m : Manifest) (meta meta' : TorrentMeta)
      → answered {A = Manifest × TorrentMeta} (got, meta') ≡ ok (m, meta)
      → (got ≡ m) × (meta' ≡ meta)
  taken got m meta meta' e = (cc e, cc e)

  take_in-ok :
      (dl : TorrentDownload) (m : Manifest) (meta : TorrentMeta) (s : W)
      → (take_in sha1 network local dl s).0 ≡ ok (m, meta)
      → TakenIn meta m
  unfolding take_in
  take_in-ok dl m meta s e =
      elim (either_ran (is_torrent sha1 network local dl.files dl.meta) _ _ s (m, meta) e) [
        | inl (passed, ran) ↦
            let ingest = local.ingest_tree dl.files (some dl.meta.name) in
            let (got, ingested, out) = bind-eq-ok (raised store ingest) _ s (m, meta) ran in
            let (same, same_meta) = taken got m meta dl.meta out in
            rw (← same, ← same_meta)
              (dl.files, (s, from_error_eq store (ingest s).0 got ingested), passed)
        | inr (_, refused) ↦ cc refused
      ]

  -- A manifest that `convert` returns is what the store made of files that have the pieces of the
  -- torrent, whose metadata is returned with it: no other content is ever converted.
  pub convert_sound :
      (source : TorrentSource W NetError StoreError) (input : Bytes) (m : Manifest)
      (meta : TorrentMeta) (s : W)
      → (convert sha1 network local source input s).0 ≡ ok (m, meta)
      → TakenIn meta m
  unfolding convert
  convert_sound source input m meta s e =
      let (dl, _, rest) =
        bind-eq-ok (source.fetch input) (take_in sha1 network local) s (m, meta) e in
      take_in-ok dl m meta _ rest

  -- The manifest is announced, and the infohash mapped to its root.
  abbrev pub Published : Manifest → Bytes → Type 0
  Published m infohash =
      Returned (network.provide m) tt × Returned (network.put_mapping infohash m.root) tt

  publish-ok :
      (m : Manifest) (infohash : Bytes) (s : W)
      → (publish sha1 network local m infohash s).0 ≡ ok tt
      → Published m infohash
  unfolding publish
  publish-ok m infohash s e =
      let (_, provided, rest) = bind-eq-ok (raised net (network.provide m)) _ s tt e in
      (
        (s, from_error_eq net (network.provide m s).0 tt provided),
        (_, from_error_eq net (network.put_mapping infohash m.root _).0 tt rest),
      )

  -- How an outcome came about: on the fast path, or by a conversion that was published.
  abbrev pub Accounted : Option TorrentMeta → Outcome → Type 0
  Accounted known o =
      ((o.converted ≡ false)
        × (root : Hash) × Returned (network.get_mapping o.infohash) (some root)
        × Found root known o.manifest)
      ⊎ ((o.converted ≡ true)
          × (meta : TorrentMeta) × (meta.infohash ≡ o.infohash)
          × TakenIn meta o.manifest
          × Published o.manifest o.infohash)

  concluded : (made o : Outcome) → answered made ≡ ok o → made ≡ o
  concluded made o e = cc e

  conclude-ok :
      (source : TorrentSource W NetError StoreError) (input infohash : Bytes)
      (known : Option TorrentMeta) (found : Option Manifest) (o : Outcome) (s s' : W)
      → (resolve sha1 network local infohash known s).0 ≡ ok found
      → (conclude sha1 network local source input infohash found s').0 ≡ ok o
      → Accounted known o
  unfolding conclude
  conclude-ok source input infohash known none o s s' r e =
      let (both, converted, rest) = bind-eq-ok (convert sha1 network local source input) _ s' o e in
      let (_, published, out) =
        bind-eq-ok (publish sha1 network local both.0 both.1.infohash) _ _ o rest in
      rw (← concluded _ o out) (
        inr (
          refl,
          both.1,
          refl,
          convert_sound source input both.0 both.1 s' converted,
          publish-ok both.0 both.1.infohash _ published,
        ))
  conclude-ok source input infohash known (some m) o s s' r e =
      let (root, mapped, got, passes) = resolve_sound infohash known m s r in
      rw (← concluded _ o e) (inl (refl, root, (s, mapped), (got, passes)))

  -- Every outcome of `resolve_or_convert` is accounted for by the metadata that the source gave for
  -- the input. Either nothing was converted: the manifest was downloaded under a root that the
  -- network maps the outcome's infohash to, and where metadata was given, the files that the store
  -- exported for it have the torrent's pieces. Or it was converted: the manifest is what the store
  -- made of files that have the pieces of the torrent fetched, it was announced, and the torrent's
  -- infohash, which is the outcome's, was mapped to its root.
  pub resolve_or_convert_sound :
      (source : TorrentSource W NetError StoreError) (input : Bytes) (o : Outcome) (s : W)
      → (resolve_or_convert sha1 network local source input s).0 ≡ ok o
      → (known : Option TorrentMeta) × ((source.metadata input s).0 ≡ ok known) × Accounted known o
  unfolding resolve_or_convert
  resolve_or_convert_sound source input o s e =
      let (known, described, rest) = bind-eq-ok (source.metadata input) _ s o e in
      let (infohash, _, rest') =
        bind-eq-ok (infohash_of sha1 network local source input known) _ _ o rest in
      let (found, resolved, rest'') =
        bind-eq-ok (resolve sha1 network local infohash known) _ _ o rest' in
      (known, described, conclude-ok source input infohash known found o _ _ resolved rest'')
