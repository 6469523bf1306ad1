-- ===== src/Bridge/Gateway/Tests.antt =====
-- The gateway over a small network that counts its calls, and the properties at concrete inputs.
use np2ptp.Prelude.{
  ℕ, zero, suc, ◌+◌, ◌*◌, ◌≡◌, refl, Option, none, some, List, [], ◌∷◌, true, Bytes, codes, Result,
  ok, err, eq_bytes,
}
use np2ptp.Core.Hash.{Hash}
use np2ptp.Core.Manifest.{Manifest}
use np2ptp.Bridge.Pieces.{
  TorrentMeta, verify_pieces, div_ceil, chunks_from, digests_match, concatenate,
}
use np2ptp.Bridge.Gateway.{
  Network, Store, TorrentSource, Outcome, take_in, convert, publish, settle, after_download,
  try_providers, resolve_root, resolve, conclude, resolve_or_convert,
}
use np2ptp.Bridge.Gateway.Checked.{TakenIn, Accounted, convert_sound, resolve_or_convert_sound}

abbrev sum : Bytes → ℕ
sum [] = 1
sum (b ∷ bs) = b + 3 * sum bs

abbrev pub digest : Bytes → Bytes
digest content = sum content ∷ []

abbrev pub content : List (Bytes × Bytes)
content = (codes "a", codes "hello") ∷ []

abbrev pub torrent : TorrentMeta
torrent = record {
  infohash = codes "info";
  name = codes "t";
  files = record { path = codes "a"; length = 5 } ∷ [];
  piece_length = 4;
  piece_hashes = digest (codes "hell") ∷ digest (codes "o") ∷ [];
}

abbrev pub bridged : Manifest
bridged = record { root = codes "r"; total_size = 5; chunks = []; files = []; name = none }

-- The first peer is gone, the second has the content.
abbrev download_from : ℕ → Result Bytes Manifest
download_from zero = err (codes "gone")
download_from (suc n) = ok bridged

abbrev pub network_with : Option Hash → Network ℕ Bytes
network_with mapping = record {
  Peer = ℕ;
  get_mapping = λ infohash s. (ok mapping, suc s);
  put_mapping = λ infohash root s. (ok tt, suc s);
  find_providers = λ root s. (ok (0 ∷ 1 ∷ []), suc s);
  download = λ root peer s. (download_from peer, suc s);
  provide = λ manifest s. (ok tt, suc s);
}

abbrev pub keeper : Store ℕ Bytes
keeper = record {
  ingest_tree = λ files name s. (ok bridged, suc s);
  export_tree = λ manifest s. (ok content, suc s);
}

abbrev torrents : TorrentSource ℕ Bytes Bytes
torrents = record {
  infohash = λ input s. (ok torrent.infohash, suc s);
  metadata = λ input s. (ok none, suc s);
  fetch = λ input s. (ok record { meta = torrent; files = content }, suc s);
}

resolved :
    resolve digest (network_with (some (codes "r"))) keeper (codes "info") (some torrent) 0
    ≡ (ok (some bridged), 5)
unfolding resolve resolve_root try_providers after_download settle verify_pieces div_ceil
    chunks_from digests_match concatenate eq_bytes
resolved = refl

converted :
    (convert digest (network_with none) keeper torrents (codes "x") 0).0 ≡ ok (bridged, torrent)
unfolding convert take_in verify_pieces div_ceil chunks_from digests_match concatenate eq_bytes
converted = refl

convert_sound_test : TakenIn digest (network_with none) keeper torrent bridged
convert_sound_test =
    convert_sound digest (network_with none) keeper torrents (codes "x") bridged torrent 0 converted

abbrev outcome : Outcome
outcome = record { manifest = bridged; infohash = codes "info"; converted = true }

bridged_now :
    (resolve_or_convert digest (network_with none) keeper torrents (codes "x") 0).0 ≡ ok outcome
unfolding resolve_or_convert resolve resolve_root conclude convert take_in publish verify_pieces
    div_ceil chunks_from digests_match concatenate eq_bytes
bridged_now = refl

resolve_or_convert_sound_example :
    (known : Option TorrentMeta) × ((torrents.metadata (codes "x") 0).0 ≡ ok known)
    × Accounted digest (network_with none) keeper known outcome
resolve_or_convert_sound_example =
    resolve_or_convert_sound digest (network_with none) keeper torrents (codes "x") outcome 0
      bridged_now
