-- ===== src/Bridge/Gateway/LocalTests.antt =====
-- `convert_local` on a small disk, and the property at a concrete input.
use np2ptp.Prelude.{
  ℕ, suc, ◌≡◌, refl, some, List, [], ◌∷◌, ◌++◌, Bytes, codes, Result, ok, false, true, eq_bytes,
}
use np2ptp.Bridge.Pieces.{verify_pieces}
use np2ptp.Bridge.Pieces.Streaming.{
  new, hash_and_check, feed_round, feed_rounds, feed, finish, feed_reads, feed_files,
  verify_pieces_streaming,
}
use np2ptp.Bridge.Pieces.Agreement.{read_all, load}
use np2ptp.Bridge.Gateway.Local.{FileStore, located, ingest, convert_local, convert_local_sound}
use np2ptp.Bridge.Gateway.Tests.{digest, content, torrent, bridged, network_with, keeper}
use np2ptp.Prelude

abbrev file_keeper : FileStore ℕ Bytes
file_keeper = record {
  ingest_tree_files = λ files name s. (ok bridged, suc s);
  ingest_tree_files_no_copy = λ files name s. (ok bridged, suc s);
}

-- Every file on this disk holds the same bytes.
abbrev disk : Bytes → Result Bytes (List (Result Bytes Bytes))
disk path = ok (ok (codes "hel") ∷ ok (codes "lo") ∷ [])

abbrev under : Bytes → Bytes → Bytes
under dir path = dir ++ codes "/" ++ path

converted_here :
    (convert_local digest
      (network_with Prelude.none)
      keeper
      file_keeper
      disk
      under
      torrent
      (codes "d")
      false
      0).0
    ≡ ok bridged
unfolding convert_local verify_pieces_streaming feed_files feed_reads feed feed_rounds feed_round
    hash_and_check finish new eq_bytes
converted_here = refl

convert_local_sound_test :
    ((ingest digest
        (network_with Prelude.none)
        keeper
        file_keeper
        disk
        under
        false
        (located digest
          (network_with Prelude.none)
          keeper
          file_keeper
          disk
          under
          torrent
          (codes "d"))
        (some torrent.name)
        0).0
      ≡ ok bridged)
    × (verify_pieces digest content torrent.piece_length torrent.piece_hashes ≡ true)
unfolding load read_all
convert_local_sound_test =
    convert_local_sound digest (network_with Prelude.none) keeper file_keeper disk under torrent
      (codes "d") false bridged content 0 refl converted_here
