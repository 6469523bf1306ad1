-- ===== src/Node/Tests.antt =====
-- Downloads at concrete inputs.
use np2ptp.Prelude.{
  ◌≤◌, ◌≡◌, refl, sym, ap, none, some, List, [], ◌∷◌, length, ◌⊎◌, All, Bytes, codes, eq_bytes,
  eq_bytes_refl, true, ok, err, arith,
}
use np2ptp.Prelude.Maps.{lookup}
use np2ptp.Core.Hash.{Hash, merkle_root}
use np2ptp.Core.Toy.{toy_blake3, toy_digest}
use np2ptp.Core.Manifest.{ChunkRef, Manifest, hashes, root_is_consistent}
use np2ptp.Store.Text.{u32_max}
use np2ptp.Store.Sound.{holds}
use np2ptp.Store.Sound.Room.{Room}
use np2ptp.Store.Toy.{toy_hex, plain, empty_store, empty_store-Sound, two_bytes}
use np2ptp.Node.{NodeError, DownloadReport, ChunkSource, download}
use np2ptp.Core.Path.{
  one_of, validate_relative_path, check_components, check_component, components, front, body,
  split_on, contains_byte, ends_with, is_windows_reserved_device, first_piece,
}
use np2ptp.Core.Path.Confined.{join}
use np2ptp.Node.Output.{
  sanitize_output_name, trim_start, trim_end, space_width, has_separator, last_piece,
  sanitize_output_name_lem,
}
use np2ptp.Node.Live.{Serves, download_live}
use np2ptp.Node.Download.{Kept, handled, download_lem}

-- A source that answers every question with the same bytes.
abbrev parrot : ChunkSource (Unit {0})
parrot h s = (ok (some two_bytes), s)

parrot-small :
    (h : Hash) (s : Unit {0}) (bytes : Bytes)
    → (parrot h s).0 ≡ ok (some bytes)
    → length bytes ≤ u32_max
parrot-small h s bytes e =
    let same : two_bytes ≡ bytes = cc e in omega (arith, ap length (sym same))

-- The same chunk twice.
abbrev doubled_chunks : List ChunkRef
doubled_chunks =
    record { hash = toy_blake3 two_bytes; offset = 0; length = 2 }
    ∷ record { hash = toy_blake3 two_bytes; offset = 2; length = 2 }
    ∷ []

abbrev doubled : Manifest
doubled = record {
  root = merkle_root toy_blake3 (hashes doubled_chunks);
  total_size = 4;
  chunks = doubled_chunks;
  files = [];
  name = none;
}

empty_store-Room : Room 2 empty_store
unfolding lookup
empty_store-Room = (omega arith, λ id. omega arith)

download_lem_example :
    Kept toy_hex plain toy_blake3 toy_digest parrot parrot-small empty_store
      (download toy_hex toy_blake3 parrot doubled (empty_store, tt)).1.0
    × (((report : DownloadReport) × ((download toy_hex toy_blake3 parrot doubled
              (empty_store, tt)).0
            ≡ ok report)
          × (handled report ≡ 2)
          × All
              (λ (c : ChunkRef).
                holds toy_hex toy_blake3
                  (download toy_hex toy_blake3 parrot doubled (empty_store, tt)).1.0
                  c.hash
                ≡ true)
              doubled_chunks
          × (root_is_consistent toy_blake3 doubled ≡ true))
        ⊎ ((e : NodeError) × ((download toy_hex toy_blake3 parrot doubled (empty_store, tt)).0
              ≡ err e)))
download_lem_example =
    download_lem toy_hex plain toy_blake3 toy_digest parrot parrot-small doubled empty_store tt
      empty_store-Sound empty_store-Room

parrot-Serves : All (Serves toy_hex toy_blake3 parrot) doubled_chunks
parrot-Serves = ((λ s. (two_bytes, refl, refl)), ((λ s. (two_bytes, refl, refl)), tt))

doubled-consistent : root_is_consistent toy_blake3 doubled ≡ true
unfolding root_is_consistent
doubled-consistent = eq_bytes_refl doubled.root

download_live_example :
    (report : DownloadReport) × ((download toy_hex toy_blake3 parrot doubled (empty_store, tt)).0
      ≡ ok report)
download_live_example =
    download_live toy_hex toy_blake3 parrot doubled empty_store tt doubled-consistent parrot-Serves

escape-sanitized : sanitize_output_name (codes " ../escape\n") ≡ some (codes "escape")
unfolding sanitize_output_name trim_start trim_end space_width has_separator last_piece one_of
    eq_bytes validate_relative_path check_components check_component components front body split_on
    contains_byte ends_with is_windows_reserved_device first_piece
escape-sanitized = refl

sanitize_output_name_lem_example :
    join (codes "here" ∷ []) (codes "escape") ≡ codes "here" ∷ codes "escape" ∷ []
sanitize_output_name_lem_example =
    sanitize_output_name_lem (codes " ../escape\n") (codes "escape") (codes "here" ∷ [])
      escape-sanitized
