-- ===== src/Core/Manifest/Tests.antt =====
-- manifest.rs on small files: runs, and the theorems at concrete inputs.
use np2ptp.Prelude.{
  ℕ, ◌≤◌, ◌≡◌, ◌↔◌, refl, ◌⊎◌, Bool, true, false, ◌&&◌, Option, none, some, List, [], ◌∷◌, ◌++◌,
  map, arith, Bytes, codes, eq_bytes, Result, ok, err, ◌==◌, if◌then◌else◌, u64_max, take, drop,
}
use np2ptp.Prelude
use np2ptp.Core.Hash.{
  Hash, merkle_root, build_levels, levels_from, pair_up, leaf_hash, node_hash, top, merkle_proof,
  climb, absorb, merkle_verify,
}
use np2ptp.Core.Hash.Binding.{Collision}
use np2ptp.Core.Chunk.{chunk, chunk_with}
use np2ptp.Core.Manifest.{
  Manifest, hashes, root_is_consistent, chunk_hash_ok, verify_chunk, invalid, range_out_of_bounds,
}
use np2ptp.Core.Manifest.Build.{from_files, add_file}
use np2ptp.Core.Manifest.Build.Valid.{validate-from_files}
use np2ptp.Core.Manifest.Build.RoundTrip.{reconstruct_files-from_files}
use np2ptp.Core.Manifest.Checks.{verify_chunk_cheap}
use np2ptp.Core.Manifest.Validate.{validate, check_files, check_file}
use np2ptp.Core.Manifest.Validate.WellFormed.{IsWellFormed, validate_iff}
use np2ptp.Core.Manifest.Reconstruct.{
  reconstruct, reconstruct_files, split_stream, gather, pull, accept,
}
use np2ptp.Core.Manifest.Split.{Fills, contents, split_stream_complete}
use np2ptp.Core.Manifest.Sound.{joined, reconstruct_sound, reconstruct_agree}
use np2ptp.Core.Toy.{toy_blake3, toy_digest, toy_cdc, fixed}

abbrev first : Bytes
first = codes "hello"

abbrev second : Bytes
second = codes "tree"

abbrev files : List (Bytes × Bytes)
files = (codes "a/one", first) ∷ (codes "empty", []) ∷ (codes "two", second) ∷ []

-- The manifest of the three files: two chunks, and an entry of no chunks for the empty file.
abbrev made : Manifest
made = record {
  root = merkle_root toy_blake3 (toy_blake3 first ∷ toy_blake3 second ∷ []);
  total_size = 9;
  chunks =
      record { hash = toy_blake3 first; offset = 0; length = 5 }
      ∷ record { hash = toy_blake3 second; offset = 5; length = 4 }
      ∷ [];
  files =
      record { path = codes "a/one"; size = 5; chunk_start = 0; chunk_count = 1 }
      ∷ record { path = codes "empty"; size = 0; chunk_start = 1; chunk_count = 0 }
      ∷ record { path = codes "two"; size = 4; chunk_start = 1; chunk_count = 1 }
      ∷ [];
  name = none;
}

from_files_run : from_files toy_blake3 toy_cdc files none ≡ made
unfolding from_files add_file chunk chunk_with fixed
from_files_run = refl

-- A source that has both chunks, and counts the requests.
abbrev source : Hash → ℕ → Option Bytes × ℕ
source h n =
    if eq_bytes h (toy_blake3 first)
    then (some first, Prelude.suc n)
    else if eq_bytes h (toy_blake3 second)
    then (some second, Prelude.suc n)
    else (none, Prelude.suc n)

reconstruct_run : (reconstruct toy_blake3 source made 0).0 ≡ ok (first ++ second)
unfolding reconstruct gather pull accept verify_chunk merkle_proof climb merkle_verify absorb
    merkle_root build_levels levels_from pair_up leaf_hash node_hash top eq_bytes validate
    check_files check_file
reconstruct_run = refl

validate-made : validate made ≡ ok tt
unfolding validate check_files check_file
validate-made = refl

-- A file entry that reaches past the chunk list is refused.
out_of_bounds :
    validate (record made {
      files = record { path = codes "x"; size = 9; chunk_start = 0; chunk_count = 3 } ∷ [];
    })
    ≡ err (invalid range_out_of_bounds)
unfolding validate check_files check_file
out_of_bounds = refl

validate_iff_example : (validate made ≡ ok tt) ↔ IsWellFormed made
validate_iff_example = validate_iff made (omega arith)

verify_chunk_cheap_test :
    verify_chunk toy_blake3 made 1 second
    ≡ (chunk_hash_ok toy_blake3 made 1 second && root_is_consistent toy_blake3 made)
verify_chunk_cheap_test = verify_chunk_cheap toy_blake3 made 1 second

validate-from_files_example :
    (validate (from_files toy_blake3 toy_cdc files none) ≡ ok tt)
    × (root_is_consistent toy_blake3 (from_files toy_blake3 toy_cdc files none) ≡ true)
validate-from_files_example = validate-from_files toy_blake3 toy_cdc files none (omega arith)

split_stream_complete_example :
    (pieces : List (Bytes × Bytes)) × (split_stream made (codes "hellotree") ≡ ok pieces)
    × Fills made.files pieces
    × (contents pieces ≡ codes "hellotree")
split_stream_complete_example =
    split_stream_complete made (codes "hellotree") validate-made refl (omega arith)

reconstruct_sound_example :
    (pieces : List Bytes) × (first ++ second ≡ joined pieces)
    × (map toy_blake3 pieces ≡ hashes made.chunks)
    × (Prelude.length (first ++ second) ≡ 9)
    × ((made.chunks ≡ []) ⊎ (merkle_root toy_blake3 (hashes made.chunks) ≡ made.root))
reconstruct_sound_example =
    reconstruct_sound toy_blake3 source made 0 (first ++ second) reconstruct_run

reconstruct_agree_example : (first ++ second ≡ first ++ second) ⊎ Collision toy_blake3
reconstruct_agree_example =
    reconstruct_agree toy_blake3 toy_digest source source made made 0 0 (first ++ second)
      (first ++ second) refl (λ e. cc e) (λ e. cc e) reconstruct_run reconstruct_run

reconstruct_files-from_files_example :
    (reconstruct_files toy_blake3 source (from_files toy_blake3 toy_cdc files none) 0).0 ≡ ok files
unfolding chunk chunk_with fixed eq_bytes
reconstruct_files-from_files_example =
    reconstruct_files-from_files toy_blake3 toy_cdc source files none 0 (omega arith)
      (((λ s. refl), tt), (tt, (((λ s. refl), tt), tt)))
