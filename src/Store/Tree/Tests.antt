-- ===== src/Store/Tree/Tests.antt =====
-- Trees at concrete inputs.
use np2ptp.Prelude.{◌-◌, ◌^◌, ◌≡◌, refl, none, List, [], ◌∷◌, All, codes}
use np2ptp.Core.Toy.{toy_blake3}
use np2ptp.Core.Hash.{merkle_root}
use np2ptp.Core.Manifest.{ChunkRef, FileEntry, Manifest, hashes}
use np2ptp.Store.Toy.{toy_hex, old_store, two_bytes}
use np2ptp.Store.Tree.{range_length, export_tree_to_dir}
use np2ptp.Store.Tree.Confined.{Below, export_tree_to_dir_confined}

abbrev one_chunk : List ChunkRef
one_chunk = record { hash = toy_blake3 two_bytes; offset = 0; length = 2 } ∷ []

-- A good file, and one that would lead out of the directory.
abbrev hostile : Manifest
hostile = record {
  root = merkle_root toy_blake3 (hashes one_chunk);
  total_size = 4;
  chunks = one_chunk;
  files =
      record { path = codes "a/b"; size = 2; chunk_start = 0; chunk_count = 1 }
      ∷ record { path = codes "../c"; size = 2; chunk_start = 0; chunk_count = 1 }
      ∷ [];
  name = none;
}

export_tree_to_dir_confined_example :
    All
      (Below (codes "out" ∷ []))
      (export_tree_to_dir toy_hex toy_blake3 hostile (codes "out" ∷ []) (old_store, [])).1.1
export_tree_to_dir_confined_example =
    export_tree_to_dir_confined toy_hex toy_blake3 hostile (codes "out" ∷ []) old_store

-- The end of its range wraps around to the start of the chunks.
abbrev wrapping : FileEntry
wrapping = record { path = codes "a"; size = 2; chunk_start = 1; chunk_count = 2 ^ 64 - 1 }

range_length_test : range_length toy_hex toy_blake3 wrapping ≡ 0
range_length_test = refl
