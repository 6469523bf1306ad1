-- ===== src/Core/Manifest/Build.antt =====
-- `Manifest::from_files` and its kin: how a manifest is made.
pub mod Shape
pub mod Valid
pub mod RoundTrip
use mathlib.Core.List.{foldl}
use np2ptp.Prelude.{ℕ, ◌+◌, ◌-◌, Option, none, some, List, [], ◌∷◌, ◌++◌, map, Bytes, codes}
use np2ptp.Prelude
use np2ptp.Core.Hash.{merkle_root}
use np2ptp.Core.Chunk.{Cdc, ChunkSpan, chunk}
use np2ptp.Core.Manifest.{ChunkRef, FileEntry, Manifest, u64, hashes}

-- The variables of the loop of `from_files`.
pub record Builder : Type 0 where
  pub chunks : List ChunkRef
  pub entries : List FileEntry
  pub global_offset : ℕ

abbrev pub rebase : ℕ → ChunkSpan → ChunkRef
rebase global_offset span = record {
  hash = span.hash;
  offset = u64 (global_offset + span.offset);
  length = span.length;
}

abbrev pub default_path : Option Bytes → Bytes
default_path none = codes "data"
default_path (some name) = name

abbrev pub no_files : Builder
no_files = record { chunks = []; entries = []; global_offset = 0 }

module _ (blake3 : Bytes → Bytes) (cdc : Cdc) where
  -- One round of the loop of `from_files`.
  unfoldable pub add_file : Builder → Bytes × Bytes → Builder
  add_file b (path, content) =
      let chunk_start = Prelude.length b.chunks in
      let chunks = b.chunks ++ map (rebase b.global_offset) (chunk blake3 cdc content) in
      record {
        chunks = chunks;
        entries =
            b.entries
            ++ record {
              path = path;
              size = Prelude.length content;
              chunk_start = chunk_start;
              chunk_count = Prelude.length chunks - chunk_start;
            }
              ∷ [];
        global_offset = u64 (b.global_offset + Prelude.length content);
      }

  abbrev pub finish : Builder → Option Bytes → Manifest
  finish b name = record {
    root = merkle_root blake3 (hashes b.chunks);
    total_size = b.global_offset;
    chunks = b.chunks;
    files = b.entries;
    name = name;
  }

  unfoldable pub from_files : List (Bytes × Bytes) → Option Bytes → Manifest
  from_files files name = finish (foldl add_file no_files files) name

  unfoldable pub from_bytes : Bytes → Option Bytes → Manifest
  from_bytes content name = from_files ((default_path name, content) ∷ []) name

  unfoldable pub from_spans : List ChunkSpan → ℕ → Option Bytes → Manifest
  from_spans spans total_size name =
      let chunks =
        map (λ (s : ChunkSpan). record { hash = s.hash; offset = s.offset; length = s.length })
          spans in
      record {
        root = merkle_root blake3 (hashes chunks);
        total_size = total_size;
        chunks = chunks;
        files =
            record {
              path = default_path name;
              size = total_size;
              chunk_start = 0;
              chunk_count = Prelude.length chunks;
            }
            ∷ [];
        name = name;
      }
