-- ===== src/Core/Manifest/Build/Shape.antt =====
-- The manifest that `from_files` makes, written without its accumulators, and that it is valid.
use mathlib.Core.List.{foldl}
use np2ptp.Prelude.{
  ℕ, ◌+◌, ◌-◌, ◌≤◌, ◌≡◌, refl, ap, sym, ◌∙◌, List, [], ◌∷◌, ◌++◌, map, append_assoc, append-nil,
  take, drop, take-append_length, drop-append_length, length-append, length-map, min, arith, Bytes,
  u64_max, ok, Option, true, eq_bytes_refl,
}
use np2ptp.Prelude
use np2ptp.Core.Chunk.{Cdc, ChunkSpan, chunk}
use np2ptp.Core.Chunk.Cover.{sum_spans}
use np2ptp.Core.Manifest.{ChunkRef, FileEntry, u64, root_is_consistent}
use np2ptp.Core.Manifest.Build.{Builder, rebase, no_files, add_file, from_files}
use np2ptp.Core.Manifest.Validate.Sums.{sum_lengths}

-- All the files' bytes, as a number.
abbrev pub total_length : List (Bytes × Bytes) → ℕ
total_length [] = 0
total_length ((path, content) ∷ files) = Prelude.length content + total_length files

abbrev pub rebased : ℕ → List ChunkSpan → List ChunkRef
rebased global_offset = map (rebase global_offset)

pub sum_lengths-rebased :
    (g : ℕ) (spans : List ChunkSpan) → sum_lengths (rebased g spans) ≡ sum_spans spans
sum_lengths-rebased g [] = refl
sum_lengths-rebased g (s ∷ ss) = omega (arith, sum_lengths-rebased g ss)

module _ (blake3 : Bytes → Bytes) (cdc : Cdc) where
  abbrev pub chunks_of : ℕ → List (Bytes × Bytes) → List ChunkRef
  chunks_of g [] = []
  chunks_of g ((path, content) ∷ files) =
      rebased g (chunk blake3 cdc content) ++ chunks_of (u64 (g + Prelude.length content)) files

  abbrev pub entry_of : ℕ → Bytes → Bytes → FileEntry
  entry_of start path content = record {
    path = path;
    size = Prelude.length content;
    chunk_start = start;
    chunk_count = Prelude.length (chunk blake3 cdc content);
  }

  abbrev pub entries_of : ℕ → List (Bytes × Bytes) → List FileEntry
  entries_of start [] = []
  entries_of start ((path, content) ∷ files) =
      entry_of start path content
      ∷ entries_of (start + Prelude.length (chunk blake3 cdc content)) files

  abbrev total_of : ℕ → List (Bytes × Bytes) → ℕ
  total_of g [] = g
  total_of g ((path, content) ∷ files) = total_of (u64 (g + Prelude.length content)) files

  add_file_lem :
      (b : Builder) (path content : Bytes)
      → add_file blake3 cdc b (path, content) ≡ record {
        chunks = b.chunks ++ rebased b.global_offset (chunk blake3 cdc content);
        entries = b.entries ++ entry_of (Prelude.length b.chunks) path content ∷ [];
        global_offset = u64 (b.global_offset + Prelude.length content);
      }
  unfolding add_file
  add_file_lem b path content =
      let spans = chunk blake3 cdc content in
      let count : Prelude.length (b.chunks ++ rebased b.global_offset spans)
            - Prelude.length b.chunks
          ≡ Prelude.length spans =
        omega (
          arith,
          length-append b.chunks (rebased b.global_offset spans),
          length-map spans (rebase b.global_offset),
        ) in
      rw count

  foldl-add_file :
      (files : List (Bytes × Bytes)) (b : Builder)
      → foldl (add_file blake3 cdc) b files ≡ record {
        chunks = b.chunks ++ chunks_of b.global_offset files;
        entries = b.entries ++ entries_of (Prelude.length b.chunks) files;
        global_offset = total_of b.global_offset files;
      }
  foldl-add_file [] b = rw (append-nil b.chunks, append-nil b.entries)
  foldl-add_file ((path, content) ∷ files) b =
      let spans = chunk blake3 cdc content in
      rw (
        add_file_lem b path content,
        foldl-add_file files,
        append_assoc b.chunks,
        append_assoc b.entries,
        length-append b.chunks,
        length-map spans (rebase b.global_offset),
      )

  total_of_lem :
      (g : ℕ) (files : List (Bytes × Bytes))
      → g + total_length files ≤ u64_max
      → total_of g files ≡ g + total_length files
  total_of_lem g [] h = omega arith
  total_of_lem g ((path, content) ∷ files) h =
      omega (arith, total_of_lem (u64 (g + Prelude.length content)) files (omega arith))

  -- The parts of the manifest.
  pub from_files-parts :
      (files : List (Bytes × Bytes)) (name : Option Bytes)
      → total_length files ≤ u64_max
      → ((from_files blake3 cdc files name).chunks ≡ chunks_of 0 files)
        × ((from_files blake3 cdc files name).files ≡ entries_of 0 files)
        × ((from_files blake3 cdc files name).total_size ≡ total_length files)
        × (root_is_consistent blake3 (from_files blake3 cdc files name) ≡ true)
  unfolding from_files root_is_consistent
  from_files-parts files name h =
      rw (foldl-add_file files no_files)
        (refl, refl, omega (arith, total_of_lem 0 files (omega arith)), eq_bytes_refl _)
