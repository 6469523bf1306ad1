-- ===== src/Core/Manifest/Build/Valid.antt =====
-- A manifest that `from_files` makes passes the checks that a receiver makes.
use np2ptp.Prelude.{
  ℕ, ◌+◌, ◌≤◌, ◌≡◌, refl, ap, sym, ◌∙◌, List, [], ◌∷◌, ◌++◌, append_assoc, take, drop,
  take-append_length, drop-append_length, length-append, length-map, min, arith, Bytes, u64_max, ok,
  Option, true,
}
use np2ptp.Prelude
use np2ptp.Core.Chunk.{Cdc, chunk}
use np2ptp.Core.Chunk.Cover.{chunk-Covers}
use np2ptp.Core.Manifest.{ChunkRef, root_is_consistent}
use np2ptp.Core.Manifest.Build.{rebase, from_files}
use np2ptp.Core.Manifest.Build.Shape.{
  total_length, rebased, chunks_of, entry_of, entries_of, sum_lengths-rebased, from_files-parts,
}
use np2ptp.Core.Manifest.{u64}
use np2ptp.Core.Manifest.Validate.{validate, own_chunks}
use np2ptp.Core.Manifest.Validate.Sums.{sum_lengths, sum_sizes, sum_lengths-append}
use np2ptp.Core.Manifest.Validate.WellFormed.{Tiled, validate_iff}

module _ (blake3 : Bytes → Bytes) (cdc : Cdc) where
  sum_lengths-chunks_of :
      (g : ℕ) (files : List (Bytes × Bytes))
      → sum_lengths (chunks_of blake3 cdc g files) ≡ total_length files
  sum_lengths-chunks_of g [] = refl
  sum_lengths-chunks_of g ((path, content) ∷ files) =
      let spans = chunk blake3 cdc content in
      let g' = u64 (g + Prelude.length content) in
      omega (
        arith,
        sum_lengths-append (rebased g spans) (chunks_of blake3 cdc g' files),
        sum_lengths-rebased g spans,
        (chunk-Covers blake3 cdc content).total,
        sum_lengths-chunks_of g' files,
      )

  sum_sizes-entries_of :
      (start : ℕ) (files : List (Bytes × Bytes))
      → sum_sizes (entries_of blake3 cdc start files) ≡ total_length files
  sum_sizes-entries_of start [] = refl
  sum_sizes-entries_of start ((path, content) ∷ files) =
      omega (arith, sum_sizes-entries_of (start + Prelude.length (chunk blake3 cdc content)) files)

  length-chunks_of :
      (g : ℕ) (files : List (Bytes × Bytes))
      → Prelude.length (chunks_of blake3 cdc g files) ≤ total_length files
  length-chunks_of g [] = omega arith
  length-chunks_of g ((path, content) ∷ files) =
      let spans = chunk blake3 cdc content in
      let g' = u64 (g + Prelude.length content) in
      omega (
        arith,
        length-append (rebased g spans) (chunks_of blake3 cdc g' files),
        length-map spans (rebase g),
        (chunk-Covers blake3 cdc content).few,
        length-chunks_of g' files,
      )

  entries_of-Tiled :
      (before : List ChunkRef) (g start : ℕ) (files : List (Bytes × Bytes))
      → Prelude.length before ≡ start
      → total_length files ≤ u64_max
      → Tiled (before ++ chunks_of blake3 cdc g files) start (entries_of blake3 cdc start files)
  entries_of-Tiled before g start [] e h = omega (arith, length-append before [])
  entries_of-Tiled before g start ((path, content) ∷ files) e h =
      let spans = chunk blake3 cdc content in
      let here = rebased g spans in
      let rest = chunks_of blake3 cdc (u64 (g + Prelude.length content)) files in
      let count = length-map spans (rebase g) in
      let own : own_chunks (before ++ (here ++ rest)) (entry_of blake3 cdc start path content)
          ≡ here =
        rw (drop-append_length start before (here ++ rest) e)
          (take-append_length (Prelude.length spans) here rest count) in
      let later =
        entries_of-Tiled (before ++ here) (u64 (g + Prelude.length content))
          (start + Prelude.length spans) files (omega (arith, length-append before here, count))
          (omega arith) in
      (
        refl,
        omega (arith, length-append before (here ++ rest), length-append here rest, count),
        rw own
            (omega (arith, sum_lengths-rebased g spans, (chunk-Covers blake3 cdc content).total)),
        (rw (append_assoc before here rest) at later),
      )

  -- The manifest of any files of fewer than 2 ^ 64 bytes in all passes `validate`, and its root is
  -- the Merkle root of its chunks.
  pub validate-from_files :
      (files : List (Bytes × Bytes)) (name : Option Bytes)
      → total_length files ≤ u64_max
      → (validate (from_files blake3 cdc files name) ≡ ok tt)
        × (root_is_consistent blake3 (from_files blake3 cdc files name) ≡ true)
  validate-from_files files name h =
      let (chunks, entries, total, root) = from_files-parts blake3 cdc files name h in
      let m = from_files blake3 cdc files name in
      let short : Prelude.length m.chunks ≤ u64_max =
        rw chunks (omega (arith, length-chunks_of 0 files)) in
      (
        (validate_iff m short).1 (record {
          tiled = rw (chunks, entries) (entries_of-Tiled [] 0 0 files refl h);
          chunks_total = rw (chunks, total) (omega (arith, sum_lengths-chunks_of 0 files));
          files_total = rw (entries, total) (omega (arith, sum_sizes-entries_of 0 files));
        }),
        root,
      )
