-- ===== src/Core/Manifest/Validate.antt =====
-- `Manifest::validate`: the structural checks that the Merkle root does not commit to.
pub mod Sums
pub mod WellFormed
use mathlib.Core.List.{foldl}
use np2ptp.Prelude.{
  ℕ, ◌+◌, ◌<◌, Bool, not, ◌&&◌, List, [], ◌∷◌, take, drop, ltb, ◌==◌, if◌then◌else◌, Result, ok,
  err, ◌>>=◌, ◌>>◌, guard, u64_max, saturating_add,
}
use np2ptp.Prelude
use np2ptp.Core.Manifest.{
  ChunkRef, FileEntry, Manifest, ManifestError, size_mismatch, invalid, ranges_must_tile,
  non_empty_file_owns_zero_chunks, range_overflows, range_out_of_bounds,
}

-- A fold of `saturating_add` over the chunk lengths.
abbrev pub add_length : ℕ → ChunkRef → ℕ
add_length acc c = saturating_add acc c.length

unfoldable pub chunk_bytes : List ChunkRef → ℕ
chunk_bytes chunks = foldl add_length 0 chunks

abbrev pub finish_of : FileEntry → ℕ
finish_of entry = entry.chunk_start + entry.chunk_count

-- `&self.chunks[entry.chunk_start..end]`
abbrev pub own_chunks : List ChunkRef → FileEntry → List ChunkRef
own_chunks chunks entry = take entry.chunk_count (drop entry.chunk_start chunks)

-- One round of the loop over the files; the result is the new `cursor`.
unfoldable pub check_file : List ChunkRef → ℕ → FileEntry → Result ManifestError ℕ
unfolding chunk_bytes
check_file chunks cursor entry = do
  guard (entry.chunk_start == cursor) (invalid ranges_must_tile)
  guard (not (entry.chunk_count == 0 && not (entry.size == 0)))
      (invalid non_empty_file_owns_zero_chunks)
  guard (not (ltb u64_max (finish_of entry))) (invalid range_overflows)
  guard (not (ltb (Prelude.length chunks) (finish_of entry))) (invalid range_out_of_bounds)
  let own_bytes = chunk_bytes (own_chunks chunks entry)
  guard (own_bytes == entry.size) (size_mismatch own_bytes entry.size)
  ok (finish_of entry)

-- The loop: `cursor` and `file_bytes` after the last file.
unfoldable pub check_files : List ChunkRef → ℕ → ℕ → List FileEntry → Result ManifestError (ℕ × ℕ)
check_files chunks cursor file_bytes [] = ok (cursor, file_bytes)
check_files chunks cursor file_bytes (entry ∷ entries) = do
  finish ← check_file chunks cursor entry
  check_files chunks finish (saturating_add file_bytes entry.size) entries

abbrev check_ends : Manifest → ℕ × ℕ → Result ManifestError (Unit {0})
check_ends m (cursor, file_bytes) = do
  guard (cursor == Prelude.length m.chunks) (invalid ranges_must_tile)
  guard (file_bytes == m.total_size) (size_mismatch file_bytes m.total_size)

unfoldable pub validate : Manifest → Result ManifestError (Unit {0})
unfolding chunk_bytes
validate m = do
  guard (chunk_bytes m.chunks == m.total_size) (size_mismatch (chunk_bytes m.chunks) m.total_size)
  ends ← check_files m.chunks 0 0 m.files
  check_ends m ends
