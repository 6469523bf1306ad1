-- ===== src/Core/Manifest/Validate/WellFormed.antt =====
-- What `validate` accepts, stated without its loop.
use np2ptp.Prelude.{
  ℕ, ◌+◌, ◌≤◌, ◌≡◌, ◌↔◌, refl, List, [], ◌∷◌, min, arith, u64_max, saturating_add, ok, err,
  bind-eq-ok, guard-eq-ok, ◌∙◌, ◌==◌,
}
use np2ptp.Prelude
use np2ptp.Core.Manifest.{ChunkRef, FileEntry, Manifest}
use np2ptp.Core.Manifest.Validate.{
  check_file, check_files, validate, finish_of, own_chunks, chunk_bytes,
}
use np2ptp.Core.Manifest.Validate.Sums.{sum_lengths, sum_sizes, chunk_bytes_lem}

-- From chunk `cursor` on, the files own the chunks one behind the other, up to the last chunk, and
-- the size of each is the sum of its own chunks' lengths (as a `u64` holds it).
abbrev pub Tiled : List ChunkRef → ℕ → List FileEntry → Type 0
Tiled chunks cursor [] = cursor ≡ Prelude.length chunks
Tiled chunks cursor (entry ∷ entries) =
    (entry.chunk_start ≡ cursor)
    × (finish_of entry ≤ Prelude.length chunks)
    × (entry.size ≡ min (sum_lengths (own_chunks chunks entry)) u64_max)
    × Tiled chunks (finish_of entry) entries

pub record IsWellFormed (m : Manifest) : Type 0 where
  pub tiled : Tiled m.chunks 0 m.files
  pub chunks_total : m.total_size ≡ min (sum_lengths m.chunks) u64_max
  pub files_total : m.total_size ≡ min (sum_sizes m.files) u64_max

check_file-ok :
    (chunks : List ChunkRef) (cursor : ℕ) (entry : FileEntry) (finish : ℕ)
    → check_file chunks cursor entry ≡ ok finish
    → (entry.chunk_start ≡ cursor)
      × (finish_of entry ≤ Prelude.length chunks)
      × (entry.size ≡ min (sum_lengths (own_chunks chunks entry)) u64_max)
      × (finish ≡ finish_of entry)
check_file-ok chunks cursor entry finish h =
    unfold check_file in ground (arith, chunk_bytes_lem (own_chunks chunks entry))

own_chunks-nil :
    (chunks : List ChunkRef) (entry : FileEntry)
    → entry.chunk_count ≡ 0
    → sum_lengths (own_chunks chunks entry) ≡ 0
own_chunks-nil chunks entry e = rw e

check_file_accepts :
    (chunks : List ChunkRef) (cursor : ℕ) (entry : FileEntry)
    → Prelude.length chunks ≤ u64_max
    → entry.chunk_start ≡ cursor
    → finish_of entry ≤ Prelude.length chunks
    → entry.size ≡ min (sum_lengths (own_chunks chunks entry)) u64_max
    → check_file chunks cursor entry ≡ ok (finish_of entry)
check_file_accepts chunks cursor entry short s f z =
    unfold check_file in
    ground (arith, chunk_bytes_lem (own_chunks chunks entry), own_chunks-nil chunks entry)

check_files-ok :
    (chunks : List ChunkRef) (cursor file_bytes : ℕ) (entries : List FileEntry) (ends : ℕ × ℕ)
    → file_bytes ≤ u64_max
    → check_files chunks cursor file_bytes entries ≡ ok ends
    → ends.0 ≡ Prelude.length chunks
    → Tiled chunks cursor entries × (ends.1 ≡ min (file_bytes + sum_sizes entries) u64_max)
unfolding check_files
check_files-ok chunks cursor file_bytes [] (c, b) k h e = (ground arith, ground arith)
check_files-ok chunks cursor file_bytes (entry ∷ entries) ends k h e =
    let (finish, here, later) = bind-eq-ok (check_file chunks cursor entry) _ h in
    let (start, fits, size, moved) = check_file-ok chunks cursor entry finish here in
    let (tiled, total) =
      check_files-ok chunks finish (saturating_add file_bytes entry.size) entries ends (omega arith)
        later e in
    ((start, fits, size, rw moved at tiled), omega (arith, total))

check_files_accepts :
    (chunks : List ChunkRef) (cursor file_bytes : ℕ) (entries : List FileEntry)
    → Prelude.length chunks ≤ u64_max
    → file_bytes ≤ u64_max
    → Tiled chunks cursor entries
    → check_files chunks cursor file_bytes entries
      ≡ ok (Prelude.length chunks, min (file_bytes + sum_sizes entries) u64_max)
unfolding check_files
check_files_accepts chunks cursor file_bytes [] short k tiled = ground arith
check_files_accepts chunks cursor file_bytes (entry ∷ entries) short k (s, f, z, rest) =
    rw (check_file_accepts chunks cursor entry short s f z) (
      check_files_accepts chunks (finish_of entry) (saturating_add file_bytes entry.size) entries
        short (omega arith) rest
      ∙ ground arith)

-- What passes `validate` is well formed.
pub validate-IsWellFormed : (m : Manifest) → validate m ≡ ok tt → IsWellFormed m
unfolding validate
validate-IsWellFormed m h =
    let (sum, files) = guard-eq-ok (chunk_bytes m.chunks == m.total_size) _ _ h in
    let (ends, loop, after) = bind-eq-ok (check_files m.chunks 0 0 m.files) _ files in
    let (at_end, total) = guard-eq-ok (ends.0 == Prelude.length m.chunks) _ _ after in
    let (tiled, sizes) =
      check_files-ok m.chunks 0 0 m.files ends (omega arith) loop (ground arith) in
    record {
      tiled = tiled;
      chunks_total = ground (arith, chunk_bytes_lem m.chunks);
      files_total = ground arith;
    }

-- `validate` accepts a manifest, of at most `u64::MAX` chunks, exactly if it is well formed.
pub validate_iff :
    (m : Manifest) → Prelude.length m.chunks ≤ u64_max → (validate m ≡ ok tt) ↔ IsWellFormed m
unfolding validate
validate_iff m short = (
  validate-IsWellFormed m,
  λ w.
      rw (check_files_accepts m.chunks 0 0 m.files short (omega arith) w.tiled)
        (ground (arith, chunk_bytes_lem m.chunks)),
)
