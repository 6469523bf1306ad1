-- ===== src/Core/Manifest/Reconstruct.antt =====
-- `Manifest::reconstruct`, `reconstruct_files` and `split_stream`. The closure `fetch` is a function
-- with a state `S` of its own, so it may answer the same hash in different ways.
use np2ptp.Prelude.{
  ℕ, zero, suc, ◌+◌, Option, none, some, List, [], ◌∷◌, ◌++◌, take, drop, get_elem?, ltb, ◌==◌,
  ◌||◌, if◌then◌else◌, Bytes, Result, ok, err, guard, u64_max,
}
use np2ptp.Prelude.Runs.{Run, pure, lift, ◌>>=◌, ◌>>◌}
use np2ptp.Prelude
use np2ptp.Core.Hash.{Hash}
use np2ptp.Core.Manifest.{
  ChunkRef, FileEntry, Manifest, ManifestError, bad_chunk, size_mismatch, invalid,
  range_out_of_bounds, sizes_exceed_stream, verify_chunk,
}
use np2ptp.Core.Manifest.Validate.{validate}

abbrev pub check_size : ℕ → ℕ → Result ManifestError (Unit {0})
check_size got expected = guard (got == expected) (size_mismatch got expected)

-- One file's slice of the stream, and the offset behind it.
unfoldable pub cut_file : Bytes → ℕ → FileEntry → Result ManifestError ((Bytes × Bytes) × ℕ)
cut_file content offset entry =
    let finish = offset + entry.size in
    if ltb u64_max finish || ltb (Prelude.length content) finish
    then err (invalid sizes_exceed_stream)
    else ok ((entry.path, take entry.size (drop offset content)), finish)

unfoldable pub cut_files : Bytes → ℕ → List FileEntry → Result ManifestError (List (Bytes × Bytes))
cut_files content offset [] = ok []
cut_files content offset (entry ∷ entries) =
    Prelude.◌>>=◌ (cut_file content offset entry) λ (piece, finish).
      Prelude.◌>>=◌ (cut_files content finish entries) λ pieces. ok (piece ∷ pieces)

unfoldable pub split_stream : Manifest → Bytes → Result ManifestError (List (Bytes × Bytes))
split_stream m content =
    Prelude.◌>>◌ (check_size (Prelude.length content) m.total_size)
      (Prelude.◌>>◌ (validate m) (cut_files content 0 m.files))

module _ (blake3 : Bytes → Bytes) {S : Type 0} (fetch : Hash → S → Option Bytes × S) where
  -- What was fetched for chunk `index`, if it is there and verifies.
  unfoldable pub accept : Manifest → ℕ → Option Bytes → Result ManifestError Bytes
  accept m index none = err (bad_chunk index)
  accept m index (some bytes) =
      if verify_chunk blake3 m index bytes then ok bytes else err (bad_chunk index)

  unfoldable pub pull : Manifest → ℕ → ChunkRef → Run S ManifestError Bytes
  unfolding accept
  pull m index c s = let (bytes, s') = fetch c.hash s in (accept m index bytes, s')

  -- The loop of `reconstruct` over the chunks from `index` on.
  unfoldable pub gather : Manifest → ℕ → Bytes → List ChunkRef → Run S ManifestError Bytes
  gather m index out [] = pure out
  gather m index out (c ∷ cs) = do bytes ← pull m index c; gather m (suc index) (out ++ bytes) cs

  unfoldable pub reconstruct : Manifest → Run S ManifestError Bytes
  reconstruct m = do
    lift (validate m)
    out ← gather m 0 [] m.chunks
    lift (check_size (Prelude.length out) m.total_size)
    pure out

  -- `self.chunks.get(ci)` with its error
  abbrev pub chunk_at : Manifest → ℕ → Result ManifestError ChunkRef
  chunk_at m ci = Prelude.ok_or (get_elem? m.chunks ci) (invalid range_out_of_bounds)

  -- The inner loop of `reconstruct_files`: `count` more chunks from `ci` on.
  unfoldable pub gather_range : Manifest → ℕ → ℕ → Bytes → Run S ManifestError Bytes
  gather_range m ci zero out = pure out
  gather_range m ci (suc count) out = do
    c ← lift (chunk_at m ci)
    bytes ← pull m ci c
    gather_range m (suc ci) count (out ++ bytes)

  unfoldable pub gather_files :
      Manifest → List FileEntry → Run S ManifestError (List (Bytes × Bytes))
  gather_files m [] = pure []
  gather_files m (entry ∷ entries) = do
    bytes ← gather_range m entry.chunk_start entry.chunk_count []
    lift (check_size (Prelude.length bytes) entry.size)
    files ← gather_files m entries
    pure ((entry.path, bytes) ∷ files)

  unfoldable pub reconstruct_files : Manifest → Run S ManifestError (List (Bytes × Bytes))
  reconstruct_files m = do lift (validate m); gather_files m m.files
