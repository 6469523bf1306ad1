-- ===== src/Core/Manifest/Split.antt =====
-- `split_stream` gives each file its own bytes.
use np2ptp.Prelude.{
  ℕ, ◌+◌, ◌≤◌, ◌<◌, ◌≡◌, refl, ap, sym, ◌∙◌, List, [], ◌∷◌, ◌++◌, take, drop, take-add, drop-add,
  take-of_length, length-take, length-drop, min, arith, u64_max, Bytes, ok, err,
}
use np2ptp.Prelude
use np2ptp.Core.Manifest.{FileEntry, Manifest}
use np2ptp.Core.Manifest.Validate.{validate}
use np2ptp.Core.Manifest.Validate.Sums.{sum_sizes}
use np2ptp.Core.Manifest.Validate.WellFormed.{validate-IsWellFormed}
use np2ptp.Core.Manifest.Reconstruct.{cut_file, cut_files, split_stream}

-- One pair of path and bytes for each entry, with the entry's path and as many bytes as its size.
abbrev pub Fills : List FileEntry → List (Bytes × Bytes) → Type 0
Fills [] [] = Unit
Fills (e ∷ es) ((path, bytes) ∷ ps) =
    (path ≡ e.path) × (Prelude.length bytes ≡ e.size) × Fills es ps
Fills _ _ = ⊥

abbrev pub contents : List (Bytes × Bytes) → Bytes
contents [] = []
contents ((path, bytes) ∷ ps) = bytes ++ contents ps

cut_file_accepts :
    (content : Bytes) (offset : ℕ) (e : FileEntry)
    → offset + e.size ≤ Prelude.length content
    → Prelude.length content ≤ u64_max
    → cut_file content offset e ≡ ok ((e.path, take e.size (drop offset content)), offset + e.size)
unfolding cut_file
cut_file_accepts content offset e h k = ground arith

cut_files_accepts :
    (content : Bytes) (offset : ℕ) (entries : List FileEntry)
    → offset + sum_sizes entries ≤ Prelude.length content
    → Prelude.length content ≤ u64_max
    → (pieces : List (Bytes × Bytes)) × (cut_files content offset entries ≡ ok pieces)
      × Fills entries pieces
      × (contents pieces ≡ take (sum_sizes entries) (drop offset content))
unfolding cut_files
cut_files_accepts content offset [] h k = ([], refl, tt, refl)
cut_files_accepts content offset (e ∷ es) h k =
    let (pieces, cut, fills, kept) =
      cut_files_accepts content (offset + e.size) es (omega arith) k in
    (
      (e.path, take e.size (drop offset content)) ∷ pieces,
      rw (cut_file_accepts content offset e (omega arith) k, cut),
      (
        refl,
        omega (arith, length-take e.size (drop offset content), length-drop offset content),
        fills,
      ),
      rw (kept, take-add e.size, drop-add offset e.size),
    )

-- For a manifest that `validate` accepts, a stream of just `total_size` bytes, fewer than
-- `u64::MAX`, splits without an error: into one pair for each file entry, with its path and its
-- size, and the pairs' bytes joined are the stream.
pub split_stream_complete :
    (m : Manifest) (content : Bytes)
    → validate m ≡ ok tt
    → Prelude.length content ≡ m.total_size
    → Prelude.length content < u64_max
    → (pieces : List (Bytes × Bytes)) × (split_stream m content ≡ ok pieces)
      × Fills m.files pieces
      × (contents pieces ≡ content)
unfolding split_stream
split_stream_complete m content valid sized short =
    let total = (validate-IsWellFormed m valid).files_total in
    let whole : sum_sizes m.files ≡ Prelude.length content = omega arith in
    let (pieces, cut, fills, kept) =
      cut_files_accepts content 0 m.files (omega arith) (omega arith) in
    (
      pieces,
      rw (valid, cut) (ground arith),
      fills,
      kept ∙ take-of_length (sum_sizes m.files) content (omega arith),
    )
