-- ===== src/Core/Manifest/Validate/Sums.antt =====
-- Sums of chunk lengths and file sizes, with and without saturation.
use mathlib.Core.List.{foldl}
use np2ptp.Prelude.{ℕ, ◌+◌, ◌≤◌, ◌≡◌, List, [], ◌∷◌, ◌++◌, min, arith, u64_max, saturating_add}
use np2ptp.Core.Manifest.{ChunkRef, FileEntry}
use np2ptp.Core.Manifest.Validate.{add_length, chunk_bytes}

abbrev pub sum_lengths : List ChunkRef → ℕ
sum_lengths [] = 0
sum_lengths (c ∷ cs) = c.length + sum_lengths cs

abbrev pub sum_sizes : List FileEntry → ℕ
sum_sizes [] = 0
sum_sizes (e ∷ es) = e.size + sum_sizes es

pub sum_lengths-append :
    (cs ds : List ChunkRef) → sum_lengths (cs ++ ds) ≡ sum_lengths cs + sum_lengths ds
sum_lengths-append [] ds = omega arith
sum_lengths-append (c ∷ cs) ds = omega (arith, sum_lengths-append cs ds)

foldl-add_length :
    (cs : List ChunkRef) (acc : ℕ)
    → acc ≤ u64_max
    → foldl add_length acc cs ≡ min (acc + sum_lengths cs) u64_max
foldl-add_length [] acc h = omega arith
foldl-add_length (c ∷ cs) acc h =
    omega (arith, foldl-add_length cs (saturating_add acc c.length) (omega arith))

-- The saturating fold is the sum, cut off at the largest `u64`.
pub chunk_bytes_lem : (cs : List ChunkRef) → chunk_bytes cs ≡ min (sum_lengths cs) u64_max
unfolding chunk_bytes
chunk_bytes_lem cs = omega (arith, foldl-add_length cs 0 (omega arith))
