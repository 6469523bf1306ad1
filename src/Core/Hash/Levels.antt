-- ===== src/Core/Hash/Levels.antt =====
-- The levels that `build_levels` stacks: their sizes, and the single hash on top.
use np2ptp.Prelude.{
  ℕ, zero, suc, ◌+◌, ◌/◌, ◌≤◌, ◌<◌, ◌≡◌, refl, List, [], ◌∷◌, map, arith, Bytes, length, length-map,
  Bool-cases, inl, inr, ltb, ltb→lt,
}
use np2ptp.Core.Hash.{Hash, top, pair_up, levels_from, build_levels, leaf_hash}

module _ (blake3 : Bytes → Bytes) where
  pub length-pair_up : (cur : List Hash) → length (pair_up blake3 cur) ≡ (length cur + 1) / 2
  unfolding pair_up
  length-pair_up [] = omega arith
  length-pair_up (l ∷ []) = omega arith
  length-pair_up (l ∷ r ∷ rest) = omega (arith, length-pair_up rest)

  -- Whatever the fuel, the stack of levels is not empty, and its first level is `cur`.
  pub levels_from_cons :
      (fuel : ℕ) (cur : List Hash)
      → (rest : List (List Hash)) × (levels_from blake3 fuel cur ≡ cur ∷ rest)
  unfolding levels_from
  levels_from_cons zero cur = ([], refl)
  levels_from_cons (suc fuel) cur = elim (Bool-cases (ltb 1 (length cur))) [
    | inl more ↦ (levels_from blake3 fuel (pair_up blake3 cur), ground arith)
    | inr done ↦ ([], ground arith)
  ]

  -- A round that is made: the rest of the stack is over the paired level.
  pub top-levels_from-suc :
      (fuel : ℕ) (cur : List Hash)
      → 1 < length cur
      → top (levels_from blake3 (suc fuel) cur) ≡ top (levels_from blake3 fuel (pair_up blake3 cur))
  unfolding top levels_from
  top-levels_from-suc fuel cur h =
      let (rest, e) = levels_from_cons fuel (pair_up blake3 cur) in ground (arith, e)

  -- Each level has half the hashes of the one below, rounded up, and the last has one.
  abbrev pub IsPyramid : List (List Hash) → Type 0
  IsPyramid [] = ⊥
  IsPyramid (level ∷ []) = length level ≡ 1
  IsPyramid (level ∷ up ∷ rest) =
      (length up ≡ (length level + 1) / 2) × (1 < length level) × IsPyramid (up ∷ rest)

  levels_from-IsPyramid :
      (fuel : ℕ) (cur : List Hash)
      → 0 < length cur
      → length cur ≤ suc fuel
      → IsPyramid (levels_from blake3 fuel cur)
  unfolding levels_from
  levels_from-IsPyramid zero cur h k = omega arith
  levels_from-IsPyramid (suc fuel) cur h k = elim (Bool-cases (ltb 1 (length cur))) [
    | inl more ↦
        let (rest, e) = levels_from_cons fuel (pair_up blake3 cur) in
        let below : IsPyramid (pair_up blake3 cur ∷ rest) = rw e at (
          levels_from-IsPyramid fuel (pair_up blake3 cur)
            (omega (arith, length-pair_up cur, ltb→lt 1 (length cur)))
            (omega (arith, length-pair_up cur, ltb→lt 1 (length cur)))) in
        rw (more, e) (length-pair_up cur, ltb→lt _ _ more, below)
    | inr done ↦ rw done (ground arith)
  ]

  -- The tree over at least one hash is a pyramid: the outer loop ends with a single root.
  pub build_levels-IsPyramid :
      (chunk_hashes : List Hash)
      → 0 < length chunk_hashes
      → IsPyramid (build_levels blake3 chunk_hashes)
  unfolding build_levels
  build_levels-IsPyramid chunk_hashes h =
      let e = length-map chunk_hashes (leaf_hash blake3) in
      levels_from-IsPyramid _ (map (leaf_hash blake3) chunk_hashes) (omega (arith, e)) (omega arith)
