-- ===== src/Core/Hash/Tree.antt =====
-- The binary tree that the levels of hash.rs spell out, and `merkle_root` as the hash of that tree.
use np2ptp.Prelude.{
  ℕ, zero, suc, ◌≤◌, ◌<◌, ◌≡◌, refl, sym, ap, ◌∙◌, List, [], ◌∷◌, ◌++◌, map, append_assoc,
  append-nil, arith, Bytes, length, length-map, Bool-cases, inl, inr, ltb, ltb→lt,
}
use np2ptp.Core.Hash.{
  Hash, top, leaf_hash, node_hash, pair_up, levels_from, build_levels, merkle_root,
}
use np2ptp.Core.Hash.Levels.{length-pair_up, top-levels_from-suc}

pub data Tree : Type 0 where
  leaf : Hash → Tree
  node : Tree → Tree → Tree

-- The chunk hashes at the leaves, from left to right.
abbrev pub leaves : Tree → List Hash
leaves (leaf chunk) = chunk ∷ []
leaves (node left right) = leaves left ++ leaves right

abbrev pub forest_leaves : List Tree → List Hash
forest_leaves [] = []
forest_leaves (t ∷ ts) = leaves t ++ forest_leaves ts

pair_trees : List Tree → List Tree
pair_trees [] = []
pair_trees (left ∷ []) = left ∷ []
pair_trees (left ∷ right ∷ rest) = node left right ∷ pair_trees rest

forest_leaves-pair_trees : (ts : List Tree) → forest_leaves (pair_trees ts) ≡ forest_leaves ts
unfolding pair_trees
forest_leaves-pair_trees [] = refl
forest_leaves-pair_trees (l ∷ []) = refl
forest_leaves-pair_trees (l ∷ r ∷ rest) = rw (forest_leaves-pair_trees rest, append_assoc)

forest_leaves-leaf : (hs : List Hash) → forest_leaves (map leaf hs) ≡ hs
forest_leaves-leaf [] = refl
forest_leaves-leaf (h ∷ hs) = ap (λ t. h ∷ t) (forest_leaves-leaf hs)

module _ (blake3 : Bytes → Bytes) where
  unfoldable pub hash_tree : Tree → Hash
  hash_tree (leaf chunk) = leaf_hash blake3 chunk
  hash_tree (node left right) = node_hash blake3 (hash_tree left) (hash_tree right)

  map-pair_trees :
      (ts : List Tree) → map hash_tree (pair_trees ts) ≡ pair_up blake3 (map hash_tree ts)
  unfolding pair_trees pair_up hash_tree
  map-pair_trees [] = refl
  map-pair_trees (l ∷ []) = refl
  map-pair_trees (l ∷ r ∷ rest) =
      ap (λ t. node_hash blake3 (hash_tree l) (hash_tree r) ∷ t) (map-pair_trees rest)

  map-leaf : (hs : List Hash) → map hash_tree (map leaf hs) ≡ map (leaf_hash blake3) hs
  unfolding hash_tree
  map-leaf [] = refl
  map-leaf (h ∷ hs) = ap (λ t. leaf_hash blake3 h ∷ t) (map-leaf hs)

  only_tree : (ts : List Tree) → 0 < length ts → length ts ≤ 1 → (t : Tree) × (ts ≡ t ∷ [])
  only_tree [] h k = absurd (omega arith)
  only_tree (t ∷ []) h k = (t, refl)
  only_tree (t ∷ u ∷ ts) h k = absurd (omega arith)

  -- The top of the stack over the hashes of a forest is the hash of one tree with the same leaves.
  top-hash_tree :
      (fuel : ℕ) (ts : List Tree)
      → 0 < length ts
      → length ts ≤ suc fuel
      → (t : Tree) × (top (levels_from blake3 fuel (map hash_tree ts)) ≡ hash_tree t)
        × (leaves t ≡ forest_leaves ts)
  top-hash_tree zero ts h k =
      let (t, e) = only_tree ts h k in
      (t, rw e (unfold levels_from top in refl), rw e (sym (append-nil (leaves t))))
  top-hash_tree (suc fuel) ts h k = elim (Bool-cases (ltb 1 (length ts))) [
    | inl more ↦
        let size = length-map ts hash_tree in
        let paired = length-pair_up blake3 (map hash_tree ts) in
        let same = length-map (pair_trees ts) hash_tree in
        let sized = ap length (map-pair_trees ts) in
        let (t, e, l) =
          top-hash_tree fuel (pair_trees ts)
            (omega (arith, size, paired, same, sized, ltb→lt 1 (length ts)))
            (omega (arith, size, paired, same, sized)) in
        (
          t,
          top-levels_from-suc blake3 fuel (map hash_tree ts)
                (omega (arith, size, ltb→lt 1 (length ts)))
              ∙ (rw (map-pair_trees ts) at e),
          l ∙ forest_leaves-pair_trees ts,
        )
    | inr done ↦
        let (t, e) = only_tree ts h (ground arith) in
        (t, rw e (unfold levels_from top in refl), rw e (sym (append-nil (leaves t))))
  ]

  -- The root of a list that is not empty is the hash of a tree whose leaves are the list.
  pub merkle_root-hash_tree :
      (c : Hash) (cs : List Hash)
      → (t : Tree) × (merkle_root blake3 (c ∷ cs) ≡ hash_tree t) × (leaves t ≡ c ∷ cs)
  unfolding merkle_root build_levels
  merkle_root-hash_tree c cs =
      let (t, e, l) =
        top-hash_tree (length (map hash_tree (map leaf (c ∷ cs)))) (map leaf (c ∷ cs)) (omega arith)
          (omega (arith, length-map cs leaf, length-map (map leaf cs) hash_tree)) in
      let root = ap (λ hs. top (levels_from blake3 (length hs) hs)) (sym (map-leaf (c ∷ cs))) in
      (t, root ∙ e, l ∙ forest_leaves-leaf (c ∷ cs))
