-- ===== src/Core/Hash/Binding.antt =====
-- What a Merkle root commits to. BLAKE3 is any function into 32 bytes; where two inputs of one
-- digest would be needed, the theorems of this file hand them over as a `Collision`.
use np2ptp.Prelude.{
  ◌≡◌, ◌≢◌, refl, sym, ap, ◌∙◌, ◌⊎◌, inl, inr, List, [], ◌∷◌, ◌++◌, Bytes, take, drop,
  take-append_length, drop-append_length, Bool-cases, eq_bytes, eq_bytes_iff,
}
use np2ptp.Core.Hash.{Hash, IsHash, leaf_hash, node_hash, merkle_root, empty_tag}
use np2ptp.Core.Hash.Tree.{Tree, leaf, node, leaves, hash_tree, merkle_root-hash_tree}

-- Two inputs that differ and have one digest.
pub record Collision (blake3 : Bytes → Bytes) : Type 0 where
  pub first : Bytes
  pub second : Bytes
  pub differ : first ≢ second
  pub collide : blake3 first ≡ blake3 second

module _ (blake3 : Bytes → Bytes) (digest : (content : Bytes) → IsHash (blake3 content)) where
  pub same_or_collide : (x y : Bytes) → blake3 x ≡ blake3 y → (x ≡ y) ⊎ Collision blake3
  same_or_collide x y e = elim (Bool-cases (eq_bytes x y)) [
    | inl same ↦ inl ((eq_bytes_iff x y).0 same)
    | inr other ↦ inr (record {
      first = x;
      second = y;
      differ = λ p. cc (other, (eq_bytes_iff x y).1 p);
      collide = e;
    })
  ]

  append_halves :
      (l r l' r' : Hash) → IsHash l → IsHash l' → l ++ r ≡ l' ++ r' → (l ≡ l') × (r ≡ r')
  append_halves l r l' r' h h' e = (
    sym (take-append_length 32 l r h) ∙ ap (take 32) e ∙ take-append_length 32 l' r' h',
    sym (drop-append_length 32 l r h) ∙ ap (drop 32) e ∙ drop-append_length 32 l' r' h',
  )

  pub IsHash-hash_tree : (t : Tree) → IsHash (hash_tree blake3 t)
  unfolding hash_tree leaf_hash node_hash
  IsHash-hash_tree (leaf c) = digest _
  IsHash-hash_tree (node l r) = digest _

  -- An inner node's digest is a tree's only where the tree is a node over the same two digests.
  pub node_hash-inverse :
      (l r : Hash) (t : Tree)
      → IsHash l
      → node_hash blake3 l r ≡ hash_tree blake3 t
      → ((a b : Tree) × (t ≡ node a b) × (l ≡ hash_tree blake3 a) × (r ≡ hash_tree blake3 b))
        ⊎ Collision blake3
  unfolding hash_tree leaf_hash node_hash
  node_hash-inverse l r (leaf c) h e = elim (same_or_collide _ _ e) [
    | inl p ↦ cc p
    | inr collision ↦ inr collision
  ]
  node_hash-inverse l r (node a b) h e = elim (same_or_collide _ _ e) [
    | inl p ↦
        let (q, s) = append_halves l r _ _ h (IsHash-hash_tree a) (cc p) in inl (a, b, refl, q, s)
    | inr collision ↦ inr collision
  ]

  pub leaf_hash-inverse :
      (c : Hash) (t : Tree)
      → leaf_hash blake3 c ≡ hash_tree blake3 t
      → (t ≡ leaf c) ⊎ Collision blake3
  unfolding hash_tree leaf_hash node_hash
  leaf_hash-inverse c (leaf d) e = elim (same_or_collide _ _ e) [
    | inl p ↦ inl (cc p)
    | inr collision ↦ inr collision
  ]
  leaf_hash-inverse c (node a b) e = elim (same_or_collide _ _ e) [
    | inl p ↦ cc p
    | inr collision ↦ inr collision
  ]

  -- A tree is determined by its digest.
  hash_tree-inverse :
      (s t : Tree) → hash_tree blake3 s ≡ hash_tree blake3 t → (s ≡ t) ⊎ Collision blake3
  hash_tree-inverse (leaf c) t e = elim (leaf_hash-inverse c t (unfold hash_tree in e)) [
    | inl p ↦ inl (sym p)
    | inr collision ↦ inr collision
  ]
  hash_tree-inverse (node l r) t e =
      let here : node_hash blake3 (hash_tree blake3 l) (hash_tree blake3 r) ≡ hash_tree blake3 t =
        unfold hash_tree in e in
      elim (node_hash-inverse _ _ t (IsHash-hash_tree l) here) [
        | inl (a, b, p, q, s) ↦ elim (hash_tree-inverse l a q) [
          | inl left ↦ elim (hash_tree-inverse r b s) [
            | inl right ↦ inl (cc (p, left, right))
            | inr collision ↦ inr collision
          ]
          | inr collision ↦ inr collision
        ]
        | inr collision ↦ inr collision
      ]

  -- The empty list's digest is no tree's.
  empty-ne-hash_tree : (t : Tree) → blake3 (empty_tag ∷ []) ≡ hash_tree blake3 t → Collision blake3
  unfolding hash_tree leaf_hash node_hash
  empty-ne-hash_tree (leaf c) e = elim (same_or_collide _ _ e) [
    | inl p ↦ cc p
    | inr collision ↦ collision
  ]
  empty-ne-hash_tree (node a b) e = elim (same_or_collide _ _ e) [
    | inl p ↦ cc p
    | inr collision ↦ collision
  ]

  -- Lists of chunk hashes with one Merkle root are one list, whatever their lengths, or two inputs
  -- of BLAKE3 with one digest are found.
  pub merkle_root-binding :
      (xs ys : List Hash)
      → merkle_root blake3 xs ≡ merkle_root blake3 ys
      → (xs ≡ ys) ⊎ Collision blake3
  merkle_root-binding [] [] e = inl refl
  merkle_root-binding [] (y ∷ ys) e =
      let (t, root, _) = merkle_root-hash_tree blake3 y ys in
      inr (empty-ne-hash_tree t (unfold merkle_root in e ∙ root))
  merkle_root-binding (x ∷ xs) [] e =
      let (t, root, _) = merkle_root-hash_tree blake3 x xs in
      inr (empty-ne-hash_tree t (unfold merkle_root in sym e ∙ root))
  merkle_root-binding (x ∷ xs) (y ∷ ys) e =
      let (s, root, kept) = merkle_root-hash_tree blake3 x xs in
      let (t, root', kept') = merkle_root-hash_tree blake3 y ys in
      elim (hash_tree-inverse s t (sym root ∙ e ∙ root')) [
        | inl same ↦ inl (sym kept ∙ ap leaves same ∙ kept')
        | inr collision ↦ inr collision
      ]
