-- ===== src/Core/Hash/Soundness.antt =====
-- What an accepted inclusion proof shows, whoever made it.
use mathlib.Core.List.{foldl}
use np2ptp.Prelude.{
  ◌≡◌, ◌≢◌, ℕ, refl, sym, ap, ◌∙◌, ◌⊎◌, inl, inr, true, some, List, [], ◌∷◌, ◌++◌, append_assoc,
  append-nil, Bytes, length, get_elem?, get_elem?-append_length, eq_bytes_iff, Bool-cases, All,
}
use np2ptp.Core.Hash.{
  Hash, IsHash, ProofStep, MerkleProof, leaf_hash, node_hash, merkle_root, absorb, merkle_verify,
  leaf_tag, node_tag, empty_tag,
}
use np2ptp.Core.Hash.Tree.{Tree, node, leaves, hash_tree, merkle_root-hash_tree}
use np2ptp.Core.Hash.Binding.{Collision, node_hash-inverse, leaf_hash-inverse, same_or_collide}

-- `u` stands somewhere inside `t`: what is left of it and right of it, by the leaves.
record Inside (u t : Tree) : Type 0 where
  before : List Hash
  after : List Hash
  around : leaves t ≡ before ++ (leaves u ++ after)

Inside-left : (l r t : Tree) → Inside (node l r) t → Inside l t
Inside-left l r t i = record {
  before = i.before;
  after = leaves r ++ i.after;
  around = i.around ∙ ap (λ rest. i.before ++ rest) (append_assoc (leaves l) (leaves r) i.after);
}

Inside-right : (l r t : Tree) → Inside (node l r) t → Inside r t
Inside-right l r t i = record {
  before = i.before ++ leaves l;
  after = i.after;
  around =
      i.around
      ∙ ap (λ rest. i.before ++ rest) (append_assoc (leaves l) (leaves r) i.after)
      ∙ sym (append_assoc i.before (leaves l) (leaves r ++ i.after));
}

-- The sibling digests that a proof carries are 32 bytes long, as their type in the source says.
abbrev pub IsProof : MerkleProof → Type 0
IsProof p = All (λ (s : ProofStep). IsHash s.hash) p.steps

module _ (blake3 : Bytes → Bytes) (digest : (content : Bytes) → IsHash (blake3 content)) where
  IsHash-absorb : (acc : Hash) (step : ProofStep) → IsHash (absorb blake3 acc step)
  unfolding absorb node_hash
  IsHash-absorb acc step = elim (Bool-cases step.sibling_on_left) [
    | inl e ↦ rw e (digest _)
    | inr e ↦ rw e (digest _)
  ]

  -- One step down: where the digest after a step is a subtree's, so is the digest before it.
  absorb-inverse :
      (acc : Hash) (step : ProofStep) (u t : Tree)
      → IsHash acc
      → IsHash step.hash
      → Inside u t
      → absorb blake3 acc step ≡ hash_tree blake3 u
      → ((v : Tree) × Inside v t × (acc ≡ hash_tree blake3 v)) ⊎ Collision blake3
  absorb-inverse acc step u t h k i e = elim (Bool-cases step.sibling_on_left) [
    | inl on_left ↦
        elim (node_hash-inverse blake3 digest step.hash acc u k
          (unfold absorb in (rw on_left at e))) [
            | inl (a, b, p, q, s) ↦ inl (b, Inside-right a b t (rw p at i), s)
            | inr collision ↦ inr collision
          ]
    | inr on_right ↦
        elim (node_hash-inverse blake3 digest acc step.hash u h
          (unfold absorb in (rw on_right at e))) [
            | inl (a, b, p, q, s) ↦ inl (a, Inside-left a b t (rw p at i), q)
            | inr collision ↦ inr collision
          ]
  ]

  steps-Inside :
      (steps : List ProofStep) (acc : Hash) (t : Tree)
      → IsHash acc
      → All (λ (s : ProofStep). IsHash s.hash) steps
      → foldl (absorb blake3) acc steps ≡ hash_tree blake3 t
      → ((v : Tree) × Inside v t × (acc ≡ hash_tree blake3 v)) ⊎ Collision blake3
  steps-Inside [] acc t h k e =
      inl (t, record { before = []; after = []; around = sym (append-nil (leaves t)) }, e)
  steps-Inside (step ∷ steps) acc t h (k, ks) e =
      elim (steps-Inside steps (absorb blake3 acc step) t (IsHash-absorb acc step) ks e) [
        | inl (u, i, p) ↦ absorb-inverse acc step u t h k i p
        | inr collision ↦ inr collision
      ]

  -- What BLAKE3 was applied to is not the input of the empty list's digest.
  abbrev IsTagged : Hash → Type 0
  IsTagged h = (input : Bytes) × (h ≡ blake3 input) × (input ≢ empty_tag ∷ [])

  IsTagged-foldl :
      (steps : List ProofStep) (acc : Hash)
      → IsTagged acc
      → IsTagged (foldl (absorb blake3) acc steps)
  IsTagged-foldl [] acc h = h
  IsTagged-foldl (step ∷ steps) acc h = IsTagged-foldl steps (absorb blake3 acc step) (
      unfold absorb node_hash in
      (elim (Bool-cases step.sibling_on_left) [
        | inl e ↦ (node_tag ∷ (step.hash ++ acc), rw e refl, λ q. cc q)
        | inr e ↦ (node_tag ∷ (acc ++ step.hash), rw e refl, λ q. cc q)
      ]))

  -- A proof that verifies for `c` against the root of `xs`, wherever the proof is from, shows that
  -- `c` is one of `xs`, or two inputs of BLAKE3 with one digest are found.
  pub merkle_verify_sound :
      (xs : List Hash) (c : Hash) (p : MerkleProof)
      → IsProof p
      → merkle_verify blake3 c p (merkle_root blake3 xs) ≡ true
      → ((index : ℕ) × (get_elem? xs index ≡ some c)) ⊎ Collision blake3
  merkle_verify_sound [] c p k e =
      let reach : foldl (absorb blake3) (leaf_hash blake3 c) p.steps ≡ blake3 (empty_tag ∷ []) =
        unfold merkle_verify merkle_root in (eq_bytes_iff _ _).0 e in
      let (input, made, other) =
        IsTagged-foldl p.steps (leaf_hash blake3 c)
          (leaf_tag ∷ c, unfold leaf_hash in refl, λ q. cc q) in
      elim (same_or_collide blake3 digest input (empty_tag ∷ []) (sym made ∙ reach)) [
        | inl same ↦ absurd (other same)
        | inr collision ↦ inr collision
      ]
  merkle_verify_sound (x ∷ xs) c p k e =
      let (t, root, kept) = merkle_root-hash_tree blake3 x xs in
      let reach : foldl (absorb blake3) (leaf_hash blake3 c) p.steps ≡ merkle_root blake3 (x ∷ xs) =
        unfold merkle_verify in (eq_bytes_iff _ _).0 e in
      elim (steps-Inside p.steps (leaf_hash blake3 c) t (unfold leaf_hash in digest _) k
        (reach ∙ root)) [
          | inl (v, i, q) ↦ elim (leaf_hash-inverse blake3 digest c v q) [
            | inl at_leaf ↦ inl (
              length i.before,
              rw (sym kept ∙ i.around ∙ ap (λ u. i.before ++ (leaves u ++ i.after)) at_leaf)
                  (get_elem?-append_length i.before c i.after),
            )
            | inr collision ↦ inr collision
          ]
          | inr collision ↦ inr collision
        ]
