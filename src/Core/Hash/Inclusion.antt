-- ===== src/Core/Hash/Inclusion.antt =====
-- Inclusion proofs: what `merkle_proof` produces, `merkle_verify` accepts.
use Prim.Native.Nat.{bit_xor}
use mathlib.Core.List.{foldl}
use np2ptp.Prelude.{
  ℕ, zero, suc, ◌/◌, ◌≤◌, ◌≡◌, refl, sym, ap, ◌∙◌, Option, none, some, List, [], ◌∷◌, map, arith,
  Bytes, length, get_elem?, get_elem?-lt, get_elem?-map, Bool-cases, Option-cases, inl, inr, ltb,
  ltb→lt, if◌then◌else◌, eq_bytes,
}
use np2ptp.Core.Hash.{
  Hash, MerkleProof, top, leaf_hash, node_hash, pair_up, levels_from, build_levels, merkle_root,
  climb, merkle_proof, absorb, merkle_verify,
}
use np2ptp.Core.Hash.Sibling.{bit_xor-one_suc-suc}
use np2ptp.Core.Hash.Levels.{levels_from_cons, length-pair_up, top-levels_from-suc}

module _ (blake3 : Bytes → Bytes) where
  -- The hash one level up from `h` at `idx`, given the sibling if there is one.
  parent : ℕ → Hash → Option Hash → Hash
  parent idx h none = h
  parent idx h (some s) =
      if ltb (bit_xor idx 1) idx then node_hash blake3 s h else node_hash blake3 h s

  parent-suc-suc : (i : ℕ) (h : Hash) (o : Option Hash) → parent (suc (suc i)) h o ≡ parent i h o
  unfolding parent
  parent-suc-suc i h none = refl
  parent-suc-suc i h (some s) = rw bit_xor-one_suc-suc (ground arith)

  get_elem?-pair_up :
      (cur : List Hash) (i : ℕ) (h : Hash)
      → get_elem? cur i ≡ some h
      → get_elem? (pair_up blake3 cur) (i / 2) ≡ some (parent i h (get_elem? cur (bit_xor i 1)))
  unfolding pair_up parent
  get_elem?-pair_up [] i h e = cc
  get_elem?-pair_up (l ∷ []) zero h e = e
  get_elem?-pair_up (l ∷ []) (suc i) h e = cc
  get_elem?-pair_up (l ∷ r ∷ rest) zero h e = cc
  get_elem?-pair_up (l ∷ r ∷ rest) (suc zero) h e = cc
  get_elem?-pair_up (l ∷ r ∷ rest) (suc (suc i)) h e =
      let half : suc (suc i) / 2 ≡ suc (i / 2) = omega arith in
      rw (half, bit_xor-one_suc-suc i)
        (get_elem?-pair_up rest i h e
          ∙ ap some (sym (parent-suc-suc i h (get_elem? rest (bit_xor i 1)))))

  foldl-climb :
      (idx : ℕ) (h : Hash) (level up : List Hash) (rest : List (List Hash))
      → foldl (absorb blake3) h (climb blake3 idx (level ∷ up ∷ rest))
        ≡ foldl
            (absorb blake3)
            (parent idx h (get_elem? level (bit_xor idx 1)))
            (climb blake3 (idx / 2) (up ∷ rest))
  unfolding climb parent absorb
  foldl-climb idx h level up rest = elim (Option-cases (get_elem? level (bit_xor idx 1))) [
    | inl e ↦ rw (e, climb)
    | inr (s, e) ↦ rw (e, climb)
  ]

  only_hash :
      (cur : List Hash) (i : ℕ) (h : Hash)
      → length cur ≤ 1
      → get_elem? cur i ≡ some h
      → cur ≡ h ∷ []
  only_hash [] i h k e = cc
  only_hash (x ∷ []) zero h k e = cc
  only_hash (x ∷ []) (suc i) h k e = cc
  only_hash (x ∷ y ∷ rest) i h k e = absurd (omega arith)

  -- Climbing from any hash of a level reaches the top of the stack above it.
  climb-top :
      (fuel : ℕ) (cur : List Hash) (i : ℕ) (h : Hash)
      → length cur ≤ suc fuel
      → get_elem? cur i ≡ some h
      → foldl (absorb blake3) h (climb blake3 i (levels_from blake3 fuel cur))
        ≡ top (levels_from blake3 fuel cur)
  climb-top zero cur i h k e = rw (only_hash cur i h k e) (unfold levels_from climb top in refl)
  climb-top (suc fuel) cur i h k e = elim (Bool-cases (ltb 1 (length cur))) [
    | inl more ↦
        let (rest, stack) = levels_from_cons blake3 fuel (pair_up blake3 cur) in
        let above =
          climb-top fuel (pair_up blake3 cur) (i / 2) (parent i h (get_elem? cur (bit_xor i 1)))
            (omega (arith, length-pair_up blake3 cur)) (get_elem?-pair_up cur i h e) in
        let this : levels_from blake3 (suc fuel) cur ≡ cur ∷ pair_up blake3 cur ∷ rest =
          unfold levels_from in ground (arith, stack) in
        rw (top-levels_from-suc blake3 fuel cur (ltb→lt _ _ more), this)
          (foldl-climb i h cur (pair_up blake3 cur) rest ∙ (rw stack at above) ∙ ap top (sym stack))
    | inr done ↦ rw (only_hash cur i h (ground arith) e) (unfold levels_from climb top in refl)
  ]

  -- For an index within the list `merkle_proof` gives a proof that holds the index. With the chunk
  -- hash that stands there, `merkle_verify` accepts that proof against a root exactly if the root
  -- is the Merkle root of the list.
  pub merkle_verify-merkle_proof :
      (chunk_hashes : List Hash) (index : ℕ) (c root : Hash)
      → get_elem? chunk_hashes index ≡ some c
      → (p : MerkleProof) × (merkle_proof blake3 chunk_hashes index ≡ some p)
        × (p.index ≡ index)
        × (merkle_verify blake3 c p root ≡ eq_bytes (merkle_root blake3 chunk_hashes) root)
  unfolding merkle_proof merkle_verify build_levels
  merkle_verify-merkle_proof [] index c root e = cc
  merkle_verify-merkle_proof (x ∷ xs) index c root e =
      let lt = get_elem?-lt (x ∷ xs) index c e in
      let levels = build_levels blake3 (x ∷ xs) in
      let reach =
        climb-top (length (map (leaf_hash blake3) (x ∷ xs))) (map (leaf_hash blake3) (x ∷ xs)) index
          (leaf_hash blake3 c) (omega arith)
          (get_elem?-map (x ∷ xs) (leaf_hash blake3) index c e) in
      (
        record { index = index; steps = climb blake3 index levels },
        ground arith,
        refl,
        unfold merkle_root in rw reach,
      )
