-- ===== src/Core/Hash.antt =====
-- crates/np2ptp-core/src/hash.rs: chunk hashes and the domain-separated Merkle tree over them.
-- BLAKE3 is third-party code: it is the parameter `blake3` of everything below.
pub mod Sibling
pub mod Levels
pub mod Inclusion
pub mod Tree
pub mod Binding
pub mod Soundness
mod Tests
use Prim.Native.Nat.{bit_xor}
use mathlib.Core.List.{foldl}
use np2ptp.Prelude.{
  ℕ, zero, suc, ◌/◌, Bool, Option, none, some, List, [], ◌∷◌, ◌++◌, map, ltb, leb, if◌then◌else◌,
  length, get_elem?, Bytes, eq_bytes, ◌≡◌,
}

-- `struct Hash([u8; 32])`: the bytes of a digest. That there are 32 of them is `IsHash`.
abbrev pub Hash : Type 0
Hash = Bytes

abbrev pub leaf_tag : ℕ
leaf_tag = 0

abbrev pub node_tag : ℕ
node_tag = 1

abbrev pub empty_tag : ℕ
empty_tag = 2

pub record ProofStep : Type 0 where
  pub sibling_on_left : Bool
  pub hash : Hash

pub record MerkleProof : Type 0 where
  pub index : ℕ
  pub steps : List ProofStep

-- `levels.last().unwrap()[0]`. The last two clauses stand for a panic; a tree that `build_levels`
-- made of at least one hash never reaches them (Levels.build_levels-IsPyramid).
unfoldable pub top : List (List Hash) → Hash
top ((h ∷ hs) ∷ []) = h
top (level ∷ up ∷ rest) = top (up ∷ rest)
top ([] ∷ []) = []
top [] = []

module _ (blake3 : Bytes → Bytes) where
  -- `Hash::of`
  abbrev pub hash_of : Bytes → Hash
  hash_of content = blake3 content

  unfoldable pub leaf_hash : Hash → Hash
  leaf_hash chunk = blake3 (leaf_tag ∷ chunk)

  unfoldable pub node_hash : Hash → Hash → Hash
  node_hash left right = blake3 (node_tag ∷ (left ++ right))

  -- The inner loop of `build_levels`: one level from the one below, the odd node carried up.
  unfoldable pub pair_up : List Hash → List Hash
  pair_up [] = []
  pair_up (left ∷ []) = left ∷ []
  pair_up (left ∷ right ∷ rest) = node_hash left right ∷ pair_up rest

  -- The outer loop, `while levels.last().len() > 1`, on fuel.
  unfoldable pub levels_from : ℕ → List Hash → List (List Hash)
  levels_from zero cur = cur ∷ []
  levels_from (suc fuel) cur =
      let rest = levels_from fuel (pair_up cur) in
      if ltb 1 (length cur) then cur ∷ rest else cur ∷ []

  -- One round for each leaf is more than enough (Levels.build_levels-IsPyramid).
  unfoldable pub build_levels : List Hash → List (List Hash)
  unfolding levels_from
  build_levels chunk_hashes =
      let leaves = map leaf_hash chunk_hashes in levels_from (length leaves) leaves

  unfoldable pub merkle_root : List Hash → Hash
  merkle_root [] = blake3 (empty_tag ∷ [])
  merkle_root (h ∷ hs) = top (build_levels (h ∷ hs))

  -- The loop of `merkle_proof` over `levels[..levels.len() - 1]`: the top level is left out.
  unfoldable pub climb : ℕ → List (List Hash) → List ProofStep
  climb idx [] = []
  climb idx (level ∷ []) = []
  climb idx (level ∷ up ∷ rest) =
      let sib = bit_xor idx 1 in
      let more = climb (idx / 2) (up ∷ rest) in
      elim (get_elem? level sib) [
        | some h ↦ record { sibling_on_left = ltb sib idx; hash = h } ∷ more
        | none ↦ more
      ]

  unfoldable pub merkle_proof : List Hash → ℕ → Option MerkleProof
  merkle_proof chunk_hashes index =
      if leb (length chunk_hashes) index
      then none
      else some (record { index = index; steps = climb index (build_levels chunk_hashes) })

  -- One round of the loop of `merkle_verify`.
  unfoldable pub absorb : Hash → ProofStep → Hash
  absorb acc step =
      if step.sibling_on_left then node_hash step.hash acc else node_hash acc step.hash

  unfoldable pub merkle_verify : Hash → MerkleProof → Hash → Bool
  merkle_verify chunk_hash proof root =
      eq_bytes (foldl absorb (leaf_hash chunk_hash) proof.steps) root

-- The length of every digest.
abbrev pub IsHash : Hash → Type 0
IsHash h = length h ≡ 32
