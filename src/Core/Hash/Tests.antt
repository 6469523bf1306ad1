-- ===== src/Core/Hash/Tests.antt =====
-- hash.rs on small lists: runs, and the theorems at concrete inputs.
use np2ptp.Prelude.{
  ◌≡◌, refl, ◌⊎◌, ℕ, true, false, none, some, List, [], ◌∷◌, arith, get_elem?, eq_bytes,
}
use np2ptp.Core.Hash.{
  Hash, MerkleProof, build_levels, merkle_root, merkle_proof, merkle_verify, levels_from, pair_up,
  leaf_hash, node_hash, top, climb, absorb,
}
use np2ptp.Core.Hash.Levels.{IsPyramid, build_levels-IsPyramid}
use np2ptp.Core.Hash.Inclusion.{merkle_verify-merkle_proof}
use np2ptp.Core.Hash.Binding.{Collision, merkle_root-binding}
use np2ptp.Core.Hash.Soundness.{merkle_verify_sound}
use np2ptp.Core.Toy.{toy_blake3, toy_digest}

abbrev chunk_list : List Hash
chunk_list =
    toy_blake3 (1 ∷ [])
    ∷ toy_blake3 (2 ∷ [])
    ∷ toy_blake3 (3 ∷ [])
    ∷ toy_blake3 (4 ∷ [])
    ∷ toy_blake3 (5 ∷ [])
    ∷ []

abbrev fifth : Hash
fifth = toy_blake3 (5 ∷ [])

-- The fifth of five leaves is carried up twice, so its proof has one step.
abbrev fifth_proof : MerkleProof
fifth_proof = record {
  index = 4;
  steps = record { sibling_on_left = true; hash = merkle_root toy_blake3 four } ∷ [];
}
  where
    four : List Hash
    four =
        toy_blake3 (1 ∷ []) ∷ toy_blake3 (2 ∷ []) ∷ toy_blake3 (3 ∷ []) ∷ toy_blake3 (4 ∷ []) ∷ []

fifth_proof_made : merkle_proof toy_blake3 chunk_list 4 ≡ some fifth_proof
unfolding merkle_proof climb merkle_root build_levels levels_from pair_up leaf_hash node_hash top
fifth_proof_made = refl

out_of_range : merkle_proof toy_blake3 chunk_list 5 ≡ none
unfolding merkle_proof
out_of_range = refl

forged_leaf :
    merkle_verify toy_blake3 (toy_blake3 (9 ∷ [])) fifth_proof (merkle_root toy_blake3 chunk_list)
    ≡ false
unfolding merkle_verify absorb merkle_root build_levels levels_from pair_up leaf_hash node_hash top
    eq_bytes
forged_leaf = refl

build_levels-IsPyramid_test : IsPyramid toy_blake3 (build_levels toy_blake3 chunk_list)
build_levels-IsPyramid_test = build_levels-IsPyramid toy_blake3 chunk_list (omega arith)

merkle_verify-merkle_proof_example :
    (p : MerkleProof) × (merkle_proof toy_blake3 chunk_list 4 ≡ some p)
    × (p.index ≡ 4)
    × (merkle_verify toy_blake3 fifth p (merkle_root toy_blake3 chunk_list)
        ≡ eq_bytes (merkle_root toy_blake3 chunk_list) (merkle_root toy_blake3 chunk_list))
merkle_verify-merkle_proof_example =
    merkle_verify-merkle_proof toy_blake3 chunk_list 4 fifth (merkle_root toy_blake3 chunk_list)
      refl

merkle_root-binding_example : (chunk_list ≡ chunk_list) ⊎ Collision toy_blake3
merkle_root-binding_example = merkle_root-binding toy_blake3 toy_digest chunk_list chunk_list refl

merkle_verify_sound_example :
    ((index : ℕ) × (get_elem? chunk_list index ≡ some fifth)) ⊎ Collision toy_blake3
unfolding merkle_verify absorb merkle_root build_levels levels_from pair_up leaf_hash node_hash top
    eq_bytes
merkle_verify_sound_example =
    merkle_verify_sound toy_blake3 toy_digest chunk_list fifth fifth_proof (refl, tt) refl
