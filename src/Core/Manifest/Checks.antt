-- ===== src/Core/Manifest/Checks.antt =====
-- The two ways to check a chunk against a manifest.
use np2ptp.Prelude.{
  ℕ, ◌≡◌, ap, ◌&&◌, some, get_elem?, get_elem?-map, Option-cases, inl, inr, Bytes, eq_bytes,
}
use np2ptp.Core.Hash.Inclusion.{merkle_verify-merkle_proof}
use np2ptp.Core.Manifest.{
  ChunkRef, Manifest, hashes, root_is_consistent, proof, chunk_hash_ok, verify_chunk, check_proof,
}

module _ (blake3 : Bytes → Bytes) where
  check_proof-root :
      (m : Manifest) (index : ℕ) (c : ChunkRef)
      → get_elem? m.chunks index ≡ some c
      → check_proof blake3 c.hash m.root (proof blake3 m index) ≡ root_is_consistent blake3 m
  unfolding proof root_is_consistent
  check_proof-root m index c e =
      let (p, made, _, same) =
        merkle_verify-merkle_proof blake3 (hashes m.chunks) index c.hash m.root
          (get_elem?-map m.chunks (λ (d : ChunkRef). d.hash) index c e) in
      rw made same

  -- For every index and all bytes, in range or not, `verify_chunk`, which rebuilds the Merkle tree,
  -- gives the answer of the cheap `chunk_hash_ok` together with one `root_is_consistent`.
  pub verify_chunk_cheap :
      (m : Manifest) (index : ℕ) (bytes : Bytes)
      → verify_chunk blake3 m index bytes
        ≡ (chunk_hash_ok blake3 m index bytes && root_is_consistent blake3 m)
  unfolding verify_chunk chunk_hash_ok
  verify_chunk_cheap m index bytes = elim (Option-cases (get_elem? m.chunks index)) [
    | inl e ↦ rw (e, verify_chunk, chunk_hash_ok)
    | inr (c, e) ↦
        rw (e, verify_chunk, chunk_hash_ok)
          (ap (λ b. eq_bytes (blake3 bytes) c.hash && b) (check_proof-root m index c e))
  ]
