-- ===== src/Core/Manifest.antt =====
-- crates/np2ptp-core/src/manifest.rs: the manifest, its errors, and the checks of its chunks. A
-- `u64` or a `usize` is a number below 2 ^ 64; a sum of two that is not checked wraps, as in a
-- release build.
pub mod Build
pub mod Checks
pub mod Validate
pub mod Reconstruct
pub mod Split
pub mod Sound
mod Tests
pub mod Container
use np2ptp.Prelude.{
  ℕ, ◌+◌, ◌%◌, ◌^◌, Bool, true, false, ◌&&◌, Option, none, some, List, [], ◌∷◌, map, get_elem?,
  Bytes, eq_bytes, ◌==◌,
}
use np2ptp.Prelude
use np2ptp.Core.Hash.{Hash, MerkleProof, hash_of, merkle_root, merkle_proof, merkle_verify}

pub record ChunkRef : Type 0 where
  pub hash : Hash
  pub offset : ℕ
  pub length : ℕ

-- A path is the bytes of its UTF-8 text.
pub record FileEntry : Type 0 where
  pub path : Bytes
  pub size : ℕ
  pub chunk_start : ℕ
  pub chunk_count : ℕ

pub record Manifest : Type 0 where
  pub root : Hash
  pub total_size : ℕ
  pub chunks : List ChunkRef
  pub files : List FileEntry
  pub name : Option Bytes

-- The messages of `ManifestError::Invalid`.
pub data Flaw : Type 0 where
  ranges_must_tile non_empty_file_owns_zero_chunks range_overflows range_out_of_bounds : Flaw
  sizes_exceed_stream : Flaw

-- `Codec` and `Hex` are without the error values of the third-party crates.
pub data ManifestError : Type 0 where
  codec bad_uri hex bad_magic : ManifestError
  bad_chunk : ℕ → ManifestError
  size_mismatch : ℕ → ℕ → ManifestError
  unsupported_version : ℕ → ManifestError
  invalid : Flaw → ManifestError

abbrev pub u64 : ℕ → ℕ
u64 n = n % 2 ^ 64

-- `self.chunks.iter().map(|c| c.hash).collect()`
abbrev pub hashes : List ChunkRef → List Hash
hashes = map (λ (c : ChunkRef). c.hash)

unfoldable pub is_single_file : Manifest → Bool
is_single_file m = Prelude.length m.files == 1

module _ (blake3 : Bytes → Bytes) where
  unfoldable pub root_is_consistent : Manifest → Bool
  root_is_consistent m = eq_bytes (merkle_root blake3 (hashes m.chunks)) m.root

  unfoldable pub proof : Manifest → ℕ → Option MerkleProof
  proof m index = merkle_proof blake3 (hashes m.chunks) index

  unfoldable pub chunk_hash_ok : Manifest → ℕ → Bytes → Bool
  chunk_hash_ok m index bytes = elim (get_elem? m.chunks index) [
    | none ↦ false
    | some c ↦ eq_bytes (hash_of blake3 bytes) c.hash
  ]

  -- The last step of `verify_chunk`: the proof for the chunk, against the manifest's root.
  abbrev pub check_proof : Hash → Hash → Option MerkleProof → Bool
  check_proof chunk root none = false
  check_proof chunk root (some p) = merkle_verify blake3 chunk p root

  unfoldable pub verify_chunk : Manifest → ℕ → Bytes → Bool
  unfolding proof
  verify_chunk m index bytes = elim (get_elem? m.chunks index) [
    | none ↦ false
    | some c ↦ eq_bytes (hash_of blake3 bytes) c.hash && check_proof c.hash m.root (proof m index)
  ]
