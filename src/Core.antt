-- ===== src/Core.antt =====
-- crates/np2ptp-core: hashing and Merkle trees, manifests, path checks.
pub mod Hash
pub mod Toy
pub mod Chunk
pub mod Manifest
pub mod Path
