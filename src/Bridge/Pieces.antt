-- ===== src/Bridge/Pieces.antt =====
-- crates/np2ptp-bridge/src/lib.rs: the data of a torrent and `verify_pieces`. SHA-1 is third-party
-- code, the parameter `sha1`.
pub mod Streaming
pub mod Reference
pub mod Agreement
mod Tests
use np2ptp.Prelude.{
  ℕ, zero, suc, ◌+◌, ◌-◌, ◌/◌, List, [], ◌∷◌, ◌++◌, take, drop, length, ◌==◌, ◌&&◌, Bool, true,
  false, if◌then◌else◌, Bytes, eq_bytes,
}
use np2ptp.Prelude

-- The errors of the network and the store are those components'.
pub data BridgeError (NetError StoreError : Type 0) : Type 0 where
  net : NetError → BridgeError NetError StoreError
  store : StoreError → BridgeError NetError StoreError
  piece_verification_failed : BridgeError NetError StoreError
  source : Bytes → BridgeError NetError StoreError

pub record TorrentFile : Type 0 where
  pub path : Bytes
  pub length : ℕ

pub record TorrentMeta : Type 0 where
  pub infohash : Bytes
  pub name : Bytes
  pub files : List TorrentFile
  pub piece_length : ℕ
  pub piece_hashes : List Bytes

pub record TorrentDownload : Type 0 where
  pub meta : TorrentMeta
  pub files : List (Bytes × Bytes)

-- `a.div_ceil(n)`
unfoldable pub div_ceil : ℕ → ℕ → ℕ
div_ceil a n = (a + (n - 1)) / n

-- `data.chunks(n)`, in as many rounds as there are bytes
unfoldable pub chunks_from : ℕ → ℕ → Bytes → List Bytes
chunks_from zero n content = []
chunks_from (suc fuel) n [] = []
chunks_from (suc fuel) n (b ∷ bs) = take n (b ∷ bs) ∷ chunks_from fuel n (drop n (b ∷ bs))

-- The files' bytes, joined in order.
unfoldable pub concatenate : List (Bytes × Bytes) → Bytes
concatenate [] = []
concatenate ((path, bytes) ∷ files) = bytes ++ concatenate files

module _ (sha1 : Bytes → Bytes) where
  -- The loop over `chunks.zip(piece_hashes)`.
  unfoldable pub digests_match : List Bytes → List Bytes → Bool
  digests_match (chunk ∷ chunks) (expected ∷ hashes) =
      if eq_bytes (sha1 chunk) expected then digests_match chunks hashes else false
  digests_match _ _ = true

  unfoldable pub verify_pieces : List (Bytes × Bytes) → ℕ → List Bytes → Bool
  verify_pieces files zero piece_hashes = false
  verify_pieces files (suc n) piece_hashes =
      let content = concatenate files in
      if div_ceil (length content) (suc n) == length piece_hashes
      then digests_match (chunks_from (length content) (suc n) content) piece_hashes
      else false
