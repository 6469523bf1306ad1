-- ===== src/Rep/Receipt.antt =====
-- crates/np2ptp-rep/src/receipt.rs: receipts and the bytes that are signed. Ed25519 is third-party
-- code: the interface `Ed25519`, with what its documentation promises of an honest signature.
pub mod Canonical
pub mod Tests
use np2ptp.Prelude.{
  ℕ, zero, suc, ◌/◌, ◌%◌, ◌^◌, ◌<◌, ◌≡◌, List, [], ◌∷◌, ◌++◌, length, ◌==◌, ◌&&◌, Bool, true, false,
  if◌then◌else◌, Bytes, codes, eq_bytes, All,
}

-- `ed25519_dalek`: keys and signatures as bytes. A key of 32 bytes that is not a point of the curve
-- does not parse.
pub record Ed25519 : Type 0 where
  pub parses : Bytes → Bool
  pub public_key : Bytes → Bytes
  pub sign : Bytes → Bytes → Bytes
  pub verify_strict : Bytes → Bytes → Bytes → Bool
  pub length-public_key : (seed : Bytes) → length (public_key seed) ≡ 32
  pub length-sign : (seed message : Bytes) → length (sign seed message) ≡ 64
  pub parses-public_key : (seed : Bytes) → parses (public_key seed) ≡ true
  pub honest :
      (seed message : Bytes) → verify_strict (public_key seed) message (sign seed message) ≡ true

pub record Receipt : Type 0 where
  pub server : Bytes
  pub client : Bytes
  pub bytes : ℕ
  pub epoch : ℕ
  pub sig : Bytes

abbrev pub receipt_tag : Bytes
receipt_tag = codes "np2ptp-receipt-v1"

-- The `n` lowest bytes of a number, the lowest first.
unfoldable pub le_bytes : ℕ → ℕ → Bytes
le_bytes zero x = []
le_bytes (suc n) x = (x % 256) ∷ le_bytes n (x / 256)

unfoldable pub canonical : Bytes → Bytes → ℕ → ℕ → Bytes
canonical server client bytes epoch =
    receipt_tag ++ (server ++ (client ++ (le_bytes 8 bytes ++ le_bytes 8 epoch)))

module _ (ed25519 : Ed25519) where
  -- `PeerId::verify`
  unfoldable pub peer_verify : Bytes → Bytes → Bytes → Bool
  peer_verify peer message sig =
      if ed25519.parses peer
      then (if length sig == 64 then ed25519.verify_strict peer message sig else false)
      else false

  -- `issue`: the client's identity is its seed.
  unfoldable pub issue : Bytes → Bytes → ℕ → ℕ → Receipt
  issue client server bytes epoch =
      let client_id = ed25519.public_key client in
      let message = canonical server client_id bytes epoch in
      record {
        server = server;
        client = client_id;
        bytes = bytes;
        epoch = epoch;
        sig = ed25519.sign client message;
      }

  unfoldable pub verify : Receipt → Bool
  verify r = peer_verify r.client (canonical r.server r.client r.bytes r.epoch) r.sig
