-- ===== src/Core/Chunk.antt =====
-- crates/np2ptp-core/src/chunk.rs: content-defined chunks. FastCDC is third-party code: it is the
-- interface `Cdc`, with what its documentation promises of the cuts that it makes.
pub mod Cover
use np2ptp.Prelude.{
  ℕ, zero, suc, ◌+◌, ◌*◌, ◌%◌, ◌^◌, ◌≤◌, ◌<◌, ◌≡◌, ◌≢◌, List, [], ◌∷◌, map, take, drop, Bytes, All,
}
use np2ptp.Prelude
use np2ptp.Core.Hash.{Hash, hash_of}

abbrev pub min_chunk : ℕ
min_chunk = 16 * 1024

abbrev pub avg_chunk : ℕ
avg_chunk = 64 * 1024

abbrev pub max_chunk : ℕ
max_chunk = 256 * 1024

-- `fastcdc::v2020::Chunk`, as far as the program reads it.
pub record Cut : Type 0 where
  pub offset : ℕ
  pub length : ℕ

-- The cuts lie end to end from `offset` to `finish`.
abbrev pub Tiles : ℕ → List Cut → ℕ → Type 0
Tiles offset [] finish = offset ≡ finish
Tiles offset (c ∷ cs) finish = (c.offset ≡ offset) × Tiles (offset + c.length) cs finish

-- `FastCDC::new(data, min, avg, max)`: cuts that cover the data in order, none empty and none longer
-- than `max`.
pub record Cdc : Type 0 where
  pub cuts : Bytes → ℕ → ℕ → ℕ → List Cut
  pub tiles :
      (content : Bytes) (min avg max : ℕ)
      → 0 < max
      → content ≢ []
      → Tiles 0 (cuts content min avg max) (Prelude.length content)
  pub bounded :
      (content : Bytes) (min avg max : ℕ)
      → 0 < max
      → content ≢ []
      → All (λ (c : Cut). (0 < c.length) × (c.length ≤ max)) (cuts content min avg max)

pub record ChunkSpan : Type 0 where
  pub offset : ℕ
  pub length : ℕ
  pub hash : Hash

-- `&data[offset..offset + length]`, within range by `Cdc.tiles`
abbrev pub slice : Bytes → ℕ → ℕ → Bytes
slice content offset length = take length (drop offset content)

module _ (blake3 : Bytes → Bytes) where
  -- The closure of `chunk_with`; `as u32` keeps the low 32 bits.
  abbrev pub span_of : Bytes → Cut → ChunkSpan
  span_of content c = record {
    offset = c.offset;
    length = c.length % 2 ^ 32;
    hash = hash_of blake3 (slice content c.offset c.length);
  }

module _ (blake3 : Bytes → Bytes) (cdc : Cdc) where
  unfoldable pub chunk_with : Bytes → ℕ → ℕ → ℕ → List ChunkSpan
  chunk_with [] min avg max = []
  chunk_with (b ∷ bs) min avg max = map (span_of blake3 (b ∷ bs)) (cdc.cuts (b ∷ bs) min avg max)

  unfoldable pub chunk : Bytes → List ChunkSpan
  chunk content = chunk_with content min_chunk avg_chunk max_chunk
