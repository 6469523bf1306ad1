-- ===== src/Core/Chunk/Cover.antt =====
-- The spans that `chunk` makes cover the data.
use np2ptp.Prelude.{
  ℕ, ◌+◌, ◌-◌, ◌≤◌, ◌<◌, ◌≡◌, ◌%◌, ◌^◌, refl, ap, sym, ◌∙◌, List, [], ◌∷◌, ◌++◌, map, take, drop,
  drop-add, drop-of_length, take-append-drop, All, arith, Bytes,
}
use np2ptp.Prelude
use np2ptp.Core.Chunk.{
  Cdc, Cut, ChunkSpan, Tiles, slice, span_of, chunk, chunk_with, min_chunk, avg_chunk, max_chunk,
}

abbrev pub sum_spans : List ChunkSpan → ℕ
sum_spans [] = 0
sum_spans (s ∷ ss) = s.length + sum_spans ss

-- The bytes that each span stands for.
abbrev pub span_bytes : Bytes → List ChunkSpan → List Bytes
span_bytes content = map (λ (s : ChunkSpan). slice content s.offset s.length)

abbrev pub joined_spans : Bytes → List ChunkSpan → Bytes
joined_spans content [] = []
joined_spans content (s ∷ ss) = slice content s.offset s.length ++ joined_spans content ss

abbrev IsSmall : Cut → Type 0
IsSmall c = (0 < c.length) × (c.length ≤ max_chunk)

module _ (blake3 : Bytes → Bytes) where
  -- Each span has the digest of the bytes that it stands for.
  abbrev pub IsHashed : Bytes → ChunkSpan → Type 0
  IsHashed content s = s.hash ≡ blake3 (slice content s.offset s.length)

  sum_spans-map :
      (content : Bytes) (offset finish : ℕ) (cs : List Cut)
      → Tiles offset cs finish
      → All IsSmall cs
      → offset + sum_spans (map (span_of blake3 content) cs) ≡ finish
  sum_spans-map content offset finish [] t k = omega arith
  sum_spans-map content offset finish (c ∷ cs) (at, t) ((some, small), k) =
      omega (arith, sum_spans-map content (offset + c.length) finish cs t k)

  length-map-span :
      (content : Bytes) (offset finish : ℕ) (cs : List Cut)
      → Tiles offset cs finish
      → All IsSmall cs
      → offset + Prelude.length (map (span_of blake3 content) cs) ≤ finish
  length-map-span content offset finish [] t k = omega arith
  length-map-span content offset finish (c ∷ cs) (at, t) ((some, small), k) =
      omega (arith, length-map-span content (offset + c.length) finish cs t k)

  joined_spans-map :
      (content : Bytes) (offset : ℕ) (cs : List Cut)
      → Tiles offset cs (Prelude.length content)
      → All IsSmall cs
      → joined_spans content (map (span_of blake3 content) cs) ≡ drop offset content
  joined_spans-map content offset [] t k = sym (drop-of_length offset content (omega arith))
  joined_spans-map content offset (c ∷ cs) (at, t) ((some, small), k) =
      let low : c.length % 2 ^ 32 ≡ c.length = omega arith in
      rw (low, at, joined_spans-map content (offset + c.length) cs t k, drop-add offset c.length)
        (take-append-drop c.length (drop offset content))

  IsHashed-map :
      (content : Bytes) (cs : List Cut)
      → All IsSmall cs
      → All (IsHashed content) (map (span_of blake3 content) cs)
  IsHashed-map content [] k = tt
  IsHashed-map content (c ∷ cs) ((some, small), k) =
      let low : c.length % 2 ^ 32 ≡ c.length = omega arith in
      (rw low refl, IsHashed-map content cs k)

  -- What `chunk` makes of any data: spans whose lengths add up to the data's, not more of them than
  -- there are bytes, whose bytes joined are the data, each with its own digest.
  pub record Covers (content : Bytes) (spans : List ChunkSpan) : Type 0 where
    pub total : sum_spans spans ≡ Prelude.length content
    pub few : Prelude.length spans ≤ Prelude.length content
    pub whole : joined_spans content spans ≡ content
    pub hashed : All (IsHashed content) spans

  pub chunk-Covers : (cdc : Cdc) (content : Bytes) → Covers content (chunk blake3 cdc content)
  unfolding chunk chunk_with
  chunk-Covers cdc [] = record { total = refl; few = omega arith; whole = refl; hashed = tt }
  chunk-Covers cdc (b ∷ bs) =
      let content = b ∷ bs in
      let cs = cdc.cuts content min_chunk avg_chunk max_chunk in
      let t = cdc.tiles content min_chunk avg_chunk max_chunk (omega arith) (λ e. cc e) in
      let k = cdc.bounded content min_chunk avg_chunk max_chunk (omega arith) (λ e. cc e) in
      record {
        total = omega (arith, sum_spans-map content 0 (Prelude.length content) cs t k);
        few = omega (arith, length-map-span content 0 (Prelude.length content) cs t k);
        whole = joined_spans-map content 0 cs t k;
        hashed = IsHashed-map content cs k;
      }
