-- ===== src/Fec/RoundTrip.antt =====
-- Whatever else arrives between them, the packets of an encoder are decoded to its data.
use np2ptp.Prelude.{
  ℕ, ◌+◌, ◌^◌, ◌<◌, ◌≤◌, ◌≡◌, refl, ap, some, List, [], ◌∷◌, length, leb, ◌==◌, true, false, not,
  ◌||◌, Bool-cases, Option-cases, inl, inr, if◌then◌else◌, All, Bytes, arith,
}
use np2ptp.Fec.{
  Raptorq, cut_to, feed, fits, first_byte, default_symbol_size, Encoded, encode,
  encode_with_symbol_size, decode_symbols, max_blocks_of, decode,
}

-- The packets that pass the check.
unfoldable pub fitting : ℕ → ℕ → List Bytes → List Bytes
fitting size blocks [] = []
fitting size blocks (p ∷ ps) =
    let rest = fitting size blocks ps in if fits size blocks p then p ∷ rest else rest

module _ {D : Type 0} (raptorq : Raptorq D) where
  decode_symbols-feed :
      (size blocks n : ℕ) (d : D) (ps : List Bytes)
      → decode_symbols raptorq size blocks n d ps
        ≡ cut_to n (feed raptorq.decode_packet d (fitting size blocks ps))
  unfolding decode_symbols feed fitting
  decode_symbols-feed size blocks n d [] = refl
  decode_symbols-feed size blocks n d (p ∷ ps) =
      elim (Bool-cases (not (length p == 4 + size) || leb blocks (first_byte p))) [
        | inl e ↦ rw e (decode_symbols-feed size blocks n d ps)
        | inr e ↦ elim (Option-cases (raptorq.decode_packet d p).0) [
          | inl k ↦ rw (e, k) (decode_symbols-feed size blocks n (raptorq.decode_packet d p).1 ps)
          | inr (out, k) ↦ rw (e, k)
        ]
      ]

  -- The packets that pass the check of `decode` for the encoding.
  abbrev pub accepted : Encoded → List Bytes → List Bytes
  accepted e received =
      fitting (raptorq.symbol_size e.config) (max_blocks_of raptorq e.config e.source_len) received

  -- Content that the codec takes at the default symbol size, encoded with fewer than 65,536 repair
  -- packets, is decoded from any packets among which those that pass the check are the encoder's, in
  -- its order; what else a peer sends does not reach the codec and changes nothing.
  pub decode-encode_default :
      (content : Bytes) (repair : ℕ) (received : List Bytes)
      → length content ≤ raptorq.max_content
      → repair < 2 ^ 16
      → accepted (encode raptorq content repair) received ≡ (encode raptorq content repair).symbols
      → decode raptorq
          (encode raptorq content repair).config
          (encode raptorq content repair).source_len
          received
        ≡ some content
  unfolding decode encode encode_with_symbol_size
  decode-encode_default [] repair received few p h = refl
  decode-encode_default (b ∷ bs) repair received few p h =
      let content : Bytes = b ∷ bs in
      let config = raptorq.get_config content default_symbol_size in
      let (padded, found, same) = raptorq.rebuilds content repair (omega arith) few p in
      let some_size : (raptorq.symbol_size config == 0) ≡ false =
        ap (λ k. k == 0) (raptorq.symbol_size-get_config content (omega arith) few) in
      let some_bytes : (length content == 0) ≡ false = ground arith in
      rw (
        some_bytes,
        some_size,
        decode_symbols-feed (raptorq.symbol_size config)
            (max_blocks_of raptorq config (length content)) (length content)
            (raptorq.new_decoder config) received,
        h,
        found,
        same,
      )

  accepted-All :
      (e : Encoded) (ps : List Bytes)
      → All
          (λ p.
            fits (raptorq.symbol_size e.config) (max_blocks_of raptorq e.config e.source_len) p
            ≡ true)
          ps
      → accepted e ps ≡ ps
  unfolding fitting
  accepted-All e [] h = refl
  accepted-All e (p ∷ ps) (good, h) = rw good (ap (λ l. p ∷ l) (accepted-All e ps h))

  -- The encoder's own packets pass the check.
  pub accepted-symbols :
      (content : Bytes) (repair : ℕ)
      → length content ≤ raptorq.max_content
      → repair < 2 ^ 16
      → accepted (encode raptorq content repair) (encode raptorq content repair).symbols
        ≡ (encode raptorq content repair).symbols
  unfolding encode encode_with_symbol_size fitting
  accepted-symbols [] repair few p = refl
  accepted-symbols (b ∷ bs) repair few p = accepted-All (encode raptorq (b ∷ bs) repair) _ (
      rw (raptorq.symbol_size-get_config (b ∷ bs) (omega arith) few)
        (raptorq.packets_fit (b ∷ bs) repair (omega arith) few p))
