-- ===== src/Fec.antt =====
-- crates/np2ptp-fec/src/lib.rs: the wrapper of the RaptorQ codec. The codec is third-party code: the
-- interface `Raptorq`, with what its documentation promises of the packets that its encoder makes.
pub mod RoundTrip
pub mod Toy
mod Tests
use np2ptp.Prelude.{
  ℕ, zero, suc, ◌+◌, ◌-◌, ◌/◌, ◌^◌, ◌%◌, ◌<◌, ◌≤◌, ◌≡◌, ◌≢◌, Option, none, some, List, [], ◌∷◌,
  take, length, leb, ltb, ◌==◌, Bool, true, false, not, ◌&&◌, ◌||◌, if◌then◌else◌, All, Bytes,
}
use np2ptp.Bridge.Pieces.{div_ceil}

-- The data that is there, or what comes later.
abbrev pub or_else : Option Bytes → Option Bytes → Option Bytes
or_else (some out) rest = some out
or_else none rest = rest

-- `data.truncate(n)`
abbrev pub cut_to : ℕ → Option Bytes → Option Bytes
cut_to n none = none
cut_to n (some out) = some (take n out)

-- The packets go into the decoder one after the other until it returns the data.
unfoldable pub feed {ℓ} :
    {D : Type ℓ} → (D → Bytes → Option Bytes × D) → D → List Bytes → Option Bytes
feed put d [] = none
feed put d (p ∷ ps) = let (answer, d') = put d p in let rest = feed put d' ps in or_else answer rest

abbrev pub first_byte : Bytes → ℕ
first_byte [] = 0
first_byte (b ∷ bs) = b

-- One whole symbol behind the four bytes of its id, whose first byte numbers a block.
abbrev pub fits : ℕ → ℕ → Bytes → Bool
fits symbol_size max_blocks p =
    not (not (length p == 4 + symbol_size) || leb max_blocks (first_byte p))

abbrev pub two_parts : ℕ × ℕ × ℕ × ℕ → ℕ
two_parts (il, is, zl, zs) = zl + zs

abbrev pub default_symbol_size : ℕ
default_symbol_size = 1200

-- A transmission config is its twelve bytes; `D` are the states of a decoder. The codec takes the
-- symbol size that it is given as a bound, so its laws are stated at the size that the program uses,
-- for content of one byte up to what the codec takes at that size, and for some thousands of repair
-- packets at most. Of a config for no bytes nothing is assumed; that the codec may panic there is not
-- modelled.
pub record Raptorq (D : Type 0) : Type 0 where
  pub with_defaults : ℕ → ℕ → Bytes
  pub symbol_size : Bytes → ℕ
  pub source_blocks : Bytes → ℕ
  pub partition : ℕ → ℕ → ℕ × ℕ × ℕ × ℕ
  pub get_config : Bytes → ℕ → Bytes
  pub get_encoded_packets : Bytes → ℕ → ℕ → List Bytes
  pub new_decoder : Bytes → D
  pub decode_packet : D → Bytes → Option Bytes × D
  pub max_content : ℕ
  pub max_content_large : 2 ^ 30 ≤ max_content
  pub symbol_size-get_config :
      (content : Bytes)
      → 0 < length content
      → length content ≤ max_content
      → symbol_size (get_config content default_symbol_size) ≡ default_symbol_size
  pub packets_fit :
      (content : Bytes) (repair : ℕ)
      → 0 < length content
      → length content ≤ max_content
      → repair < 2 ^ 16
      → All
          (λ p.
            fits default_symbol_size
              (two_parts (
                partition
                  (div_ceil (length content) default_symbol_size % 2 ^ 32)
                  (source_blocks (get_config content default_symbol_size))))
              p
            ≡ true)
          (get_encoded_packets content default_symbol_size repair)
  pub rebuilds :
      (content : Bytes) (repair : ℕ)
      → 0 < length content
      → length content ≤ max_content
      → repair < 2 ^ 16
      → (padded : Bytes) × (feed decode_packet
            (new_decoder (get_config content default_symbol_size))
            (get_encoded_packets content default_symbol_size repair)
          ≡ some padded)
        × (take (length content) padded ≡ content)

pub record Encoded : Type 0 where
  pub config : Bytes
  pub source_len : ℕ
  pub symbols : List Bytes

unfoldable pub zeros : ℕ → Bytes
zeros zero = []
zeros (suc n) = 0 ∷ zeros n

module _ {D : Type 0} (raptorq : Raptorq D) where
  unfoldable pub config_for : ℕ → ℕ → Bytes
  config_for source_len symbol_size = raptorq.with_defaults source_len symbol_size

  unfoldable pub encode_with_symbol_size : Bytes → ℕ → ℕ → Encoded
  encode_with_symbol_size [] symbol_size repair_symbols = record {
    config = zeros 12;
    source_len = 0;
    symbols = [];
  }
  encode_with_symbol_size (b ∷ bs) symbol_size repair_symbols = record {
    config = raptorq.get_config (b ∷ bs) symbol_size;
    source_len = length (b ∷ bs);
    symbols = raptorq.get_encoded_packets (b ∷ bs) symbol_size repair_symbols;
  }

  unfoldable pub encode : Bytes → ℕ → Encoded
  encode content repair_symbols = encode_with_symbol_size content default_symbol_size repair_symbols

  -- The loop of `decode`.
  unfoldable pub decode_symbols : ℕ → ℕ → ℕ → D → List Bytes → Option Bytes
  decode_symbols symbol_size max_blocks source_len d [] = none
  decode_symbols symbol_size max_blocks source_len d (p ∷ ps) =
      let skipped = decode_symbols symbol_size max_blocks source_len d ps in
      let (answer, d') = raptorq.decode_packet d p in
      let rest = decode_symbols symbol_size max_blocks source_len d' ps in
      let fed = or_else (cut_to source_len answer) rest in
      if not (length p == 4 + symbol_size) || leb max_blocks (first_byte p) then skipped else fed

  abbrev pub max_blocks_of : Bytes → ℕ → ℕ
  max_blocks_of config source_len = two_parts (
      raptorq.partition (div_ceil source_len (raptorq.symbol_size config) % 2 ^ 32)
        (raptorq.source_blocks config))

  unfoldable pub decode : Bytes → ℕ → List Bytes → Option Bytes
  decode config source_len symbols =
      if source_len == 0
      then some []
      else if raptorq.symbol_size config == 0
      then none
      else decode_symbols (raptorq.symbol_size config) (max_blocks_of config source_len) source_len
          (raptorq.new_decoder config) symbols
