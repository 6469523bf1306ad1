-- ===== src/Fec/Tests.antt =====
-- The codec's wrapper at a concrete input.
use np2ptp.Prelude.{◌≡◌, refl, some, List, [], ◌∷◌, Bytes, codes, arith}
use np2ptp.Fec.{zeros, encode, encode_with_symbol_size, decode}
use np2ptp.Fec.RoundTrip.{fitting, accepted, decode-encode_default}
use np2ptp.Bridge.Pieces.{div_ceil}
use np2ptp.Fec.Toy.{toy_raptorq, packet, copies}

-- A packet that is too short, one of a block that is not there, and the encoder's.
abbrev mixed : List Bytes
mixed = (0 ∷ []) ∷ (7 ∷ 0 ∷ 0 ∷ 0 ∷ 1 ∷ 2 ∷ []) ∷ packet 1200 ∷ []

mixed-accepted :
    accepted toy_raptorq (encode toy_raptorq (codes "hi") 0) mixed
    ≡ (encode toy_raptorq (codes "hi") 0).symbols
unfolding fitting encode encode_with_symbol_size zeros copies div_ceil
mixed-accepted = refl

decode-encode_default_example :
    decode toy_raptorq
      (encode toy_raptorq (codes "hi") 0).config
      (encode toy_raptorq (codes "hi") 0).source_len
      mixed
    ≡ some (codes "hi")
decode-encode_default_example =
    decode-encode_default toy_raptorq (codes "hi") 0 mixed (omega arith) (omega arith)
      mixed-accepted
