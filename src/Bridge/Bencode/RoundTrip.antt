-- ===== src/Bridge/Bencode/RoundTrip.antt =====
-- The decoder reads back what the printer prints.
use np2ptp.Prelude.{
  ℕ, zero, suc, ◌^◌, ◌<◌, ◌≤◌, ◌≡◌, refl, ap, ◌∙◌, [], ◌∷◌, ◌++◌, length, ◌==◌, Bool, true, false,
  All, Bytes, Result, ok, ◌>>=◌, arith,
}
use np2ptp.Prelude.Decimal.{to_string, IsDigit, to_string-IsDigit}
use np2ptp.Bridge.Bencode.{
  ℤ, pos, negsuc, Value, Values, Entries, int, bytes, list, dict, no_values, value, no_entries,
  entry, BencodeError, Decoded, decode_byte_string, decode_values, decode_list, decode_entries,
  decode_dict, as_value, decode_first, decode,
}
use np2ptp.Bridge.Bencode.Suffix.{Consumed-length, decode_byte_string-Consumed, decode-Consumed}
use np2ptp.Bridge.Bencode.Print.{
  encode, encode_bytes, encode_values, encode_entries, Encodable, EncodableValues, EncodableEntries,
  IsI64, to_string_some, decode_byte_string-encode_bytes, decode_int-encode,
}

-- There is no byte, or the byte that ends a list.
abbrev ends : Bytes → Bool
ends [] = true
ends (b ∷ bs) = b == b'e'

encode_bytes-starts : (b rest : Bytes) → ends (encode_bytes b rest) ≡ false
encode_bytes-starts b rest =
    digit_first (to_string (length b)) (to_string_some (length b)) (to_string-IsDigit (length b))
  where
    digit_first :
        (s : Bytes) → 0 < length s → All IsDigit s → ends (s ++ (b':' ∷ (b ++ rest))) ≡ false
    digit_first [] p h = absurd (omega arith)
    digit_first (c ∷ s) p ((low, high), h) = ground arith

encode-starts : (v : Value) (rest : Bytes) → ends (encode v rest) ≡ false
unfolding encode
encode-starts (int (pos n)) rest = refl
encode-starts (int (negsuc n)) rest = refl
encode-starts (bytes b) rest = encode_bytes-starts b rest
encode-starts (list vs) rest = refl
encode-starts (dict es) rest = refl

digit_first :
    (inner : Bytes → Decoded) (s t : Bytes)
    → 0 < length s
    → All IsDigit s
    → decode_first inner (s ++ t) ≡ as_value inner (decode_byte_string (s ++ t))
unfolding decode_first
digit_first inner [] t p h = absurd (omega arith)
digit_first inner (c ∷ s) t p ((low, high), h) = ground arith

decode_first-encode_bytes :
    (inner : Bytes → Decoded) (b rest : Bytes)
    → length b < 2 ^ 63
    → decode_first inner (encode_bytes b rest) ≡ ok (bytes b, rest)
decode_first-encode_bytes inner b rest h =
    digit_first inner (to_string (length b)) (b':' ∷ (b ++ rest)) (to_string_some (length b))
      (to_string-IsDigit (length b))
    ∙ ap (as_value inner) (decode_byte_string-encode_bytes b rest h)

module _ (inner : Bytes → Decoded) where
  decode_values-step :
      (fuel : ℕ) (s r : Bytes) (v : Value)
      → ends s ≡ false
      → inner s ≡ ok (v, r)
      → decode_values inner (suc fuel) s
        ≡ (decode_values inner fuel r >>= λ (vs, t). ok (value v vs, t))
  unfolding decode_values
  decode_values-step fuel [] r v e h = cc e
  decode_values-step fuel (b ∷ bs) r v e h = rw (e, h)

  decode_entries-step :
      (fuel : ℕ) (s key r t : Bytes) (v : Value)
      → ends s ≡ false
      → decode_byte_string s ≡ ok (key, r)
      → inner r ≡ ok (v, t)
      → decode_entries inner (suc fuel) s
        ≡ (decode_entries inner fuel t >>= λ (es, u). ok (entry key v es, u))
  unfolding decode_entries
  decode_entries-step fuel [] key r t v e h k = cc e
  decode_entries-step fuel (b ∷ bs) key r t v e h k = rw (e, h, k)

module _ (inner : Bytes → Decoded) where
  decode_first-int :
      (n : ℤ) (rest : Bytes) → IsI64 n → decode_first inner (encode (int n) rest) ≡ ok (int n, rest)
  unfolding decode_first encode
  decode_first-int (pos n) rest h = decode_int-encode (pos n) rest h
  decode_first-int (negsuc n) rest h = decode_int-encode (negsuc n) rest h

  decode_first-list :
      (s rest : Bytes) (vs : Values)
      → decode_values inner (length s) s ≡ ok (vs, rest)
      → decode_first inner (b'l' ∷ s) ≡ ok (list vs, rest)
  unfolding decode_first decode_list
  decode_first-list s rest vs h = rw h

  decode_first-dict :
      (s rest : Bytes) (es : Entries)
      → decode_entries inner (length s) s ≡ ok (es, rest)
      → decode_first inner (b'd' ∷ s) ≡ ok (dict es, rest)
  unfolding decode_first decode_dict
  decode_first-dict s rest es h = rw h

  decode_values-end :
      (fuel : ℕ) (rest : Bytes)
      → 0 < fuel
      → decode_values inner fuel (b'e' ∷ rest) ≡ ok (no_values, rest)
  unfolding decode_values
  decode_values-end zero rest p = absurd (omega arith)
  decode_values-end (suc fuel) rest p = refl

  decode_entries-end :
      (fuel : ℕ) (rest : Bytes)
      → 0 < fuel
      → decode_entries inner fuel (b'e' ∷ rest) ≡ ok (no_entries, rest)
  unfolding decode_entries
  decode_entries-end zero rest p = absurd (omega arith)
  decode_entries-end (suc fuel) rest p = refl

mutual
  unfolding encode Encodable decode

  round_trip :
      (levels : ℕ) (v : Value) (rest : Bytes)
      → Encodable levels v
      → decode levels (encode v rest) ≡ ok (v, rest)
  round_trip zero (int n) rest (p, h) = absurd (omega arith)
  round_trip zero (bytes b) rest (p, h) = absurd (omega arith)
  round_trip zero (list vs) rest (p, h) = absurd (omega arith)
  round_trip zero (dict es) rest (p, h) = absurd (omega arith)
  round_trip (suc levels) (int n) rest (p, h) = decode_first-int (decode levels) n rest h
  round_trip (suc levels) (bytes b) rest (p, h) = decode_first-encode_bytes (decode levels) b rest h
  round_trip (suc levels) (list vs) rest (p, h) =
      decode_first-list (decode levels) (encode_values vs (b'e' ∷ rest)) rest vs
        (values_round_trip levels vs rest (length (encode_values vs (b'e' ∷ rest))) (omega arith) h)
  round_trip (suc levels) (dict es) rest (p, h) =
      decode_first-dict (decode levels) (encode_entries es (b'e' ∷ rest)) rest es (
        entries_round_trip levels es rest (length (encode_entries es (b'e' ∷ rest))) (omega arith)
          h)

  values_round_trip :
      (levels : ℕ) (vs : Values) (rest : Bytes) (fuel : ℕ)
      → length (encode_values vs (b'e' ∷ rest)) ≤ fuel
      → EncodableValues levels vs
      → decode_values (decode levels) fuel (encode_values vs (b'e' ∷ rest)) ≡ ok (vs, rest)
  values_round_trip levels no_values rest fuel h k =
      decode_values-end (decode levels) fuel rest (omega (arith, h))
  values_round_trip levels (value v vs) rest zero h (k, ks) =
      let t = encode_values vs (b'e' ∷ rest) in
      absurd (
        omega (
          arith,
          h,
          Consumed-length (encode v t) t
              (decode-Consumed levels (encode v t) t v (round_trip levels v t k)),
        ))
  values_round_trip levels (value v vs) rest (suc fuel) h (k, ks) =
      let t = encode_values vs (b'e' ∷ rest) in
      let got = round_trip levels v t k in
      let shorter = Consumed-length (encode v t) t (decode-Consumed levels (encode v t) t v got) in
      decode_values-step (decode levels) fuel (encode v t) t v (encode-starts v t) got
      ∙ ap (λ (r : Result BencodeError (Values × Bytes)). r >>= λ (ws, u). ok (value v ws, u))
          (values_round_trip levels vs rest fuel (omega (arith, h, shorter)) ks)

  entries_round_trip :
      (levels : ℕ) (es : Entries) (rest : Bytes) (fuel : ℕ)
      → length (encode_entries es (b'e' ∷ rest)) ≤ fuel
      → EncodableEntries levels es
      → decode_entries (decode levels) fuel (encode_entries es (b'e' ∷ rest)) ≡ ok (es, rest)
  entries_round_trip levels no_entries rest fuel h k =
      decode_entries-end (decode levels) fuel rest (omega (arith, h))
  entries_round_trip levels (entry key v es) rest zero h (small, k, ks) =
      let t = encode v (encode_entries es (b'e' ∷ rest)) in
      let named = decode_byte_string-encode_bytes key t small in
      absurd (
        omega (
          arith,
          h,
          Consumed-length (encode_bytes key t) t
              (decode_byte_string-Consumed (encode_bytes key t) key t named),
        ))
  entries_round_trip levels (entry key v es) rest (suc fuel) h (small, k, ks) =
      let t = encode_entries es (b'e' ∷ rest) in
      let s = encode v t in
      let named = decode_byte_string-encode_bytes key s small in
      let got = round_trip levels v t k in
      let shorter = Consumed-length s t (decode-Consumed levels s t v got) in
      let key_shorter =
        Consumed-length (encode_bytes key s) s
          (decode_byte_string-Consumed (encode_bytes key s) key s named) in
      decode_entries-step (decode levels) fuel (encode_bytes key s) key s t v
        (encode_bytes-starts key s) named got
      ∙ ap (λ (r : Result BencodeError (Entries × Bytes)). r >>= λ (ds, u). ok (entry key v ds, u))
          (entries_round_trip levels es rest fuel (omega (arith, h, shorter, key_shorter)) ks)

-- The decoder reads back a value that is printed in front of any bytes, and leaves those bytes,
-- provided that the value does not nest deeper than the levels allow, its integers fit `i64` and its
-- strings are shorter than 2 ^ 63 bytes.
pub decode-encode :
    (levels : ℕ) (v : Value) (rest : Bytes)
    → Encodable levels v
    → decode levels (encode v rest) ≡ ok (v, rest)
decode-encode = round_trip
