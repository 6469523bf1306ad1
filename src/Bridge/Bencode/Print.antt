-- ===== src/Bridge/Bencode/Print.antt =====
-- A printer of bencode, and what the decoder makes of the integers and strings that it prints.
use np2ptp.Prelude.{
  ℕ, zero, suc, ◌+◌, ◌-◌, ◌/◌, ◌%◌, ◌^◌, ◌<◌, ◌≤◌, ◌≡◌, ◌≢◌, refl, ap, ◌∙◌, some, [], ◌∷◌, ◌++◌,
  length, length-append, take-append_length, drop-append_length, leb, ltb, ◌==◌, ==_iff, true,
  Bool-cases, inl, inr, All, Bytes, u64_max, ok, arith,
}
use np2ptp.Prelude.Decimal.{
  parse_uint, digits, to_string, IsDigit, to_string-IsDigit, length-digits_pos,
  parse_uint-to_string,
}
use np2ptp.Prelude.Utf8.{is_utf8, is_utf8-ascii}
use np2ptp.Bridge.Bencode.{
  ℤ, pos, negsuc, Value, Values, Entries, int, bytes, list, dict, no_values, value, no_entries,
  entry, break_at, unsigned, positive, negative, parse_int, decode_int, decode_byte_string,
}

-- The text of a byte string in front of `rest`.
abbrev pub encode_bytes : Bytes → Bytes → Bytes
encode_bytes b rest = to_string (length b) ++ (b':' ∷ (b ++ rest))

-- The text of a value in front of `rest`.
unfoldable mutual
  pub encode : Value → Bytes → Bytes
  encode (int (pos n)) rest = b'i' ∷ (to_string n ++ (b'e' ∷ rest))
  encode (int (negsuc n)) rest = b'i' ∷ b'-' ∷ (to_string (suc n) ++ (b'e' ∷ rest))
  encode (bytes b) rest = encode_bytes b rest
  encode (list vs) rest = b'l' ∷ encode_values vs (b'e' ∷ rest)
  encode (dict es) rest = b'd' ∷ encode_entries es (b'e' ∷ rest)

  pub encode_values : Values → Bytes → Bytes
  encode_values no_values rest = rest
  encode_values (value v vs) rest = encode v (encode_values vs rest)

  pub encode_entries : Entries → Bytes → Bytes
  encode_entries no_entries rest = rest
  encode_entries (entry key v es) rest = encode_bytes key (encode v (encode_entries es rest))

abbrev pub IsI64 : ℤ → Type 0
IsI64 (pos n) = n < 2 ^ 63
IsI64 (negsuc n) = n < 2 ^ 63

abbrev pub one_less : ℕ → ℕ
one_less zero = 0
one_less (suc n) = n

-- The value nests at most `levels` deep, its integers fit `i64`, and its strings have lengths that
-- fit `usize` with room to spare.
unfoldable mutual
  pub Encodable : ℕ → Value → Type 0
  Encodable levels (int n) = (0 < levels) × IsI64 n
  Encodable levels (bytes b) = (0 < levels) × (length b < 2 ^ 63)
  Encodable levels (list vs) = (0 < levels) × EncodableValues (one_less levels) vs
  Encodable levels (dict es) = (0 < levels) × EncodableEntries (one_less levels) es

  pub EncodableValues : ℕ → Values → Type 0
  EncodableValues levels no_values = 0 ≤ levels
  EncodableValues levels (value v vs) = Encodable levels v × EncodableValues levels vs

  pub EncodableEntries : ℕ → Entries → Type 0
  EncodableEntries levels no_entries = 0 ≤ levels
  EncodableEntries levels (entry key v es) =
      (length key < 2 ^ 63) × Encodable levels v × EncodableEntries levels es

break_at-append :
    (c : ℕ) (s rest : Bytes) → All (λ b. b ≢ c) s → break_at c (s ++ (c ∷ rest)) ≡ some (s, rest)
unfolding break_at
break_at-append c [] rest h = rw ((==_iff c c).1 refl)
break_at-append c (b ∷ bs) rest (other, h) = elim (Bool-cases (b == c)) [
  | inl e ↦ absurd (other ((==_iff b c).0 e))
  | inr e ↦ rw (e, break_at-append c bs rest h)
]

apart : (c : ℕ) (s : Bytes) → 57 < c → All IsDigit s → All (λ b. b ≢ c) s
apart c [] p h = tt
apart c (b ∷ bs) p ((low, high), h) = ((λ e. omega (arith, e)), apart c bs p h)

digits_utf8 : (s : Bytes) → All IsDigit s → is_utf8 s ≡ true
digits_utf8 s h = is_utf8-ascii s (low s h)
  where
    low : (s : Bytes) → All IsDigit s → All (λ b. b < 128) s
    low [] h = tt
    low (b ∷ bs) ((p, q), h) = (omega arith, low bs h)

digits_short : (fuel n : ℕ) → length (digits fuel n) ≤ fuel
unfolding digits
digits_short zero n = omega arith
digits_short (suc fuel) n = elim (Bool-cases (ltb n 10)) [
  | inl e ↦ rw e (omega arith)
  | inr e ↦ rw e (
      omega (
        arith,
        digits_short fuel (n / 10),
        length-append (digits fuel (n / 10)) ((48 + n % 10) ∷ []),
      ))
]

to_string_short : (n : ℕ) → length (to_string n) ≤ 20
unfolding to_string
to_string_short n = digits_short 20 n

pub to_string_some : (n : ℕ) → 0 < length (to_string n)
unfolding to_string
to_string_some n = length-digits_pos 19 n

pub decode_byte_string-encode_bytes :
    (b rest : Bytes) → length b < 2 ^ 63 → decode_byte_string (encode_bytes b rest) ≡ ok (b, rest)
unfolding decode_byte_string
decode_byte_string-encode_bytes b rest h =
    let n = length b in
    let s = to_string n in
    let fits : leb (length s + 1 + n) u64_max ≡ true = ground (arith, to_string_short n) in
    let inside : leb n (length (b ++ rest)) ≡ true = ground (arith, length-append b rest) in
    rw (
      break_at-append b':' s (b ++ rest) (apart b':' s (omega arith) (to_string-IsDigit n)),
      digits_utf8 s (to_string-IsDigit n),
      parse_uint-to_string u64_max n (omega arith) (omega arith),
      fits,
      inside,
      take-append_length n b rest refl,
      drop-append_length n b rest refl,
    )

positive-parse :
    (s : Bytes) → 0 < length s → All IsDigit s → parse_int s ≡ positive (parse_uint (2 ^ 63 - 1) s)
unfolding parse_int
positive-parse [] p h = absurd (omega arith)
positive-parse (c ∷ s) p ((low, high), h) = ground arith

unsigned-parse :
    (max : ℕ) (s : Bytes) → 0 < length s → All IsDigit s → unsigned max s ≡ parse_uint max s
unsigned-parse max [] p h = absurd (omega arith)
unsigned-parse max (c ∷ s) p ((low, high), h) = ground arith

parse_int-pos : (n : ℕ) → n < 2 ^ 63 → parse_int (to_string n) ≡ some (pos n)
parse_int-pos n h =
    positive-parse (to_string n) (to_string_some n) (to_string-IsDigit n)
    ∙ ap positive (parse_uint-to_string (2 ^ 63 - 1) n (omega arith) (omega arith))

parse_int-negsuc : (n : ℕ) → n < 2 ^ 63 → parse_int (b'-' ∷ to_string (suc n)) ≡ some (negsuc n)
unfolding parse_int
parse_int-negsuc n h = ap negative (
    unsigned-parse (2 ^ 63) (to_string (suc n)) (to_string_some (suc n)) (to_string-IsDigit (suc n))
    ∙ parse_uint-to_string (2 ^ 63) (suc n) (omega arith) (omega arith))

pub decode_int-encode :
    (n : ℤ) (rest : Bytes) → IsI64 n → decode_int (encode (int n) rest) ≡ ok (int n, rest)
unfolding decode_int encode
decode_int-encode (pos n) rest h =
    let s = to_string n in
    rw (
      break_at-append b'e' s rest (apart b'e' s (omega arith) (to_string-IsDigit n)),
      digits_utf8 s (to_string-IsDigit n),
      parse_int-pos n h,
    )
decode_int-encode (negsuc n) rest h =
    let s = to_string (suc n) in
    rw (
      break_at-append b'e' (b'-' ∷ s) rest
          ((λ e. omega (arith, e)), apart b'e' s (omega arith) (to_string-IsDigit (suc n))),
      is_utf8-minus s (to_string-IsDigit (suc n)),
      parse_int-negsuc n h,
    )
  where
    low : (s : Bytes) → All IsDigit s → All (λ b. b < 128) s
    low [] h = tt
    low (b ∷ bs) ((p, q), h) = (omega arith, low bs h)

    is_utf8-minus : (s : Bytes) → All IsDigit s → is_utf8 (b'-' ∷ s) ≡ true
    is_utf8-minus s h = is_utf8-ascii (b'-' ∷ s) (omega arith, low s h)
