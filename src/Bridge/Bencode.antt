-- ===== src/Bridge/Bencode.antt =====
-- crates/np2ptp-bridge/src/bencode.rs: the decoder of bencode. `decode(input, depth)` of the source is
-- `decode levels input`, where `levels` is how deep values may still nest: 33 at depth 0, and none
-- where the depth is above MAX_DEPTH.
pub mod Torrent
pub mod Suffix
pub mod Print
pub mod RoundTrip
pub mod Meta
mod Tests
use np2ptp.Prelude.{
  ℕ, zero, suc, ◌+◌, ◌-◌, ◌^◌, Option, none, some, List, [], ◌∷◌, ◌++◌, take, drop, length, leb,
  ltb, ◌==◌, Bool, true, false, ◌&&◌, if◌then◌else◌, Bytes, codes, eq_bytes, u64_max, Result, ok,
  err, ◌>>=◌, ◌>>◌, guard, ok_or,
}
use np2ptp.Prelude.Decimal.{is_digit, parse_uint}
use np2ptp.Prelude.Utf8.{is_utf8}

-- The integers, for `i64`.
pub data ℤ : Type 0 where
  pos : ℕ → ℤ
  negsuc : ℕ → ℤ

mutual
  pub data Value : Type 0 where
    int : ℤ → Value
    bytes : Bytes → Value
    list : Values → Value
    dict : Entries → Value

  pub data Values : Type 0 where
    no_values : Values
    value : Value → Values → Values

  pub data Entries : Type 0 where
    no_entries : Entries
    entry : Bytes → Value → Entries → Entries

abbrev pub as_dict : Value → Option Entries
as_dict (dict d) = some d
as_dict _ = none

abbrev pub as_bytes : Value → Option Bytes
as_bytes (bytes b) = some b
as_bytes _ = none

abbrev pub as_int : Value → Option ℤ
as_int (int n) = some n
as_int _ = none

abbrev pub as_list : Value → Option Values
as_list (list l) = some l
as_list _ = none

-- The first entry under the key.
unfoldable pub find_key : Bytes → Entries → Option Value
find_key key no_entries = none
find_key key (entry k v rest) =
    let later = find_key key rest in if eq_bytes k key then some v else later

abbrev pub dict_get : Bytes → Value → Option Value
dict_get key v = np2ptp.Prelude.Options.◌>>=◌ (as_dict v) (find_key key)

-- The messages of `err`.
pub data BencodeError : Type 0 where
  too_deep unexpected_byte expected_i unterminated_integer integer_not_utf8 invalid_integer :
      BencodeError
  missing_colon length_not_utf8 invalid_length length_overflow past_end : BencodeError
  expected_l unterminated_list expected_d unterminated_dict expected_top_dict no_info : BencodeError
  empty_path path_escapes name_missing piece_length_missing piece_length_range : BencodeError
  piece_length_bad pieces_missing pieces_not_20 files_not_list file_length_missing : BencodeError
  file_length_range file_path_missing segment_not_bytes length_missing length_range : BencodeError

abbrev pub max_depth : ℕ
max_depth = 32

-- The bytes in front of the first `c`, and those behind it: `position` and the two slices.
abbrev pub put_front : ℕ → Option (Bytes × Bytes) → Option (Bytes × Bytes)
put_front b none = none
put_front b (some (before, after)) = some (b ∷ before, after)

unfoldable pub break_at : ℕ → Bytes → Option (Bytes × Bytes)
break_at c [] = none
break_at c (b ∷ bs) = let rest = break_at c bs in if b == c then some ([], bs) else put_front b rest

abbrev pub strip_byte : ℕ → Bytes → Option Bytes
strip_byte c [] = none
strip_byte c (b ∷ bs) = if b == c then some bs else none

abbrev pub negate : ℕ → ℤ
negate zero = pos 0
negate (suc n) = negsuc n

-- `str::parse` to `i64`
abbrev pub positive : Option ℕ → Option ℤ
positive none = none
positive (some n) = some (pos n)

abbrev pub negative : Option ℕ → Option ℤ
negative none = none
negative (some n) = some (negate n)

-- The digits behind a sign, of which there must be one, and no second sign.
abbrev pub unsigned : ℕ → Bytes → Option ℕ
unsigned max [] = none
unsigned max (c ∷ s) = if is_digit c then parse_uint max (c ∷ s) else none

unfoldable pub parse_int : Bytes → Option ℤ
parse_int [] = none
parse_int (c ∷ s) =
    if c == b'-' then negative (unsigned (2 ^ 63) s) else positive (parse_uint (2 ^ 63 - 1) (c ∷ s))

abbrev pub Decoded : Type 0
Decoded = Result BencodeError (Value × Bytes)

unfoldable pub decode_int : Bytes → Decoded
decode_int input = do
  rest ← ok_or (strip_byte b'i' input) expected_i
  (s, after) ← ok_or (break_at b'e' rest) unterminated_integer
  guard (is_utf8 s) integer_not_utf8
  n ← ok_or (parse_int s) invalid_integer
  ok (int n, after)

unfoldable pub decode_byte_string : Bytes → Result BencodeError (Bytes × Bytes)
decode_byte_string input = do
  (len_s, after) ← ok_or (break_at b':' input) missing_colon
  guard (is_utf8 len_s) length_not_utf8
  len ← ok_or (parse_uint u64_max len_s) invalid_length
  guard (leb (length len_s + 1 + len) u64_max) length_overflow
  guard (leb len (length after)) past_end
  ok (take len after, drop len after)

module _ (inner : Bytes → Decoded) where
  -- The loop of `decode_list`, with what `decode` does one level further in. Each round takes a byte
  -- or more, so that as many rounds as there are bytes are enough; without a byte left the list is
  -- unterminated.
  unfoldable pub decode_values : ℕ → Bytes → Result BencodeError (Values × Bytes)
  decode_values fuel [] = err unterminated_list
  decode_values zero (b ∷ bs) = err unterminated_list
  decode_values (suc fuel) (b ∷ bs) =
      let more = (do
        (v, r) ← inner (b ∷ bs)
        (vs, r') ← decode_values fuel r
        ok (value v vs, r')) in
      if b == b'e' then ok (no_values, bs) else more

  unfoldable pub decode_list : Bytes → Decoded
  decode_list input = do
    rest ← ok_or (strip_byte b'l' input) expected_l
    (vs, r) ← decode_values (length rest) rest
    ok (list vs, r)

  unfoldable pub decode_entries : ℕ → Bytes → Result BencodeError (Entries × Bytes)
  decode_entries fuel [] = err unterminated_dict
  decode_entries zero (b ∷ bs) = err unterminated_dict
  decode_entries (suc fuel) (b ∷ bs) =
      let more = (do
        (key, r) ← decode_byte_string (b ∷ bs)
        (v, r') ← inner r
        (es, r'') ← decode_entries fuel r'
        ok (entry key v es, r'')) in
      if b == b'e' then ok (no_entries, bs) else more

  unfoldable pub decode_dict : Bytes → Decoded
  decode_dict input = do
    rest ← ok_or (strip_byte b'd' input) expected_d
    (es, r) ← decode_entries (length rest) rest
    ok (dict es, r)

  abbrev pub as_value : Result BencodeError (Bytes × Bytes) → Decoded
  as_value (ok (b, r)) = ok (bytes b, r)
  as_value (err e) = err e

  unfoldable pub decode_first : Bytes → Decoded
  decode_first [] = err unexpected_byte
  decode_first (b ∷ bs) =
      if b == b'i'
      then decode_int (b ∷ bs)
      else if b == b'l'
      then decode_list (b ∷ bs)
      else if b == b'd'
      then decode_dict (b ∷ bs)
      else if is_digit b
      then as_value (decode_byte_string (b ∷ bs))
      else err unexpected_byte

unfoldable pub decode : ℕ → Bytes → Decoded
decode zero input = err too_deep
decode (suc levels) input = decode_first (decode levels) input
