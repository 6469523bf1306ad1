-- ===== src/Store/Text/RoundTrip.antt =====
-- A line that is written is read back, as it stands in the text and field by field.
use np2ptp.Prelude.{
  ℕ, suc, ◌≤◌, ◌<◌, ◌≡◌, ◌≢◌, refl, ap, ◌∙◌, some, [], ◌∷◌, ◌++◌, Bytes, All, All-append, u64_max,
  arith,
}
use np2ptp.Prelude.Decimal.{to_string, parse_uint-to_string, to_string-IsDigit, IsDigit}
use np2ptp.Core.Hash.{Hash, IsHash}
use np2ptp.Core.Manifest.Container.{Hex}
use np2ptp.Store.Text.{
  PackLoc, u32_max, tab, newline, splitn, lines, pack_fields, parse_pack_index_line, ref_fields,
  parse_ref_line, pack_index_line, ref_line,
}

-- Text of one line without a field's end in it; hexadecimal text is of this kind, which is part of
-- what is assumed of the codec.
abbrev pub Word : Bytes → Type 0
Word s = All (λ c. (13 < c) × (c < 128)) s

Word-digits : (s : Bytes) → All IsDigit s → Word s
Word-digits [] h = tt
Word-digits (c ∷ s) ((low, high), h) = ((omega arith, omega arith), Word-digits s h)

pub Word-to_string : (n : ℕ) → Word (to_string n)
Word-to_string n = Word-digits (to_string n) (to_string-IsDigit n)

pub splitn-field :
    (n : ℕ) (s rest : Bytes)
    → Word s
    → splitn (suc (suc n)) tab (s ++ tab ∷ rest) ≡ s ∷ splitn (suc n) tab rest
unfolding splitn
splitn-field n [] rest h = refl
splitn-field n (c ∷ s) rest ((low, _), h) = ground (arith, splitn-field n s rest h)

-- A line's text: any byte but those that end it.
abbrev pub OneLine : Bytes → Type 0
OneLine s = All (λ c. (c ≢ newline) × (c ≢ 13)) s

pub lines-line : (s rest : Bytes) → OneLine s → lines (s ++ newline ∷ rest) ≡ s ∷ lines rest
unfolding lines
lines-line [] rest h = refl
lines-line (c ∷ s) rest ((apart, cr), h) = ground (arith, lines-line s rest h)

OneLine-Word : (s : Bytes) → Word s → OneLine s
OneLine-Word [] h = tt
OneLine-Word (c ∷ s) ((low, _), h) = (((λ e. omega arith), (λ e. omega arith)), OneLine-Word s h)

abbrev pub Ascii : Bytes → Type 0
Ascii s = All (λ c. c < 128) s

Ascii-Word : (s : Bytes) → Word s → Ascii s
Ascii-Word [] h = tt
Ascii-Word (c ∷ s) ((_, high), h) = (high, Ascii-Word s h)

module _ (hex : Hex) (plain : (h : Hash) → Word (hex.encode h)) where
  -- Four fields are found again, the last up to the end of the line.
  splitn-fields :
      (a b c d : Bytes)
      → Word a
      → Word b
      → Word c
      → splitn 4 tab (a ++ (tab ∷ (b ++ (tab ∷ (c ++ (tab ∷ d)))))) ≡ a ∷ b ∷ c ∷ d ∷ []
  unfolding splitn
  splitn-fields a b c d p q r =
      splitn-field 2 a _ p
      ∙ ap (λ l. a ∷ l) (splitn-field 1 b _ q ∙ ap (λ l. b ∷ l) (splitn-field 0 c d r ∙ last))
    where
      last : c ∷ splitn 1 tab d ≡ c ∷ d ∷ []
      last = refl

  -- A line of `packs/index` that is written is read back as the same entry.
  pub parse_pack_index_line-pack_index_line :
      (h : Hash) (id offset size : ℕ)
      → IsHash h
      → id ≤ u32_max
      → offset ≤ u64_max
      → size ≤ u32_max
      → parse_pack_index_line hex (pack_index_line hex h (id, offset, size))
        ≡ some (h, (id, offset, size))
  unfolding parse_pack_index_line pack_index_line pack_fields splitn
  parse_pack_index_line-pack_index_line h id offset size p q r s = rw (
    splitn-fields (hex.encode h) (to_string id) (to_string offset) (to_string size) (plain h)
        (Word-to_string id) (Word-to_string offset),
    hex.decode-encode h p,
    parse_uint-to_string u32_max id q (omega arith),
    parse_uint-to_string u64_max offset r (omega arith),
    parse_uint-to_string u32_max size s (omega arith),
  )

  -- A line of `refs.tsv` that is written is read back as the same entry, whatever the path.
  pub parse_ref_line-ref_line :
      (h : Hash) (path : Bytes) (offset size : ℕ)
      → IsHash h
      → offset ≤ u64_max
      → size ≤ u32_max
      → parse_ref_line hex (ref_line hex h (path, offset, size)) ≡ some (h, (path, offset, size))
  unfolding parse_ref_line ref_line ref_fields splitn
  parse_ref_line-ref_line h path offset size p r s = rw (
    splitn-fields (hex.encode h) (to_string offset) (to_string size) path (plain h)
        (Word-to_string offset) (Word-to_string size),
    hex.decode-encode h p,
    parse_uint-to_string u64_max offset r (omega arith),
    parse_uint-to_string u32_max size s (omega arith),
  )

  All-fields :
      (P : ℕ → Type 0) (a b c d : Bytes)
      → P tab
      → All P a
      → All P b
      → All P c
      → All P d
      → All P (a ++ (tab ∷ (b ++ (tab ∷ (c ++ (tab ∷ d))))))
  All-fields P a b c d t p q r s =
      All-append P a _ p (t, All-append P b _ q (t, All-append P c _ r (t, s)))

  pub OneLine-pack_index_line : (h : Hash) (loc : PackLoc) → OneLine (pack_index_line hex h loc)
  unfolding pack_index_line
  OneLine-pack_index_line h (id, offset, size) =
      All-fields _ (hex.encode h) (to_string id) (to_string offset) (to_string size)
        ((λ e. omega arith), (λ e. omega arith)) (OneLine-Word _ (plain h))
        (OneLine-Word _ (Word-to_string id)) (OneLine-Word _ (Word-to_string offset))
        (OneLine-Word _ (Word-to_string size))

  pub Ascii-pack_index_line :
      (h : Hash) (loc : PackLoc) → All (λ c. c < 128) (pack_index_line hex h loc)
  unfolding pack_index_line
  Ascii-pack_index_line h (id, offset, size) =
      All-fields _ (hex.encode h) (to_string id) (to_string offset) (to_string size) (omega arith)
        (Ascii-Word _ (plain h)) (Ascii-Word _ (Word-to_string id))
        (Ascii-Word _ (Word-to_string offset)) (Ascii-Word _ (Word-to_string size))
