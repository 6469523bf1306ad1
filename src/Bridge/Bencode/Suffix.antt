-- ===== src/Bridge/Bencode/Suffix.antt =====
-- A decoder takes bytes from the front of its input, and at least one.
use np2ptp.Prelude.{
  ℕ, zero, suc, ◌+◌, ◌<◌, ◌≡◌, sym, ap, ◌∙◌, Option, none, some, [], ◌∷◌, ◌++◌, append_assoc, take,
  drop, length, length-append, take-append-drop, leb, ◌==◌, Bool-cases, inl, inr, Bytes, u64_max,
  Result, ok, err, Option-cases, ◌⊎◌, refl, ◌≤◌, bind-eq-ok, guard, ok_or, arith,
}
use np2ptp.Prelude.Decimal.{is_digit, parse_uint}
use np2ptp.Prelude.Utf8.{is_utf8}
use np2ptp.Bridge.Bencode.{
  Value, Values, Entries, BencodeError, break_at, strip_byte, Decoded, decode_int,
  decode_byte_string, decode_values, decode_list, decode_entries, decode_dict, decode_first,
  as_value, decode, parse_int, expected_i, expected_l, expected_d, unterminated_integer,
  invalid_integer, integer_not_utf8, missing_colon, length_not_utf8, invalid_length,
  length_overflow, past_end,
}

abbrev pub Consumed : Bytes → Bytes → Type 0
Consumed s r = (used : Bytes) × (s ≡ used ++ r) × (0 < length used)

pub Consumed-trans : (s t r : Bytes) → Consumed s t → Consumed t r → Consumed s r
Consumed-trans s t r (u, e, p) (v, f, q) =
    (u ++ v, e ∙ ap (λ k. u ++ k) f ∙ sym (append_assoc u v r), omega (arith, length-append u v))

pub Consumed-length : (s r : Bytes) → Consumed s r → length r < length s
Consumed-length s r (u, e, p) = omega (arith, ap length e, length-append u r)

-- What follows a success of `ok_or`.
pub ok_or-ok : {A E : Type 0} (o : Option A) (e : E) (a : A) → ok_or o e ≡ ok a → o ≡ some a
ok_or-ok none e a h = cc h
ok_or-ok (some b) e a h = cc h

pub strip_byte-Consumed : (c : ℕ) (s r : Bytes) → strip_byte c s ≡ some r → Consumed s r
strip_byte-Consumed c [] r h = cc h
strip_byte-Consumed c (b ∷ bs) r h = elim (Bool-cases (b == c)) [
  | inl e ↦ (b ∷ [], ap (λ k. b ∷ k) (cc (rw e at h)), omega arith)
  | inr e ↦ cc (rw e at h)
]

pub break_at-Consumed :
    (c : ℕ) (s before after : Bytes) → break_at c s ≡ some (before, after) → Consumed s after
unfolding break_at
break_at-Consumed c [] before after h = cc h
break_at-Consumed c (b ∷ bs) before after h = elim (Bool-cases (b == c)) [
  | inl e ↦ (b ∷ [], ap (λ k. b ∷ k) (cc (rw e at h)), omega arith)
  | inr e ↦ elim (Option-cases (break_at c bs)) [
    | inl gone ↦ cc (rw (e, gone) at h)
    | inr ((x, y), found) ↦
        let same : y ≡ after = cc (rw (e, found) at h) in
        let (u, parts, p) = break_at-Consumed c bs x after (found ∙ ap (λ k. some (x, k)) same) in
        (b ∷ u, ap (λ k. b ∷ k) parts, omega arith)
  ]
]

pub decode_byte_string-Consumed : (s x r : Bytes) → decode_byte_string s ≡ ok (x, r) → Consumed s r
unfolding decode_byte_string
decode_byte_string-Consumed s x r h =
    let ((len_s, after), broken, h₁) = bind-eq-ok (ok_or (break_at b':' s) missing_colon) _ h in
    let (_, _, h₂) = bind-eq-ok (guard (is_utf8 len_s) length_not_utf8) _ h₁ in
    let (len, _, h₃) = bind-eq-ok (ok_or (parse_uint u64_max len_s) invalid_length) _ h₂ in
    let (_, _, h₄) =
      bind-eq-ok (guard (leb (length len_s + 1 + len) u64_max) length_overflow) _ h₃ in
    let (_, _, h₅) = bind-eq-ok (guard (leb len (length after)) past_end) _ h₄ in
    let same : drop len after ≡ r = cc h₅ in
    let (u, e, p) =
      break_at-Consumed b':' s len_s after (ok_or-ok (break_at b':' s) missing_colon _ broken) in
    (
      u ++ take len after,
      e
          ∙ ap (λ k. u ++ k) (sym (take-append-drop len after) ∙ ap (λ k. take len after ++ k) same)
          ∙ sym (append_assoc u (take len after) r),
      omega (arith, length-append u (take len after)),
    )

decode_int-Consumed : (s r : Bytes) (v : Value) → decode_int s ≡ ok (v, r) → Consumed s r
unfolding decode_int
decode_int-Consumed s r v h =
    let (rest, stripped, h₁) = bind-eq-ok (ok_or (strip_byte b'i' s) expected_i) _ h in
    let ((digits, after), broken, h₂) =
      bind-eq-ok (ok_or (break_at b'e' rest) unterminated_integer) _ h₁ in
    let (_, _, h₃) = bind-eq-ok (guard (is_utf8 digits) integer_not_utf8) _ h₂ in
    let (n, _, h₄) = bind-eq-ok (ok_or (parse_int digits) invalid_integer) _ h₃ in
    let same : after ≡ r = cc h₄ in
    Consumed-trans s rest r (strip_byte-Consumed b'i' s rest (ok_or-ok _ expected_i _ stripped)) (
      rw same at
        (break_at-Consumed b'e' rest digits after (ok_or-ok _ unterminated_integer _ broken)))

module _ (inner : Bytes → Decoded)
    (shrinks : (s r : Bytes) (v : Value) → inner s ≡ ok (v, r) → Consumed s r) where
  decode_values-Consumed :
      (fuel : ℕ) (s r : Bytes) (vs : Values)
      → decode_values inner fuel s ≡ ok (vs, r)
      → Consumed s r
  unfolding decode_values
  decode_values-Consumed zero [] r vs h = cc h
  decode_values-Consumed (suc fuel) [] r vs h = cc h
  decode_values-Consumed zero (b ∷ bs) r vs h = cc h
  decode_values-Consumed (suc fuel) (b ∷ bs) r vs h = elim (Bool-cases (b == b'e')) [
    | inl e ↦ (b ∷ [], ap (λ k. b ∷ k) (cc (rw e at h)), omega arith)
    | inr e ↦
        let ((v, r₁), first, h₁) = bind-eq-ok (inner (b ∷ bs)) _ (rw e at h) in
        let ((ws, r₂), rest, h₂) = bind-eq-ok (decode_values inner fuel r₁) _ h₁ in
        let same : r₂ ≡ r = cc h₂ in
        Consumed-trans (b ∷ bs) r₁ r (shrinks (b ∷ bs) r₁ v first)
          (rw same at (decode_values-Consumed fuel r₁ r₂ ws rest))
  ]

  decode_entries-Consumed :
      (fuel : ℕ) (s r : Bytes) (es : Entries)
      → decode_entries inner fuel s ≡ ok (es, r)
      → Consumed s r
  unfolding decode_entries
  decode_entries-Consumed zero [] r es h = cc h
  decode_entries-Consumed (suc fuel) [] r es h = cc h
  decode_entries-Consumed zero (b ∷ bs) r es h = cc h
  decode_entries-Consumed (suc fuel) (b ∷ bs) r es h = elim (Bool-cases (b == b'e')) [
    | inl e ↦ (b ∷ [], ap (λ k. b ∷ k) (cc (rw e at h)), omega arith)
    | inr e ↦
        let ((key, r₁), named, h₁) = bind-eq-ok (decode_byte_string (b ∷ bs)) _ (rw e at h) in
        let ((v, r₂), first, h₂) = bind-eq-ok (inner r₁) _ h₁ in
        let ((ds, r₃), rest, h₃) = bind-eq-ok (decode_entries inner fuel r₂) _ h₂ in
        let same : r₃ ≡ r = cc h₃ in
        Consumed-trans (b ∷ bs) r₁ r (decode_byte_string-Consumed (b ∷ bs) key r₁ named) (
          Consumed-trans r₁ r₂ r (shrinks r₁ r₂ v first)
            (rw same at (decode_entries-Consumed fuel r₂ r₃ ds rest)))
  ]

  decode_list-Consumed : (s r : Bytes) (v : Value) → decode_list inner s ≡ ok (v, r) → Consumed s r
  unfolding decode_list
  decode_list-Consumed s r v h =
      let (t, stripped, h₁) = bind-eq-ok (ok_or (strip_byte b'l' s) expected_l) _ h in
      let ((vs, r₁), rest, h₂) = bind-eq-ok (decode_values inner (length t) t) _ h₁ in
      let same : r₁ ≡ r = cc h₂ in
      Consumed-trans s t r (strip_byte-Consumed b'l' s t (ok_or-ok _ expected_l _ stripped))
        (rw same at (decode_values-Consumed (length t) t r₁ vs rest))

  decode_dict-Consumed : (s r : Bytes) (v : Value) → decode_dict inner s ≡ ok (v, r) → Consumed s r
  unfolding decode_dict
  decode_dict-Consumed s r v h =
      let (t, stripped, h₁) = bind-eq-ok (ok_or (strip_byte b'd' s) expected_d) _ h in
      let ((es, r₁), rest, h₂) = bind-eq-ok (decode_entries inner (length t) t) _ h₁ in
      let same : r₁ ≡ r = cc h₂ in
      Consumed-trans s t r (strip_byte-Consumed b'd' s t (ok_or-ok _ expected_d _ stripped))
        (rw same at (decode_entries-Consumed (length t) t r₁ es rest))

  as_value-ok :
      (got : Result BencodeError (Bytes × Bytes)) (v : Value) (r : Bytes)
      → as_value inner got ≡ ok (v, r)
      → (x : Bytes) × (got ≡ ok (x, r))
  as_value-ok (ok (x, r')) v r h = (x, cc h)
  as_value-ok (err e) v r h = cc h

  decode_first-Consumed :
      (s r : Bytes) (v : Value) → decode_first inner s ≡ ok (v, r) → Consumed s r
  unfolding decode_first
  decode_first-Consumed [] r v h = cc h
  decode_first-Consumed (b ∷ bs) r v h = elim (Bool-cases (b == b'i')) [
    | inl i ↦ decode_int-Consumed (b ∷ bs) r v (rw i at h)
    | inr i ↦ elim (Bool-cases (b == b'l')) [
      | inl l ↦ decode_list-Consumed (b ∷ bs) r v (rw (i, l) at h)
      | inr l ↦ elim (Bool-cases (b == b'd')) [
        | inl d ↦ decode_dict-Consumed (b ∷ bs) r v (rw (i, l, d) at h)
        | inr d ↦ elim (Bool-cases (is_digit b)) [
          | inl digit ↦
              let (x, got) =
                as_value-ok (decode_byte_string (b ∷ bs)) v r (rw (i, l, d, digit) at h) in
              decode_byte_string-Consumed (b ∷ bs) x r got
          | inr digit ↦ cc (rw (i, l, d, digit) at h)
        ]
      ]
    ]
  ]

-- A decoded value was written in front of what is left, in at least one byte.
pub decode-Consumed :
    (levels : ℕ) (s r : Bytes) (v : Value) → decode levels s ≡ ok (v, r) → Consumed s r
unfolding decode
decode-Consumed zero s r v h = cc h
decode-Consumed (suc levels) s r v h =
    decode_first-Consumed (decode levels) (decode-Consumed levels) s r v h

Result-cases :
    {A : Type 0} (r : Result BencodeError A)
    → ((a : A) × (r ≡ ok a)) ⊎ ((e : BencodeError) × (r ≡ err e))
Result-cases (ok a) = inl (a, refl)
Result-cases (err e) = inr (e, refl)

module _ (inner : Bytes → Decoded)
    (shrinks : (s r : Bytes) (v : Value) → inner s ≡ ok (v, r) → Consumed s r) where
  -- Rounds beyond one for each byte change nothing.
  pub decode_values-enough :
      (fuel more : ℕ) (s : Bytes)
      → length s ≤ fuel
      → length s ≤ more
      → decode_values inner fuel s ≡ decode_values inner more s
  unfolding decode_values
  decode_values-enough zero zero [] h k = refl
  decode_values-enough zero (suc more) [] h k = refl
  decode_values-enough (suc fuel) zero [] h k = refl
  decode_values-enough (suc fuel) (suc more) [] h k = refl
  decode_values-enough zero more (b ∷ bs) h k = absurd (omega arith)
  decode_values-enough (suc fuel) zero (b ∷ bs) h k = absurd (omega arith)
  decode_values-enough (suc fuel) (suc more) (b ∷ bs) h k = elim (Bool-cases (b == b'e')) [
    | inl e ↦ rw e
    | inr e ↦ elim (Result-cases (inner (b ∷ bs))) [
      | inr (x, failed) ↦ rw (e, failed)
      | inl ((v, r), got) ↦
          let less = Consumed-length (b ∷ bs) r (shrinks (b ∷ bs) r v got) in
          rw (
            e,
            got,
            decode_values-enough fuel more r (omega (arith, h, less)) (omega (arith, k, less)),
          )
    ]
  ]

  pub decode_entries-enough :
      (fuel more : ℕ) (s : Bytes)
      → length s ≤ fuel
      → length s ≤ more
      → decode_entries inner fuel s ≡ decode_entries inner more s
  unfolding decode_entries
  decode_entries-enough zero zero [] h k = refl
  decode_entries-enough zero (suc more) [] h k = refl
  decode_entries-enough (suc fuel) zero [] h k = refl
  decode_entries-enough (suc fuel) (suc more) [] h k = refl
  decode_entries-enough zero more (b ∷ bs) h k = absurd (omega arith)
  decode_entries-enough (suc fuel) zero (b ∷ bs) h k = absurd (omega arith)
  decode_entries-enough (suc fuel) (suc more) (b ∷ bs) h k = elim (Bool-cases (b == b'e')) [
    | inl e ↦ rw e
    | inr e ↦ elim (Result-cases (decode_byte_string (b ∷ bs))) [
      | inr (x, failed) ↦ rw (e, failed)
      | inl ((key, r), named) ↦ elim (Result-cases (inner r)) [
        | inr (x, failed) ↦ rw (e, named, failed)
        | inl ((v, t), got) ↦
            let less =
              Consumed-length (b ∷ bs) r (decode_byte_string-Consumed (b ∷ bs) key r named) in
            let less' = Consumed-length r t (shrinks r t v got) in
            rw (
              e,
              named,
              got,
              decode_entries-enough fuel more t (omega (arith, h, less, less'))
                  (omega (arith, k, less, less')),
            )
      ]
    ]
  ]
