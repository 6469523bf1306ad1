-- ===== src/Store/Text/Tail.antt =====
-- Text is read on from where it was read before, as far as its lines are complete.
use np2ptp.Prelude.{
  ℕ, ◌≡◌, ◌≢◌, refl, sym, ap, ◌∙◌, List, [], ◌∷◌, ◌++◌, ◌==◌, ==_iff, Bool-cases, ◌&&◌, ◌⊎◌, inl,
  inr, Bytes, arith,
}
use np2ptp.Store.Text.{newline, cons_first, lines, keep_byte, complete_lines}

-- Text that ends with a newline, or is empty.
abbrev pub Complete : Bytes → Type 0
Complete text = complete_lines text ≡ text

-- What completeness says of text behind its first byte.
behind :
    (c : ℕ) (s kept : Bytes)
    → complete_lines s ≡ kept
    → keep_byte c kept ≡ c ∷ s
    → ((c ≡ newline) × (s ≡ [])) ⊎ (Complete s × (s ≢ []))
behind c s [] e h = elim (Bool-cases (c == newline)) [
  | inl t ↦ inl ((==_iff c newline).0 t, cc (rw t at h))
  | inr t ↦ cc (rw t at h)
]
behind c s (d ∷ kept) e h =
    let same : s ≡ d ∷ kept = cc h in inr (e ∙ sym same, λ empty. cc (same, empty))

behind-Complete : (c d : ℕ) (s : Bytes) → Complete (c ∷ d ∷ s) → Complete (d ∷ s)
unfolding complete_lines
behind-Complete c d s h = elim (behind c (d ∷ s) (complete_lines (d ∷ s)) refl h) [
  | inl (e, empty) ↦ cc empty
  | inr (complete, _) ↦ complete
]

last-Complete : (c : ℕ) → Complete (c ∷ []) → c ≡ newline
unfolding complete_lines
last-Complete c h = elim (behind c [] [] refl h) [
  | inl (e, _) ↦ e
  | inr (_, some_left) ↦ absurd (some_left refl)
]

keep_newline : (u : Bytes) → keep_byte newline u ≡ newline ∷ u
keep_newline [] = refl
keep_newline (d ∷ u) = refl

pub complete_lines-append :
    (s t : Bytes) → Complete s → complete_lines (s ++ t) ≡ s ++ complete_lines t
unfolding complete_lines
complete_lines-append [] t h = refl
complete_lines-append (c ∷ []) t h = rw (last-Complete c h) (keep_newline (complete_lines t))
complete_lines-append (c ∷ d ∷ s) t h =
    ap (λ u. keep_byte c u) (complete_lines-append (d ∷ s) t (behind-Complete c d s h))

pub append_newline-Complete : (s : Bytes) → Complete (s ++ newline ∷ [])
unfolding complete_lines
append_newline-Complete [] = refl
append_newline-Complete (c ∷ s) = ap (λ u. keep_byte c u) (append_newline-Complete s) ∙ longer s
  where
    longer : (u : Bytes) → keep_byte c (u ++ newline ∷ []) ≡ c ∷ (u ++ newline ∷ [])
    longer [] = refl
    longer (d ∷ u) = refl

-- What is kept is complete.
pub complete_lines-Complete : (s : Bytes) → Complete (complete_lines s)
unfolding complete_lines
complete_lines-Complete [] = refl
complete_lines-Complete (c ∷ s) = kept (complete_lines s) (complete_lines-Complete s)
  where
    kept : (u : Bytes) → Complete u → Complete (keep_byte c u)
    kept [] h = elim (Bool-cases (c == newline)) [ inl e ↦ rw (e, e) | inr e ↦ rw e ]
    kept (d ∷ u) h = ap (λ v. keep_byte c v) h

cons_first-append :
    (c : ℕ) (xs ys : List Bytes) → xs ≢ [] → cons_first c (xs ++ ys) ≡ cons_first c xs ++ ys
cons_first-append c [] ys p = absurd (p refl)
cons_first-append c (x ∷ xs) ys p = refl

some_first : (c : ℕ) (xs : List Bytes) → cons_first c xs ≢ []
some_first c [] e = cc e
some_first c (x ∷ xs) e = cc e

some_line : (c : ℕ) (s : Bytes) → lines (c ∷ s) ≢ []
unfolding lines
some_line c [] e = ground (arith, some_first c [])
some_line c (d ∷ s) e = elim (Bool-cases (c == newline)) [
  | inl t ↦ cc (rw t at e)
  | inr t ↦ elim (Bool-cases ((c == 13) && (d == newline))) [
    | inl t' ↦ some_line d s (rw (t, t') at e)
    | inr t' ↦ some_first c (lines (d ∷ s)) (rw (t, t') at e)
  ]
]

pub lines-append : (s t : Bytes) → Complete s → lines (s ++ t) ≡ lines s ++ lines t
unfolding lines
lines-append [] t h = refl
lines-append (c ∷ []) t h = rw (last-Complete c h)
lines-append (c ∷ d ∷ s) t h =
    let rest = lines-append (d ∷ s) t (behind-Complete c d s h) in
    elim (Bool-cases (c == newline)) [
      | inl e ↦ rw e (ap (λ l. [] ∷ l) rest)
      | inr e ↦ elim (Bool-cases ((c == 13) && (d == newline))) [
        | inl e' ↦ rw (e, e') rest
        | inr e' ↦
            rw (e, e')
              (ap (λ l. cons_first c l) rest ∙ cons_first-append c _ (lines t) (some_line d s))
      ]
    ]
