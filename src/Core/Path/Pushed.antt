-- ===== src/Core/Path/Pushed.antt =====
-- Pushing the pieces between the slashes of an accepted path leads to where joining it leads.
use mathlib.Core.List.{foldl}
use np2ptp.Prelude.{
  ℕ, ◌≡◌, ◌≢◌, refl, sym, ap, ◌∙◌, List, [], ◌∷◌, ◌==◌, ==_iff, true, false, not, ◌||◌, Bool-cases,
  inl, inr, All, Bytes, codes, eq_bytes, ok, guard-eq-ok,
}
use np2ptp.Core.Path.{
  PathFlaw, slash, cons_first, split_on, body, front, components, contains_byte, check_component,
  check_components, validate_relative_path,
}
use np2ptp.Core.Path.Confined.{enter, join}

abbrev pub SlashFree : Bytes → Type 0
SlashFree piece = All (λ b. b ≢ slash) piece

split_on-SlashFree : (s : Bytes) → All SlashFree (split_on slash s)
unfolding split_on
split_on-SlashFree [] = (tt, tt)
split_on-SlashFree (b ∷ bs) = elim (Bool-cases (b == slash)) [
  | inl e ↦ rw e (tt, split_on-SlashFree bs)
  | inr e ↦
      rw e
        (longer (split_on slash bs) (λ t. other e ((==_iff b slash).1 t)) (split_on-SlashFree bs))
]
  where
    other : (b == slash) ≡ false → (b == slash) ≢ true
    other e t = cc (e, t)

    longer :
        (pieces : List Bytes)
        → b ≢ slash
        → All SlashFree pieces
        → All SlashFree (cons_first b pieces)
    longer [] p h = ((p, tt), tt)
    longer (piece ∷ pieces) p (q, h) = ((p, q), h)

pub split_on_whole : (piece : Bytes) → SlashFree piece → split_on slash piece ≡ piece ∷ []
unfolding split_on
split_on_whole [] h = refl
split_on_whole (b ∷ bs) (other, h) = elim (Bool-cases (b == slash)) [
  | inl e ↦ absurd (other ((==_iff b slash).0 e))
  | inr e ↦ rw (e, split_on_whole bs h)
]

foldl-front :
    (dir : List Bytes) (pieces : List Bytes)
    → foldl enter dir (front pieces) ≡ foldl enter dir (body pieces)
unfolding front body
foldl-front dir [] = refl
foldl-front dir (piece ∷ pieces) = elim (Bool-cases (eq_bytes piece (codes "."))) [
  | inl e ↦ elim (Bool-cases (eq_bytes piece [])) [ inl k ↦ rw (e, k) | inr k ↦ rw (e, k) ]
  | inr e ↦ rw e
]

pub join-body :
    (dir : List Bytes) (piece : Bytes)
    → SlashFree piece
    → join dir piece ≡ foldl enter dir (body (piece ∷ []))
unfolding components body eq_bytes
join-body dir [] h = refl
join-body dir (b ∷ bs) (other, h) = elim (Bool-cases (b == slash)) [
  | inl e ↦ absurd (other ((==_iff b slash).0 e))
  | inr e ↦ rw (e, split_on_whole (b ∷ bs) (other, h)) (foldl-front dir ((b ∷ bs) ∷ []))
]

foldl-body :
    (dir : List Bytes) (piece : Bytes) (pieces : List Bytes)
    → foldl enter dir (body (piece ∷ pieces))
      ≡ foldl enter (foldl enter dir (body (piece ∷ []))) (body pieces)
unfolding body
foldl-body dir piece pieces = elim (Bool-cases (eq_bytes piece [] || eq_bytes piece (codes "."))) [
  | inl e ↦ rw e
  | inr e ↦ elim (Bool-cases (eq_bytes piece (codes ".."))) [
    | inl k ↦ rw (e, k)
    | inr k ↦ rw (e, k)
  ]
]

foldl-join :
    (dir : List Bytes) (pieces : List Bytes)
    → All SlashFree pieces
    → foldl join dir pieces ≡ foldl enter dir (body pieces)
unfolding body
foldl-join dir [] h = refl
foldl-join dir (piece ∷ pieces) (p, h) =
    ap (λ d. foldl join d pieces) (join-body dir piece p)
    ∙ foldl-join (foldl enter dir (body (piece ∷ []))) pieces h
    ∙ sym (foldl-body dir piece pieces)

-- A path that is accepted does not begin with a slash.
relative : (b : ℕ) (bs : Bytes) → validate_relative_path (b ∷ bs) ≡ ok tt → (b == slash) ≡ false
unfolding validate_relative_path components check_components check_component
relative b bs h = elim (Bool-cases (b == slash)) [
  | inr e ↦ e
  | inl e ↦
      let (_, h₁) = guard-eq-ok (not (eq_bytes (b ∷ bs) [])) PathFlaw.empty_path _ h in
      let (_, h₂) = guard-eq-ok (not (contains_byte 92 (b ∷ bs))) PathFlaw.backslash _ h₁ in
      cc (rw e at h₂)
]

pub join-validate_relative_path :
    (path : Bytes) (dir : List Bytes)
    → validate_relative_path path ≡ ok tt
    → foldl join dir (split_on slash path) ≡ join dir path
unfolding split_on components
join-validate_relative_path [] dir h = refl
join-validate_relative_path (b ∷ bs) dir h =
    foldl-join dir (split_on slash (b ∷ bs)) (split_on-SlashFree (b ∷ bs))
    ∙ sym (foldl-front dir (split_on slash (b ∷ bs)))
    ∙ rw (relative b bs h)
