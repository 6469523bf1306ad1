-- ===== src/Node/Output.antt =====
-- crates/np2ptp-node/src/lib.rs: where the client writes, `sanitize_output_name` and `write_tree`.
use mathlib.Core.List.{foldl}
use np2ptp.Prelude.{
  ℕ, zero, suc, ◌≤◌, ◌<◌, ◌≡◌, refl, sym, ap, ◌∙◌, Option, none, some, List, [], ◌∷◌, ◌++◌, take,
  drop, length, length-append, leb, ◌==◌, ==_iff, Bool, false, ◌&&◌, ◌||◌, Bool-cases, inl, inr,
  if◌then◌else◌, All, All-append, ◌⊎◌, Bytes, codes, eq_bytes, Result, ok, err, arith,
}
use np2ptp.Prelude.Runs.{Run, pure, lift, ◌>>◌}
use np2ptp.Core.Path.{PathFlaw, slash, split_on, body, one_of, validate_relative_path}
use np2ptp.Core.Path.Confined.{join, drop_last, validate_relative_path_confined}
use np2ptp.Core.Path.Pushed.{SlashFree, join-body, join-validate_relative_path}
use np2ptp.Store.Tree.{Written}
use np2ptp.Store.Tree.Confined.{Below}
use np2ptp.Node.{NodeError, unsafe_path}

-- The characters of `char::is_whitespace` as UTF-8, by the number of their bytes.
abbrev pub spaces_of_two : List Bytes
spaces_of_two = (194 ∷ 133 ∷ []) ∷ (194 ∷ 160 ∷ []) ∷ []

abbrev pub spaces_of_three : List Bytes
spaces_of_three =
    (225 ∷ 154 ∷ 128 ∷ [])
    ∷ (226 ∷ 128 ∷ 128 ∷ [])
    ∷ (226 ∷ 128 ∷ 129 ∷ [])
    ∷ (226 ∷ 128 ∷ 130 ∷ [])
    ∷ (226 ∷ 128 ∷ 131 ∷ [])
    ∷ (226 ∷ 128 ∷ 132 ∷ [])
    ∷ (226 ∷ 128 ∷ 133 ∷ [])
    ∷ (226 ∷ 128 ∷ 134 ∷ [])
    ∷ (226 ∷ 128 ∷ 135 ∷ [])
    ∷ (226 ∷ 128 ∷ 136 ∷ [])
    ∷ (226 ∷ 128 ∷ 137 ∷ [])
    ∷ (226 ∷ 128 ∷ 138 ∷ [])
    ∷ (226 ∷ 128 ∷ 168 ∷ [])
    ∷ (226 ∷ 128 ∷ 169 ∷ [])
    ∷ (226 ∷ 128 ∷ 175 ∷ [])
    ∷ (226 ∷ 129 ∷ 159 ∷ [])
    ∷ (227 ∷ 128 ∷ 128 ∷ [])
    ∷ []

abbrev pub is_ascii_space : Bytes → Bool
is_ascii_space [] = false
is_ascii_space (c ∷ s) = (leb 9 c && leb c 13) || (c == 32)

-- The bytes of the white space at the front, and 0 where there is none.
unfoldable pub space_width : Bytes → ℕ
space_width s =
    if is_ascii_space s
    then 1
    else if one_of (take 2 s) spaces_of_two
    then 2
    else if one_of (take 3 s) spaces_of_three
    then 3
    else 0

-- `trim`: a character takes a byte or more, and no white space begins inside another character.
unfoldable pub trim_start : ℕ → Bytes → Bytes
trim_start zero s = s
trim_start (suc fuel) s =
    let w = space_width s in let rest = trim_start fuel (drop w s) in if w == 0 then s else rest

unfoldable pub trim_end : Bytes → Bytes
trim_end [] = []
trim_end (c ∷ s) =
    let rest = trim_end s in
    if eq_bytes (trim_start (suc (length s)) (c ∷ s)) [] then [] else c ∷ rest

abbrev pub trim : Bytes → Bytes
trim s = trim_end (trim_start (length s) s)

abbrev pub is_separator : ℕ → Bool
is_separator c = (c == slash) || (c == b'\\')

-- `rsplit(['/', '\\']).next()`
unfoldable pub has_separator : Bytes → Bool
has_separator [] = false
has_separator (c ∷ s) = let rest = has_separator s in is_separator c || rest

unfoldable pub last_piece : Bytes → Bytes
last_piece [] = []
last_piece (c ∷ s) =
    let rest = last_piece s in if has_separator s then rest else if is_separator c then s else c ∷ s

abbrev pub if_valid : Bytes → Result PathFlaw (Unit {0}) → Option Bytes
if_valid name (ok u) = some name
if_valid name (err flaw) = none

unfoldable pub sanitize_output_name : Bytes → Option Bytes
sanitize_output_name name =
    if eq_bytes (trim name) []
    then none
    else if_valid (last_piece (trim name)) (validate_relative_path (last_piece (trim name)))

abbrev pub or_unsafe : Bytes → Result PathFlaw (Unit {0}) → Result NodeError (Unit {0})
or_unsafe path (ok u) = ok tt
or_unsafe path (err flaw) = err (unsafe_path path)

abbrev pub write_file : List Bytes → Bytes → Run Written NodeError (Unit {0})
write_file dest bytes out = (ok tt, out ++ (dest, bytes) ∷ [])

-- The files that were written so far are the state.
unfoldable pub write_tree : List Bytes → List (Bytes × Bytes) → Run Written NodeError (Unit {0})
write_tree out_dir [] = pure tt
write_tree out_dir ((rel, bytes) ∷ files) = do
  lift (or_unsafe rel (validate_relative_path rel))
  write_file (foldl join out_dir (split_on slash rel)) bytes
  write_tree out_dir files

SlashFree-no_separator : (s : Bytes) → has_separator s ≡ false → SlashFree s
unfolding has_separator
SlashFree-no_separator [] h = tt
SlashFree-no_separator (c ∷ s) h = elim (Bool-cases (c == slash)) [
  | inl e ↦ cc (rw e at h)
  | inr e ↦ elim (Bool-cases (c == b'\\')) [
    | inl k ↦ cc (rw (e, k) at h)
    | inr k ↦ ((λ same. cc ((==_iff c slash).1 same, e)), SlashFree-no_separator s (rw (e, k) at h))
  ]
]

last_piece-SlashFree : (s : Bytes) → SlashFree (last_piece s)
unfolding last_piece
last_piece-SlashFree [] = tt
last_piece-SlashFree (c ∷ s) = elim (Bool-cases (has_separator s)) [
  | inl e ↦ rw e (last_piece-SlashFree s)
  | inr e ↦ elim (Bool-cases (c == slash)) [
    | inl k ↦ rw (e, k) (SlashFree-no_separator s e)
    | inr k ↦ elim (Bool-cases (c == b'\\')) [
      | inl l ↦ rw (e, k, l) (SlashFree-no_separator s e)
      | inr l ↦ rw (e, k, l) ((λ same. cc ((==_iff c slash).1 same, k)), SlashFree-no_separator s e)
    ]
  ]
]

if_valid-some :
    (piece out : Bytes) (r : Result PathFlaw (Unit {0}))
    → if_valid piece r ≡ some out
    → (piece ≡ out) × (r ≡ ok tt)
if_valid-some piece out (ok u) h = (cc h, refl)
if_valid-some piece out (err flaw) h = cc h

drop_last_short : (dir : List Bytes) → length (drop_last dir) ≤ length dir
drop_last_short [] = omega arith
drop_last_short (x ∷ []) = omega arith
drop_last_short (x ∷ y ∷ dir) = omega (arith, drop_last_short (y ∷ dir))

-- A name of one piece that leads further down than its directory leads to itself in the directory.
one_down :
    (dir : List Bytes) (piece : Bytes)
    → SlashFree piece
    → length dir < length (join dir piece)
    → join dir piece ≡ dir ++ piece ∷ []
unfolding body
one_down dir piece free deeper =
    let pushed = join-body dir piece free in
    elim (Bool-cases (eq_bytes piece [] || eq_bytes piece (codes "."))) [
      | inl e ↦
          let stays : join dir piece ≡ dir = pushed ∙ rw e in
          absurd (omega (arith, deeper, ap length stays))
      | inr e ↦ elim (Bool-cases (eq_bytes piece (codes ".."))) [
        | inl k ↦
            let up : join dir piece ≡ drop_last dir = pushed ∙ rw (e, k) in
            absurd (omega (arith, deeper, ap length up, drop_last_short dir))
        | inr k ↦ pushed ∙ rw (e, k)
      ]
    ]

-- A name that is accepted, joined to any directory, is a file of that name right in the directory.
pub sanitize_output_name_lem :
    (name out : Bytes) (dir : List Bytes)
    → sanitize_output_name name ≡ some out
    → join dir out ≡ dir ++ out ∷ []
unfolding sanitize_output_name
sanitize_output_name_lem name out dir h = elim (Bool-cases (eq_bytes (trim name) [])) [
  | inl e ↦ cc (rw e at h)
  | inr e ↦
      let piece = last_piece (trim name) in
      let (same, valid) = if_valid-some piece out (validate_relative_path piece) (rw e at h) in
      let (names, joined, some_name, _) = validate_relative_path_confined piece dir valid in
      let down =
        one_down dir piece (last_piece-SlashFree (trim name))
          (omega (arith, some_name, ap length joined, length-append dir names)) in
      ap (join dir) (sym same) ∙ down ∙ ap (λ p. dir ++ p ∷ []) same
]

or_unsafe-ok :
    (path : Bytes) (r : Result PathFlaw (Unit {0})) → or_unsafe path r ≡ ok tt → r ≡ ok tt
or_unsafe-ok path (ok u) h = refl
or_unsafe-ok path (err flaw) h = cc h

-- Every file that `write_tree` writes is below the output directory, whether it succeeds or fails.
pub write_tree_confined :
    (dir : List Bytes) (files : List (Bytes × Bytes)) (written : Written)
    → All (Below dir) written
    → All (Below dir) (write_tree dir files written).1
unfolding write_tree
write_tree_confined dir [] written h = h
write_tree_confined dir ((rel, bytes) ∷ files) written h =
    elim (Unit-cases (or_unsafe rel (validate_relative_path rel))) [
      | inr (e, refused) ↦ (rw refused h)
      | inl accepted ↦
          let valid = or_unsafe-ok rel (validate_relative_path rel) accepted in
          let (names, joined, some_name, ordinary) =
            validate_relative_path_confined rel dir valid in
          (rw accepted (
            write_tree_confined dir files
              (written ++ (foldl join dir (split_on slash rel), bytes) ∷ [])
              (All-append (Below dir) written _ h (
                (names, join-validate_relative_path rel dir valid ∙ joined, some_name, ordinary),
                tt,
              ))))
    ]
  where
    Unit-cases : (r : Result NodeError (Unit {0})) → (r ≡ ok tt) ⊎ ((e : NodeError) × (r ≡ err e))
    Unit-cases (ok u) = inl refl
    Unit-cases (err e) = inr (e, refl)
