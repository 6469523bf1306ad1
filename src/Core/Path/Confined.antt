-- ===== src/Core/Path/Confined.antt =====
-- An accepted path leads to a file under the directory that it is joined to.
use mathlib.Core.List.{foldl}
use np2ptp.Prelude.{
  ℕ, suc, ◌+◌, ◌≡◌, ◌<◌, sym, ◌∙◌, refl, ap, List, [], ◌∷◌, ◌++◌, append_assoc, append-nil, length,
  Bool, true, false, not, ◌||◌, All, Bytes, eq_bytes, Result, ok, guard, bind-eq-ok, arith,
}
use np2ptp.Core.Path.{
  PathFlaw, Component, root_dir, cur_dir, parent_dir, normal, components, contains_byte, ends_with,
  is_windows_reserved_device, check_component, check_components, validate_relative_path,
}

abbrev pub drop_last : List Bytes → List Bytes
drop_last [] = []
drop_last (name ∷ []) = []
drop_last (name ∷ other ∷ names) = name ∷ drop_last (other ∷ names)

-- Where a component leads from a directory, which is the list of the names on the way to it.
abbrev pub enter : List Bytes → Component → List Bytes
enter dir root_dir = []
enter dir cur_dir = dir
enter dir parent_dir = drop_last dir
enter dir (normal name) = dir ++ name ∷ []

-- `dir.join(path)`
abbrev pub join : List Bytes → Bytes → List Bytes
join dir path = foldl enter dir (components path)

abbrev pub Ordinary : Bytes → Type 0
Ordinary name =
    (contains_byte 58 name ≡ false)
    × (ends_with 46 name ≡ false)
    × (ends_with 32 name ≡ false)
    × (is_windows_reserved_device name ≡ false)

guard-ok : (test : Bool) (e : PathFlaw) → guard (not test) e ≡ ok tt → test ≡ false
guard-ok true e h = cc h
guard-ok false e h = refl

abbrev the_count : ℕ → Result PathFlaw ℕ
the_count n = ok n

neither : (a b : Bool) → (a || b) ≡ false → (a ≡ false) × (b ≡ false)
neither true b h = cc h
neither false b h = (refl, h)

counted : (a b : ℕ) → the_count a ≡ ok b → b ≡ a
counted a b h = cc h

check_component-ok :
    (c : Component) → check_component c ≡ ok tt → (name : Bytes) × (c ≡ normal name) × Ordinary name
unfolding check_component
check_component-ok (normal name) h =
    let (_, colon, h') = bind-eq-ok (guard (not (contains_byte 58 name)) _) _ h in
    let (_, ends, device) =
      bind-eq-ok (guard (not (ends_with 46 name || ends_with 32 name)) _) _ h' in
    let (dot, space) = neither _ _ (guard-ok _ _ ends) in
    (name, refl, (guard-ok _ _ colon, dot, space, guard-ok _ _ device))
check_component-ok root_dir h = cc h
check_component-ok cur_dir h = cc h
check_component-ok parent_dir h = cc h

check_components-ok :
    (count : ℕ) (cs : List Component) (total : ℕ) (dir : List Bytes)
    → check_components count cs ≡ ok total
    → (names : List Bytes) × (foldl enter dir cs ≡ dir ++ names)
      × All Ordinary names
      × (total ≡ count + length names)
unfolding check_components
check_components-ok count [] total dir h =
    ([], sym (append-nil dir), tt, omega (arith, counted count total h))
check_components-ok count (c ∷ cs) total dir h =
    let (_, checked, rest) = bind-eq-ok (check_component c) _ h in
    let (name, is_normal, ordinary) = check_component-ok c checked in
    let (names, joined, all, sum) = check_components-ok (suc count) cs total (enter dir c) rest in
    (
      name ∷ names,
      joined ∙ ap (λ k. enter dir k ++ names) is_normal ∙ append_assoc dir (name ∷ []) names,
      (ordinary, all),
      omega (arith, sum),
    )

-- A path that `validate_relative_path` accepts, joined to any directory, leads to a place under that
-- directory: to the directory followed by one name or more, each without a colon, not ending with a
-- dot or a space, and no reserved device name.
pub validate_relative_path_confined :
    (path : Bytes) (dir : List Bytes)
    → validate_relative_path path ≡ ok tt
    → (names : List Bytes) × (join dir path ≡ dir ++ names)
      × (0 < length names)
      × All Ordinary names
unfolding validate_relative_path
validate_relative_path_confined path dir h =
    let (_, _, h₁) = bind-eq-ok (guard (not (eq_bytes path [])) _) _ h in
    let (_, _, h₂) = bind-eq-ok (guard (not (contains_byte 92 path)) _) _ h₁ in
    let (count, checked, some_file) = bind-eq-ok (check_components 0 (components path)) _ h₂ in
    let (names, joined, all, sum) = check_components-ok 0 (components path) count dir checked in
    (names, joined, ground (arith, sum, guard-ok _ _ some_file), all)
