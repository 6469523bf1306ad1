-- ===== src/Prelude/Maps.antt =====
-- A hash map as a list of entries with different keys; `eq` is the keys' equality test.
use mathlib.Core.Path.{◌≡◌, refl, sym, ap, ◌∙◌}
use mathlib.Core.Bool.{Bool, true, false, ◌||◌}
use mathlib.Core.Option.{Option, none, some}
use mathlib.Core.List.{List, [], ◌∷◌}
use mathlib.Core.Logic.{◌↔◌, inl, inr}
use np2ptp.Prelude.Tests.{if◌then◌else◌, Bool-cases}
use np2ptp.Prelude.Lists.{All}

abbrev pub Map : Type 0 → Type 0 → Type 0
Map K V = List (K × V)

module _ {K V : Type 0} (eq : K → K → Bool) where
  unfoldable pub lookup : Map K V → K → Option V
  lookup [] key = none
  lookup ((k, v) ∷ m) key = let rest = lookup m key in if eq k key then some v else rest

  unfoldable pub insert : Map K V → K → V → Map K V
  insert [] key value = (key, value) ∷ []
  insert ((k, v) ∷ m) key value =
      let rest = insert m key value in if eq k key then (k, value) ∷ m else (k, v) ∷ rest

  abbrev pub is_some : Option V → Bool
  is_some none = false
  is_some (some v) = true

  abbrev pub contains : Map K V → K → Bool
  contains m key = is_some (lookup m key)

  module _ (eq_iff : (a b : K) → (eq a b ≡ true) ↔ (a ≡ b)) where
    pub lookup-insert :
        (m : Map K V) (key : K) (value : V) → lookup (insert m key value) key ≡ some value
    unfolding lookup insert
    lookup-insert [] key value = rw ((eq_iff key key).1 refl)
    lookup-insert ((k, v) ∷ m) key value = elim (Bool-cases (eq k key)) [
      | inl e ↦ rw (e, e)
      | inr e ↦ rw (e, e) (lookup-insert m key value)
    ]

    -- What stands under another key does not change.
    pub lookup-insert_other :
        (m : Map K V) (key other : K) (value : V)
        → eq key other ≡ false
        → lookup (insert m key value) other ≡ lookup m other
    unfolding lookup insert
    lookup-insert_other [] key other value differ = rw differ
    lookup-insert_other ((k, v) ∷ m) key other value differ = elim (Bool-cases (eq k key)) [
      | inl e ↦
          let same : k ≡ key = (eq_iff k key).0 e in
          let apart : eq k other ≡ false = ap (λ x. eq x other) same ∙ differ in rw (e, apart)
      | inr e ↦ rw (e, lookup-insert_other m key other value differ)
    ]

    pub contains-insert :
        (m : Map K V) (key other : K) (value : V)
        → contains (insert m key value) other ≡ (eq key other || contains m other)
    contains-insert m key other value = elim (Bool-cases (eq key other)) [
      | inl e ↦ rw e (
          ap is_some (
            ap (λ k. lookup (insert m key value) k) (sym ((eq_iff key other).0 e))
            ∙ lookup-insert m key value))
      | inr e ↦ rw e (ap is_some (lookup-insert_other m key other value e))
    ]

  -- What holds of each entry holds of the one that is found, and of those after an insertion.
  pub All-insert :
      (P : K × V → Type 0) (m : Map K V) (key : K) (value : V)
      → ((k : K) → eq k key ≡ true → P (k, value))
      → P (key, value)
      → All P m
      → All P (insert m key value)
  unfolding insert
  All-insert P [] key value same p h = (p, tt)
  All-insert P ((k, v) ∷ m) key value same p (q, h) = elim (Bool-cases (eq k key)) [
    | inl e ↦ rw e (same k e, h)
    | inr e ↦ rw e (q, All-insert P m key value same p h)
  ]

  pub All-lookup :
      (P : K × V → Type 0) (m : Map K V) (key : K) (value : V)
      → ((k : K) → eq k key ≡ true → P (k, value) → P (key, value))
      → lookup m key ≡ some value
      → All P m
      → P (key, value)
  unfolding lookup
  All-lookup P [] key value same e h = cc e
  All-lookup P ((k, v) ∷ m) key value same e (q, h) = elim (Bool-cases (eq k key)) [
    | inl t ↦ let here : v ≡ value = cc (rw t at e) in same k t (rw here at q)
    | inr t ↦ All-lookup P m key value same (rw t at e) h
  ]

-- `HashMap::remove`
module _ {K V : Type 0} (eq : K → K → Bool) where
  unfoldable pub remove : Map K V → K → Map K V
  remove [] key = []
  remove ((k, v) ∷ m) key = let rest = remove m key in if eq k key then m else (k, v) ∷ rest

  pub lookup-remove_other :
      (m : Map K V) (key other : K)
      → ((k : K) → eq k key ≡ true → eq k other ≡ false)
      → lookup eq (remove m key) other ≡ lookup eq m other
  unfolding remove lookup
  lookup-remove_other [] key other differ = refl
  lookup-remove_other ((k, v) ∷ m) key other differ = elim (Bool-cases (eq k key)) [
    | inl e ↦ rw (e, differ k e)
    | inr e ↦ rw (e, lookup-remove_other m key other differ)
  ]
