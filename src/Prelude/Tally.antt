-- ===== src/Prelude/Tally.antt =====
-- The sum over a map's values of a number that each has.
use mathlib.Core.Path.{◌≡◌, refl}
use mathlib.Core.Bool.{Bool}
use mathlib.Core.Option.{Option, none, some}
use mathlib.Core.List.{[], ◌∷◌}
use mathlib.Core.Logic.{inl, inr}
use native.Mathlib.Omega.{arith}
use Prim.Native.Nat.{ℕ, ◌+◌}
use np2ptp.Prelude.Tests.{Bool-cases}
use np2ptp.Prelude.Maps.{Map, lookup, insert, remove}

abbrev pub weight : {V : Type 0} → (V → ℕ) → Option V → ℕ
weight weigh none = 0
weight weigh (some v) = weigh v

module _ {K V : Type 0} (weigh : V → ℕ) where
  unfoldable pub tally : Map K V → ℕ
  tally [] = 0
  tally ((k, v) ∷ m) = weigh v + tally m

  module _ (eq : K → K → Bool) where
    pub tally-remove :
        (m : Map K V) (key : K) → tally (remove eq m key) + weight weigh (lookup eq m key) ≡ tally m
    unfolding tally remove lookup
    tally-remove [] key = refl
    tally-remove ((k, v) ∷ m) key = elim (Bool-cases (eq k key)) [
      | inl e ↦ rw e (omega arith)
      | inr e ↦ let rest = tally-remove m key in rw e (omega (arith, rest))
    ]

    pub tally-insert :
        (m : Map K V) (key : K) (value : V)
        → tally (insert eq m key value) + weight weigh (lookup eq m key) ≡ tally m + weigh value
    unfolding tally insert lookup
    tally-insert [] key value = omega arith
    tally-insert ((k, v) ∷ m) key value = elim (Bool-cases (eq k key)) [
      | inl e ↦ rw e (omega arith)
      | inr e ↦ let rest = tally-insert m key value in rw e (omega (arith, rest))
    ]
