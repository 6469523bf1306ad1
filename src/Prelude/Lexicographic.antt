-- ===== src/Prelude/Lexicographic.antt =====
-- The order on strings: `cmp` compares their bytes from the front.
use np2ptp.Prelude.Octets.{Bytes}
use np2ptp.Prelude.Tests.{ltb, ◌==◌, if◌then◌else◌}
use mathlib.Core.Path.{◌≡◌, refl}
use mathlib.Core.Logic.{◌⊎◌, inl, inr}
use mathlib.Core.Bool.{Bool, true, false}
use mathlib.Core.List.{[], ◌∷◌}
use native.Mathlib.Omega.{arith}

unfoldable pub leb_bytes : Bytes → Bytes → Bool
leb_bytes [] t = true
leb_bytes (x ∷ s) [] = false
leb_bytes (x ∷ s) (y ∷ t) = let rest = leb_bytes s t in if x == y then rest else ltb x y

pub leb_bytes_total : (s t : Bytes) → (leb_bytes s t ≡ true) ⊎ (leb_bytes t s ≡ true)
unfolding leb_bytes
leb_bytes_total [] t = inl refl
leb_bytes_total (x ∷ s) [] = inr refl
leb_bytes_total (x ∷ s) (y ∷ t) = ground (arith, leb_bytes_total s t)

pub leb_bytes_trans :
    (s t u : Bytes) → leb_bytes s t ≡ true → leb_bytes t u ≡ true → leb_bytes s u ≡ true
unfolding leb_bytes
leb_bytes_trans [] t u h k = refl
leb_bytes_trans (x ∷ s) [] u h k = cc
leb_bytes_trans (x ∷ s) (y ∷ t) [] h k = cc
leb_bytes_trans (x ∷ s) (y ∷ t) (z ∷ u) h k = ground (arith, leb_bytes_trans s t u)

pub leb_bytes_antisymm : (s t : Bytes) → leb_bytes s t ≡ true → leb_bytes t s ≡ true → s ≡ t
unfolding leb_bytes
leb_bytes_antisymm [] [] h k = refl
leb_bytes_antisymm [] (y ∷ t) h k = cc
leb_bytes_antisymm (x ∷ s) [] h k = cc
leb_bytes_antisymm (x ∷ s) (y ∷ t) h k = ground (arith, leb_bytes_antisymm s t)
