-- ===== src/Prelude/Runs.antt =====
-- Code that may fail and that calls a closure or a store with state of its own: what was done to
-- the state before an error stays done.
use mathlib.Core.Path.{◌≡◌, refl}
use np2ptp.Prelude.Results.{Result, ok, err}

abbrev pub Run {ℓ κ ι} : Type ℓ → Type κ → Type ι → Type (ℓ ⊔ κ ⊔ ι)
Run S E A = S → Result E A × S

module _ {ℓ κ ι} {S : Type ℓ} {E : Type κ} {A : Type ι} where
  abbrev pub pure : A → Run S E A
  pure a s = (ok a, s)

  -- A step that has no use for the state.
  abbrev pub lift : Result E A → Run S E A
  lift r s = (r, s)

module _ {ℓ κ ι ι'} {S : Type ℓ} {E : Type κ} {A : Type ι} {B : Type ι'} where
  abbrev pub carry : Result E A → (A → Run S E B) → S → Result E B × S
  carry (ok a) f s = f a s
  carry (err e) f s = (err e, s)

  infixl 5 ◌>>=◌ ◌>>◌
  abbrev pub ◌>>=◌ : Run S E A → (A → Run S E B) → Run S E B
  ◌>>=◌ m f s = let (r, s') = m s in carry r f s'

  abbrev pub ◌>>◌ : Run S E A → Run S E B → Run S E B
  m >> n = m >>= λ _. n

  -- A successful run of two steps is a successful run of each.
  pub bind-eq-ok :
      (m : Run S E A) (f : A → Run S E B) (s : S) (b : B)
      → ((m >>= f) s).0 ≡ ok b
      → (a : A) × ((m s).0 ≡ ok a) × ((f a (m s).1).0 ≡ ok b)
  bind-eq-ok m f s b = split (m s).0 (m s).1
    where
      split :
          (r : Result E A) (s' : S)
          → (carry r f s').0 ≡ ok b
          → (a : A) × (r ≡ ok a) × ((f a s').0 ≡ ok b)
      split (ok a) s' h = (a, refl, h)
      split (err e) s' h = cc

  -- The result of two steps, the first of which succeeds.
  pub bind-of_ok :
      (m : Run S E A) (f : A → Run S E B) (s : S) (a : A)
      → (m s).0 ≡ ok a
      → ((m >>= f) s).0 ≡ (f a (m s).1).0
  bind-of_ok m f s a = split (m s).0 (m s).1
    where
      split : (r : Result E A) (s' : S) → r ≡ ok a → (carry r f s').0 ≡ (f a s').0
      split (ok b) s' h = cc h
      split (err e) s' h = cc h
