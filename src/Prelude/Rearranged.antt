-- ===== src/Prelude/Rearranged.antt =====
-- Sorting a list whose elements the order tells apart, and the same list in another order.
use mathlib.Core.Path.{◌≡◌, refl, ap, ◌∙◌, subst}
use mathlib.Core.Logic.{◌⊎◌}
use mathlib.Core.Bool.{Bool, true, false}
use mathlib.Core.List.{List, [], ◌∷◌, ◌++◌, Permᴰ}
use native.Mathlib.Omega.{arith}
use np2ptp.Prelude.Lists.{All, All-append}
use np2ptp.Prelude.Arranged.{All-Permᴰ}
use np2ptp.Prelude.Sort.{insert, sort}

module _ {A : Type 0} (Apart : A → A → Type 0) where
  abbrev pub PairwiseApart : List A → Type 0
  PairwiseApart [] = Unit
  PairwiseApart (x ∷ xs) = All (Apart x) xs × PairwiseApart xs

  All-split : (P : A → Type 0) (xs ys : List A) → All P (xs ++ ys) → All P xs × All P ys
  All-split P [] ys h = (tt, h)
  All-split P (x ∷ xs) ys (px, h) = let (l, r) = All-split P xs ys h in ((px, l), r)

  pub PairwiseApart-append :
      (xs ys : List A)
      → PairwiseApart xs
      → PairwiseApart ys
      → All (λ x. All (Apart x) ys) xs
      → PairwiseApart (xs ++ ys)
  PairwiseApart-append [] ys _ q _ = q
  PairwiseApart-append (x ∷ xs) ys (a, p) q (b, h) =
      (All-append _ xs ys a b, PairwiseApart-append xs ys p q h)

  module _ (symmetric : (x y : A) → Apart x y → Apart y x) where
    PairwiseApart-Permᴰ : {xs ys : List A} → Permᴰ xs ys → PairwiseApart xs → PairwiseApart ys
    PairwiseApart-Permᴰ Permᴰ.nil h = tt
    PairwiseApart-Permᴰ (Permᴰ.cons {b = b} {l₁ = xs} e p) (a, h) =
        (All-Permᴰ (Apart b) p (subst (λ z. All (Apart z) xs) e a), PairwiseApart-Permᴰ p h)
    PairwiseApart-Permᴰ (Permᴰ.swap {a = a} {b = b} {a' = a'} {b' = b'} {l = l} e f)
          ((ab, al), (bl, h)) =
        (
          (
            subst (λ z. Apart z b') f (subst (λ z. Apart b z) e (symmetric a b ab)),
            subst (λ z. All (Apart z) l) f bl,
          ),
          (subst (λ z. All (Apart z) l) e al, h),
        )
    PairwiseApart-Permᴰ (Permᴰ.trans p q) h = PairwiseApart-Permᴰ q (PairwiseApart-Permᴰ p h)

    module _ (le : A → A → Bool) (total : (x y : A) → (le x y ≡ true) ⊎ (le y x ≡ true))
        (transitive : (x y z : A) → le x y ≡ true → le y z ≡ true → le x z ≡ true)
        (apart : (x y : A) → Apart x y → le x y ≡ true → le y x ≡ false) where
      insert_comm :
          (x y : A) (zs : List A)
          → Apart x y
          → insert le x (insert le y zs) ≡ insert le y (insert le x zs)
      unfolding insert
      insert_comm x y [] p = ground (arith, total x y, apart x y p, apart y x (symmetric x y p))
      insert_comm x y (z ∷ zs) p = ground (
        arith,
        total x y,
        apart x y p,
        apart y x (symmetric x y p),
        transitive x y z,
        transitive y x z,
        insert_comm x y zs p,
      )

      pub sort-Permᴰ : {xs ys : List A} → Permᴰ xs ys → PairwiseApart xs → sort le xs ≡ sort le ys
      unfolding sort
      sort-Permᴰ Permᴰ.nil h = refl
      sort-Permᴰ (Permᴰ.cons {a = a} {l₂ = ys} e p) (_, h) =
          ap (insert le a) (sort-Permᴰ p h) ∙ ap (λ z. insert le z (sort le ys)) e
      sort-Permᴰ (Permᴰ.swap {a = a} {b = b} {a' = a'} {l = l} e f) ((ab, _), _) =
          insert_comm a b (sort le l) ab
          ∙ ap (λ z. insert le z (insert le a (sort le l))) f
          ∙ ap (λ z. insert le a' (insert le z (sort le l))) e
      sort-Permᴰ (Permᴰ.trans p q) h = sort-Permᴰ p h ∙ sort-Permᴰ q (PairwiseApart-Permᴰ p h)
