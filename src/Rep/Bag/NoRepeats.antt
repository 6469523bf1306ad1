-- ===== src/Rep/Bag/NoRepeats.antt =====
-- No receipt is kept twice.
use np2ptp.Prelude.{
  ℕ, zero, suc, ◌≡◌, ◌≢◌, sym, List, [], ◌∷◌, ◌++◌, take, true, false, Bool-cases, inl, inr,
  eq_bytes_refl, All, All-append, arith,
}
use np2ptp.Prelude.Sort.{sort, All-sort}
use np2ptp.Prelude.Sort
use np2ptp.Rep.Receipt.{Receipt}
use np2ptp.Rep.Bag.{max_receipts, eq_receipt, contains, by_bytes, insert}

abbrev pub Distinct : List Receipt → Type 0
Distinct [] = Unit
Distinct (x ∷ xs) = All (λ y. x ≢ y) xs × Distinct xs

eq_receipt_refl : (r : Receipt) → eq_receipt r r ≡ true
unfolding eq_receipt
eq_receipt_refl r =
    ground (arith, eq_bytes_refl r.server, eq_bytes_refl r.client, eq_bytes_refl r.sig)

eq_receipt-false : (q r : Receipt) → eq_receipt q r ≡ false → q ≢ r
eq_receipt-false q r e same = cc (rw same at e, eq_receipt_refl r)

fresh-All :
    (receipts : List Receipt) (r : Receipt)
    → contains receipts r ≡ false
    → All (λ q. q ≢ r) receipts
unfolding contains
fresh-All [] r e = tt
fresh-All (q ∷ receipts) r e = elim (Bool-cases (eq_receipt q r)) [
  | inl same ↦ absurd (cc (rw same at e))
  | inr other ↦ (eq_receipt-false q r other, fresh-All receipts r (rw other at e))
]

Distinct-snoc :
    (receipts : List Receipt) (r : Receipt)
    → Distinct receipts
    → All (λ q. q ≢ r) receipts
    → Distinct (receipts ++ r ∷ [])
Distinct-snoc [] r d f = (tt, tt)
Distinct-snoc (q ∷ receipts) r (apart, d) (q_r, f) =
    (All-append _ receipts (r ∷ []) apart (q_r, tt), Distinct-snoc receipts r d f)

insert_sorted-Distinct :
    (x : Receipt) (ys : List Receipt)
    → All (λ y. x ≢ y) ys
    → Distinct ys
    → Distinct (Sort.insert by_bytes x ys)
unfolding Sort.insert
insert_sorted-Distinct x [] apart d = (tt, tt)
insert_sorted-Distinct x (y ∷ ys) (x_y, apart) (y_apart, d) = elim (Bool-cases (by_bytes x y)) [
  | inl e ↦ rw e ((x_y, apart), (y_apart, d))
  | inr e ↦ rw e (
    Sort.All-insert by_bytes _ x ys (λ same. x_y (sym same)) y_apart,
    insert_sorted-Distinct x ys apart d,
  )
]

sort-Distinct : (xs : List Receipt) → Distinct xs → Distinct (sort by_bytes xs)
unfolding sort
sort-Distinct [] d = tt
sort-Distinct (x ∷ xs) (apart, d) =
    insert_sorted-Distinct x (sort by_bytes xs) (All-sort by_bytes _ xs apart) (sort-Distinct xs d)

take-Distinct : (n : ℕ) (xs : List Receipt) → Distinct xs → Distinct (take n xs)
take-Distinct zero xs d = tt
take-Distinct (suc n) [] d = tt
take-Distinct (suc n) (x ∷ xs) (apart, d) =
    (Sort.take-All by_bytes _ n xs apart, take-Distinct n xs d)

-- If no receipt is in the bag twice, none is after an insertion.
pub insert-Distinct :
    (receipts : List Receipt) (r : Receipt) → Distinct receipts → Distinct (insert receipts r)
unfolding insert
insert-Distinct receipts r d = elim (Bool-cases (contains receipts r)) [
  | inl held ↦ rw held d
  | inr fresh ↦ rw fresh (
      take-Distinct max_receipts (sort by_bytes (receipts ++ r ∷ [])) (
        sort-Distinct (receipts ++ r ∷ [])
          (Distinct-snoc receipts r d (fresh-All receipts r fresh))))
]
