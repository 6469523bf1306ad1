-- ===== src/Rep/Bag/Tests.antt =====
-- The properties of the bag at concrete inputs.
use mathlib.Core.List.{Perm}
use np2ptp.Prelude.{
  ◌≡◌, ◌≤◌, refl, List, [], ◌∷◌, ◌++◌, length, true, false, ◌⊎◌, codes, All, arith, min, eq_bytes,
}
use np2ptp.Prelude.Sort.{sort}
use np2ptp.Prelude.Sort
use np2ptp.Rep.Receipt.{Receipt}
use np2ptp.Rep.Bag.{eq_receipt, contains, insert}
use np2ptp.Rep.Bag.NoRepeats.{Distinct, insert-Distinct}
use np2ptp.Rep.Bag.Kept.{IsBag, insert-IsBag, insert-kept}

abbrev small : Receipt
small = record { server = codes "s"; client = codes "a"; bytes = 10; epoch = 1; sig = [] }

abbrev large : Receipt
large = record { server = codes "s"; client = codes "b"; bytes = 99; epoch = 2; sig = [] }

best_first : insert (small ∷ []) large ≡ large ∷ small ∷ []
unfolding insert contains eq_receipt sort Sort.insert eq_bytes
best_first = refl

insert-IsBag_test : IsBag (insert (small ∷ []) large)
insert-IsBag_test = insert-IsBag (small ∷ []) large ((tt, tt), omega arith)

insert-kept_example :
    ((contains (small ∷ []) large ≡ true) × (insert (small ∷ []) large ≡ small ∷ []))
    ⊎ ((contains (small ∷ []) large ≡ false)
        × (dropped : List Receipt) × Perm
            (insert (small ∷ []) large ++ dropped)
            (small ∷ large ∷ [])
        × All (λ kept. All (λ d. d.bytes ≤ kept.bytes) dropped) (insert (small ∷ []) large)
        × (length (insert (small ∷ []) large) ≡ min 50 2))
insert-kept_example = insert-kept (small ∷ []) large

insert-Distinct_test : Distinct (insert (small ∷ []) large)
insert-Distinct_test = insert-Distinct (small ∷ []) large (tt, tt)
