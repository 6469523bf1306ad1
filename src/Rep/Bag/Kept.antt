-- ===== src/Rep/Bag/Kept.antt =====
-- What `insert` keeps: at most fifty receipts, the best ones first.
use mathlib.Core.List.{Perm}
use np2ptp.Prelude.{
  ◌+◌, ◌≤◌, ◌≡◌, refl, List, [], ◌∷◌, ◌++◌, take, drop, length, length-take, length-append,
  take-append-drop, true, false, Bool-cases, ◌⊎◌, inl, inr, All, All-map, arith, min,
}
use np2ptp.Prelude.Sort.{sort, length-sort, Sorted, sort-Sorted, sort-Perm, take-above, take-Sorted}
use np2ptp.Rep.Receipt.{Receipt}
use np2ptp.Rep.Bag.{max_receipts, contains, by_bytes, insert}

abbrev pub IsBag : List Receipt → Type 0
IsBag receipts = Sorted by_bytes receipts × (length receipts ≤ max_receipts)

by_bytes_total : (r q : Receipt) → (by_bytes r q ≡ true) ⊎ (by_bytes q r ≡ true)
by_bytes_total r q = ground arith

by_bytes_trans : (r q p : Receipt) → by_bytes r q ≡ true → by_bytes q p ≡ true → by_bytes r p ≡ true
by_bytes_trans r q p h k = ground arith

-- Inserting keeps the receipts sorted, those for the most bytes first, and at most fifty.
pub insert-IsBag :
    (receipts : List Receipt) (r : Receipt) → IsBag receipts → IsBag (insert receipts r)
unfolding insert
insert-IsBag receipts r (sorted, few) = elim (Bool-cases (contains receipts r)) [
  | inl held ↦ rw held (sorted, few)
  | inr fresh ↦
      let all = sort by_bytes (receipts ++ r ∷ []) in
      rw fresh (
        take-Sorted by_bytes max_receipts all
            (sort-Sorted by_bytes by_bytes_total by_bytes_trans (receipts ++ r ∷ [])),
        omega (arith, length-take max_receipts all),
      )
]

by_bytes-le : (kept d : Receipt) → by_bytes kept d ≡ true → d.bytes ≤ kept.bytes
by_bytes-le kept d h = ground arith

-- What becomes of a receipt that is inserted. Either it is there already and nothing changes, or the
-- old receipts and the new one are, in some order, what is kept and what is dropped: nothing else is
-- lost, each dropped receipt is for at most as many bytes as each kept one, and as many
-- are kept as there are, up to fifty.
pub insert-kept :
    (receipts : List Receipt) (r : Receipt)
    → ((contains receipts r ≡ true) × (insert receipts r ≡ receipts))
      ⊎ ((contains receipts r ≡ false)
          × (dropped : List Receipt) × Perm (insert receipts r ++ dropped) (receipts ++ r ∷ [])
          × All (λ kept. All (λ d. d.bytes ≤ kept.bytes) dropped) (insert receipts r)
          × (length (insert receipts r) ≡ min 50 (length receipts + 1)))
unfolding insert
insert-kept receipts r = elim (Bool-cases (contains receipts r)) [
  | inl held ↦ inl (held, rw held)
  | inr fresh ↦
      let all = sort by_bytes (receipts ++ r ∷ []) in
      let ordered = sort-Sorted by_bytes by_bytes_total by_bytes_trans (receipts ++ r ∷ []) in
      inr (
        rw fresh (
          refl,
          drop max_receipts all,
          rw (take-append-drop max_receipts all) (sort-Perm by_bytes (receipts ++ r ∷ [])),
          All-map _ _ (take max_receipts all)
              (λ kept. All-map _ _ (drop max_receipts all) (by_bytes-le kept))
              (take-above by_bytes max_receipts all ordered),
          omega (
            arith,
            length-take max_receipts all,
            length-sort by_bytes (receipts ++ r ∷ []),
            length-append receipts (r ∷ []),
          ),
        ))
]
