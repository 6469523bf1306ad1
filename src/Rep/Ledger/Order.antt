-- ===== src/Rep/Ledger/Order.antt =====
-- Which peers `rank_for_unchoke` picks.
use mathlib.Core.List.{Perm}
use np2ptp.Prelude.{
  ℕ, ◌≡◌, sym, ap, ◌∙◌, min, List, ◌++◌, take, drop, length, length-take, take-append-drop, Bool,
  true, false, Bool-cases, if◌then◌else◌, ◌⊎◌, inl, inr, All, All-map, arith,
}
use np2ptp.Prelude.Sort.{sort, length-sort, Sorted, sort-Sorted, sort-Perm, take-above, take-Sorted}
use np2ptp.Rep.Ledger.Int.{
  ℤ, leb_int, eq_int, leb_int_total, leb_int_trans, eq_int-eq, eq_int_refl, leb_int_antisymm,
}
use np2ptp.Rep.Ledger.{Key, Ledger, reputation, ranks_before, rank_for_unchoke}

-- The test of `ranks_before` on the reputations `x` and `y`, and what stands in its place below.
abbrev Leads : ℤ → ℤ → Bool → Type 0
Leads x y k = (leb_int y x ≡ true) × (x ≡ y → k ≡ true)

leb_int_refl : (z : ℤ) → leb_int z z ≡ true
leb_int_refl z = elim (leb_int_total z z) [ inl p ↦ p | inr p ↦ p ]

differ : (x y : ℤ) → x ≡ y → eq_int y x ≡ false → ⊥
differ x y same e = cc (eq_int_refl y, ap (λ z. eq_int y z) same, e)

leads : (x y : ℤ) (k : Bool) → (if eq_int y x then k else leb_int y x) ≡ true → Leads x y k
leads x y k h = elim (Bool-cases (eq_int y x)) [
  | inl e ↦ let same : y ≡ x = eq_int-eq y x e in (rw same (leb_int_refl x), λ _. rw e at h)
  | inr e ↦ (rw e at h, λ same. absurd (differ x y same e))
]

lead_test : (x y : ℤ) (k : Bool) → Leads x y k → (if eq_int y x then k else leb_int y x) ≡ true
lead_test x y k (below, tie) = elim (Bool-cases (eq_int y x)) [
  | inl e ↦ rw e (tie (sym (eq_int-eq y x e)))
  | inr e ↦ rw e below
]

lead_total : (x y : ℤ) (k l : Bool) → (k ≡ true) ⊎ (l ≡ true) → Leads x y k ⊎ Leads y x l
lead_total x y k l tie = elim (Bool-cases (eq_int y x)) [
  | inl e ↦
      let same : y ≡ x = eq_int-eq y x e in
      elim tie [
        | inl p ↦ inl (rw same (leb_int_refl x), λ _. p)
        | inr p ↦ inr (rw same (leb_int_refl x), λ _. p)
      ]
  | inr e ↦ elim (leb_int_total y x) [
    | inl p ↦ inl (p, λ same. absurd (differ x y same e))
    | inr p ↦ inr (p, λ same. absurd (differ x y (sym same) e))
  ]
]

module _ {K : Type 0} (key : Key K) (ledger : Ledger K) where
  -- `a` has the higher reputation, or the same one and the lower key.
  abbrev pub Ahead : K → K → Type 0
  Ahead a b =
      (leb_int (reputation key ledger b) (reputation key ledger a) ≡ true)
      × (reputation key ledger a ≡ reputation key ledger b → key.le a b ≡ true)

  ranks_before-Ahead : (a b : K) → ranks_before key ledger a b ≡ true → Ahead a b
  unfolding ranks_before
  ranks_before-Ahead a b h =
      leads (reputation key ledger a) (reputation key ledger b) (key.le a b) h

  Ahead-ranks_before : (a b : K) → Ahead a b → ranks_before key ledger a b ≡ true
  unfolding ranks_before
  Ahead-ranks_before a b h =
      lead_test (reputation key ledger a) (reputation key ledger b) (key.le a b) h

  ranks_before_total :
      (a b : K) → (ranks_before key ledger a b ≡ true) ⊎ (ranks_before key ledger b a ≡ true)
  ranks_before_total a b =
      elim (lead_total (reputation key ledger a) (reputation key ledger b) (key.le a b) (key.le b a)
        (key.le_total a b)) [
          | inl p ↦ inl (Ahead-ranks_before a b p)
          | inr p ↦ inr (Ahead-ranks_before b a p)
        ]

  ranks_before_trans :
      (a b c : K)
      → ranks_before key ledger a b ≡ true
      → ranks_before key ledger b c ≡ true
      → ranks_before key ledger a c ≡ true
  ranks_before_trans a b c h k =
      let (ab, tie_ab) = ranks_before-Ahead a b h in
      let (bc, tie_bc) = ranks_before-Ahead b c k in
      let x = reputation key ledger a in
      let y = reputation key ledger b in
      let z = reputation key ledger c in
      Ahead-ranks_before a c (
        leb_int_trans z y x bc ab,
        λ same.
            let mid : x ≡ y = leb_int_antisymm x y (rw same bc) ab in
            key.le_trans a b c (tie_ab mid) (tie_bc (sym mid ∙ same)),
      )

  -- `rank_for_unchoke` splits the candidates, each as often as it is listed, into those it returns,
  -- in the order of their reputation and their keys, and the others. It returns `slots` of them, or
  -- all if there are fewer, and each is ahead of each of the others.
  pub rank_for_unchoke_best :
      (candidates : List K) (slots : ℕ)
      → (others : List K) × Perm (rank_for_unchoke key ledger candidates slots ++ others) candidates
        × (length (rank_for_unchoke key ledger candidates slots) ≡ min slots (length candidates))
        × Sorted (ranks_before key ledger) (rank_for_unchoke key ledger candidates slots)
        × All (λ a. All (λ b. Ahead a b) others) (rank_for_unchoke key ledger candidates slots)
  unfolding rank_for_unchoke
  rank_for_unchoke_best candidates slots =
      let before = ranks_before key ledger in
      let all = sort before candidates in
      let ordered = sort-Sorted before ranks_before_total ranks_before_trans candidates in
      (
        drop slots all,
        rw (take-append-drop slots all) (sort-Perm before candidates),
        omega (arith, length-take slots all, length-sort before candidates),
        take-Sorted before slots all ordered,
        All-map _ _ (take slots all)
            (λ a. All-map _ _ (drop slots all) (λ b. ranks_before-Ahead a b))
            (take-above before slots all ordered),
      )
