-- ===== src/Rep/Ledger/Tests.antt =====
-- The properties of the ledger at concrete inputs.
use mathlib.Core.List.{Perm}
use np2ptp.Prelude.{
  ◌+◌, ◌≤◌, ◌≡◌, ◌≢◌, refl, min, List, [], ◌∷◌, ◌++◌, length, ◌==◌, ltb, Bool, true, false,
  if◌then◌else◌, ◌⊎◌, inl, inr, All, Bytes, eq_bytes, eq_bytes_iff, u64_max, arith,
}
use np2ptp.Prelude.Sort.{sort, Sorted}
use np2ptp.Prelude.Sort
use np2ptp.Rep.Receipt.{Receipt, verify}
use np2ptp.Rep.Receipt.Tests.{toy_ed25519}
use np2ptp.Rep.Receipt.{issue}
use np2ptp.Rep.Ledger.Int.{pos, negsuc, leb_int}
use np2ptp.Rep.Ledger.{
  Counters, Key, Ledger, update, record_received, record_served, credit_receipt, counters, totals,
  reputation, ranks_before, rank_for_unchoke, apply_receipt,
}
use np2ptp.Rep.Ledger.Order.{Ahead, rank_for_unchoke_best}
use np2ptp.Rep.Ledger.Accounts.{
  IsU64, sum_of, reputation_monotone, totals-sum, apply_receipt-credit_receipt,
}

abbrev pub bytes_le : Bytes → Bytes → Bool
bytes_le [] ys = true
bytes_le (x ∷ xs) [] = false
bytes_le (x ∷ xs) (y ∷ ys) = let rest = bytes_le xs ys in if x == y then rest else ltb x y

pub bytes_le_total : (xs ys : Bytes) → (bytes_le xs ys ≡ true) ⊎ (bytes_le ys xs ≡ true)
bytes_le_total [] ys = inl refl
bytes_le_total (x ∷ xs) [] = inr refl
bytes_le_total (x ∷ xs) (y ∷ ys) = ground (arith, bytes_le_total xs ys)

pub bytes_le_trans :
    (xs ys zs : Bytes) → bytes_le xs ys ≡ true → bytes_le ys zs ≡ true → bytes_le xs zs ≡ true
bytes_le_trans [] ys zs h k = refl
bytes_le_trans (x ∷ xs) [] zs h k = cc h
bytes_le_trans (x ∷ xs) (y ∷ ys) [] h k = cc k
bytes_le_trans (x ∷ xs) (y ∷ ys) (z ∷ zs) h k = ground (arith, bytes_le_trans xs ys zs)

abbrev pub ids : Key Bytes
ids = record {
  eq = eq_bytes;
  le = bytes_le;
  eq_iff = eq_bytes_iff;
  le_total = bytes_le_total;
  le_trans = bytes_le_trans;
}

abbrev pub alice : Bytes
alice = 1 ∷ []

abbrev pub bob : Bytes
bob = 2 ∷ []

abbrev pub ledger : Ledger Bytes
ledger =
    (alice, record { served_to_us = 5; we_served = 90; credited_by_receipts = 0 })
    ∷ (bob, record { served_to_us = 7; we_served = 1; credited_by_receipts = 2 })
    ∷ []

abbrev received : Ledger Bytes
received = record_received ids ledger alice 1000

standings : (reputation ids ledger alice ≡ negsuc 84) × (reputation ids ledger bob ≡ pos 8)
unfolding reputation counters eq_bytes
standings = (refl, refl)

bob_first : rank_for_unchoke ids ledger (alice ∷ bob ∷ []) 1 ≡ bob ∷ []
unfolding rank_for_unchoke sort Sort.insert ranks_before reputation counters eq_bytes
bob_first = refl

alice_after : reputation ids received alice ≡ pos 915
unfolding record_received update reputation counters eq_bytes
alice_after = refl

rank_for_unchoke_best_example :
    (others : List Bytes) × Perm
      (rank_for_unchoke ids ledger (alice ∷ bob ∷ []) 1 ++ others)
      (alice ∷ bob ∷ [])
    × (length (rank_for_unchoke ids ledger (alice ∷ bob ∷ []) 1) ≡ min 1 2)
    × Sorted (ranks_before ids ledger) (rank_for_unchoke ids ledger (alice ∷ bob ∷ []) 1)
    × All
        (λ a. All (λ b. Ahead ids ledger a b) others)
        (rank_for_unchoke ids ledger (alice ∷ bob ∷ []) 1)
rank_for_unchoke_best_example = rank_for_unchoke_best ids ledger (alice ∷ bob ∷ []) 1

bounded : IsU64 ids (counters ids ledger alice)
unfolding counters eq_bytes
bounded = (omega arith, omega arith, omega arith)

pub different : alice ≢ bob
different e = cc e

reputation_monotone_example :
    (leb_int (reputation ids ledger alice) (reputation ids received alice) ≡ true)
    × (leb_int
          (reputation ids ledger alice)
          (reputation ids (credit_receipt ids ledger alice 1000) alice)
        ≡ true)
    × (leb_int
          (reputation ids (record_served ids ledger alice 1000) alice)
          (reputation ids ledger alice)
        ≡ true)
    × (reputation ids received bob ≡ reputation ids ledger bob)
    × (reputation ids (credit_receipt ids ledger alice 1000) bob ≡ reputation ids ledger bob)
    × (reputation ids (record_served ids ledger alice 1000) bob ≡ reputation ids ledger bob)
reputation_monotone_example = reputation_monotone ids ledger alice bob 1000 bounded different

totals-sum_test :
    ((totals ids ledger).served_to_us
      ≡ min (sum_of ids (λ (c : Counters). c.served_to_us) ledger) u64_max)
    × ((totals ids ledger).we_served
        ≡ min (sum_of ids (λ (c : Counters). c.we_served) ledger) u64_max)
    × ((totals ids ledger).credited_by_receipts
        ≡ min (sum_of ids (λ (c : Counters). c.credited_by_receipts) ledger) u64_max)
totals-sum_test = totals-sum ids ledger

abbrev receipt : Receipt
receipt = issue toy_ed25519 alice bob 7 1

bob_within : (counters ids ledger receipt.server).credited_by_receipts + receipt.bytes ≤ u64_max
unfolding counters eq_bytes issue
bob_within = omega arith

apply_receipt-credit_receipt_test : apply_receipt toy_ed25519 ids ledger receipt ≡ (
    if verify toy_ed25519 receipt
    then (true, credit_receipt ids ledger receipt.server receipt.bytes)
    else (false, ledger))
apply_receipt-credit_receipt_test =
    apply_receipt-credit_receipt toy_ed25519 ids ledger receipt bob_within
