-- ===== src/Rep/Ledger/Accounts.antt =====
-- What the operations of the ledger do to the counters and to the reputation.
use np2ptp.Prelude.{
  ℕ, ◌+◌, ◌^◌, ◌%◌, ◌≤◌, ◌≡◌, ◌≢◌, refl, sym, ap, ◌∙◌, min, List, [], ◌∷◌, true, false, Bool-cases,
  if◌then◌else◌, inl, inr, u64_max, saturating_add, arith, leb,
}
use np2ptp.Rep.Receipt.{Ed25519, Receipt, verify}
use np2ptp.Rep.Ledger.Int.{ℤ, ◌-ℤ◌, leb_int, clamp_i64}
use np2ptp.Rep.Ledger.{
  Counters, default, Key, Ledger, receive, serve, credit, update, record_received, record_served,
  credit_receipt, counters, totals_from, totals, reputation, credit_wrapping, apply_receipt,
}

module _ {K : Type 0} (key : Key K) where
  pub counters-update :
      (ledger : Ledger K) (peer : K) (change : Counters → Counters)
      → counters key (update key ledger peer change) peer ≡ change (counters key ledger peer)
  unfolding counters update
  counters-update [] peer change = rw ((key.eq_iff peer peer).1 refl)
  counters-update ((k, c) ∷ ledger) peer change = elim (Bool-cases (key.eq k peer)) [
    | inl e ↦ rw (e, e)
    | inr e ↦ rw (e, e) (counters-update ledger peer change)
  ]

  pub counters-update_other :
      (ledger : Ledger K) (peer other : K) (change : Counters → Counters)
      → peer ≢ other
      → counters key (update key ledger peer change) other ≡ counters key ledger other
  unfolding counters update
  counters-update_other [] peer other change differ = elim (Bool-cases (key.eq peer other)) [
    | inl e ↦ absurd (differ ((key.eq_iff peer other).0 e))
    | inr e ↦ rw e
  ]
  counters-update_other ((k, c) ∷ ledger) peer other change differ =
      elim (Bool-cases (key.eq k peer)) [
        | inl e ↦
            let same : k ≡ peer = (key.eq_iff k peer).0 e in
            elim (Bool-cases (key.eq k other)) [
              | inl e' ↦ absurd (differ (sym same ∙ (key.eq_iff k other).0 e'))
              | inr e' ↦ rw (e, e')
            ]
        | inr e ↦ rw (e, counters-update_other ledger peer other change differ)
      ]

  abbrev pub IsU64 : Counters → Type 0
  IsU64 c =
      (c.served_to_us ≤ u64_max) × (c.we_served ≤ u64_max) × (c.credited_by_receipts ≤ u64_max)

  abbrev standing : Counters → ℤ
  standing c = clamp_i64 ((c.served_to_us + c.credited_by_receipts) -ℤ c.we_served)

  -- What a peer gives counts for it, and what it takes against it.
  clamped_order :
      (a b c d : ℕ) → a ≤ c → d ≤ b → leb_int (clamp_i64 (a -ℤ b)) (clamp_i64 (c -ℤ d)) ≡ true
  clamped_order a b c d h k = elim (Bool-cases (leb b a)) [
    | inl e ↦ rw e (elim (Bool-cases (leb d c)) [
      | inl e' ↦ rw e' (ground arith)
      | inr e' ↦ absurd (ground arith)
    ])
    | inr e ↦
        rw e (elim (Bool-cases (leb d c)) [ inl e' ↦ rw e' refl | inr e' ↦ rw e' (ground arith) ])
  ]

  -- Being served by a peer, or shown a receipt for it, never lowers its reputation, and serving it
  -- never raises it, at the bounds of the 64-bit counters too; and none of the three changes the
  -- reputation of another peer.
  pub reputation_monotone :
      (ledger : Ledger K) (peer other : K) (bytes : ℕ)
      → IsU64 (counters key ledger peer)
      → peer ≢ other
      → (leb_int
            (reputation key ledger peer)
            (reputation key (record_received key ledger peer bytes) peer)
          ≡ true)
        × (leb_int
              (reputation key ledger peer)
              (reputation key (credit_receipt key ledger peer bytes) peer)
            ≡ true)
        × (leb_int
              (reputation key (record_served key ledger peer bytes) peer)
              (reputation key ledger peer)
            ≡ true)
        × (reputation key (record_received key ledger peer bytes) other
            ≡ reputation key ledger other)
        × (reputation key (credit_receipt key ledger peer bytes) other
            ≡ reputation key ledger other)
        × (reputation key (record_served key ledger peer bytes) other ≡ reputation key ledger other)
  unfolding reputation record_received record_served credit_receipt
  reputation_monotone ledger peer other bytes (served, given, credited) differ =
      let c = counters key ledger peer in
      (
        rw (counters-update ledger peer (receive bytes)) (
            clamped_order (c.served_to_us + c.credited_by_receipts) c.we_served _ c.we_served
              (omega arith) (omega arith)),
        rw (counters-update ledger peer (credit bytes)) (
            clamped_order (c.served_to_us + c.credited_by_receipts) c.we_served _ c.we_served
              (omega arith) (omega arith)),
        rw (counters-update ledger peer (serve bytes)) (
            clamped_order (c.served_to_us + c.credited_by_receipts) _ _ c.we_served (omega arith)
              (omega arith)),
        ap standing (counters-update_other ledger peer other (receive bytes) differ),
        ap standing (counters-update_other ledger peer other (credit bytes) differ),
        ap standing (counters-update_other ledger peer other (serve bytes) differ),
      )

  abbrev pub sum_of : (Counters → ℕ) → Ledger K → ℕ
  sum_of field [] = 0
  sum_of field ((k, c) ∷ ledger) = field c + sum_of field ledger

  totals_from-sum :
      (ledger : Ledger K) (total : Counters)
      → IsU64 total
      → ((totals_from key total ledger).served_to_us
          ≡ min (total.served_to_us + sum_of (λ c. c.served_to_us) ledger) u64_max)
        × ((totals_from key total ledger).we_served
            ≡ min (total.we_served + sum_of (λ c. c.we_served) ledger) u64_max)
        × ((totals_from key total ledger).credited_by_receipts
            ≡ min
                (total.credited_by_receipts + sum_of (λ c. c.credited_by_receipts) ledger)
                u64_max)
  unfolding totals_from
  totals_from-sum [] total (a, b, c) = (omega arith, omega arith, omega arith)
  totals_from-sum ((k, c) ∷ ledger) total (served, given, credited) =
      let (x, y, z) =
        totals_from-sum ledger
          record {
            served_to_us = saturating_add total.served_to_us c.served_to_us;
            we_served = saturating_add total.we_served c.we_served;
            credited_by_receipts = saturating_add total.credited_by_receipts c.credited_by_receipts;
          }
          (omega arith, omega arith, omega arith) in
      (omega (arith, x), omega (arith, y), omega (arith, z))

  -- Each field of `totals` is the sum of that field over all peers, or `u64::MAX` if the sum is
  -- greater.
  pub totals-sum :
      (ledger : Ledger K)
      → ((totals key ledger).served_to_us ≡ min (sum_of (λ c. c.served_to_us) ledger) u64_max)
        × ((totals key ledger).we_served ≡ min (sum_of (λ c. c.we_served) ledger) u64_max)
        × ((totals key ledger).credited_by_receipts
            ≡ min (sum_of (λ c. c.credited_by_receipts) ledger) u64_max)
  unfolding totals
  totals-sum ledger =
      let (x, y, z) = totals_from-sum ledger default (omega arith, omega arith, omega arith) in
      (omega (arith, x), omega (arith, y), omega (arith, z))

update_agree :
    {K : Type 0} (key : Key K) (ledger : Ledger K) (peer : K) (f g : Counters → Counters)
    → f (counters key ledger peer) ≡ g (counters key ledger peer)
    → update key ledger peer f ≡ update key ledger peer g
unfolding update counters
update_agree key [] peer f g e = ap (λ c. (peer, c) ∷ []) e
update_agree key ((k, c) ∷ ledger) peer f g e = elim (Bool-cases (key.eq k peer)) [
  | inl same ↦ rw same (ap (λ d. (k, d) ∷ ledger) (rw same at e))
  | inr other ↦ rw other (ap (λ l. (k, c) ∷ l) (update_agree key ledger peer f g (rw other at e)))
]

no_wrap : (a b : ℕ) → a + b ≤ u64_max → (a + b) % 2 ^ 64 ≡ saturating_add a b
no_wrap a b h = omega arith

-- `apply_receipt` on a receipt that does not verify answers false and changes nothing; on one that
-- verifies, and that does not take the server's credit past `u64::MAX`, it answers true and does
-- what `credit_receipt` does.
pub apply_receipt-credit_receipt :
    (ed25519 : Ed25519) (key : Key (List ℕ)) (ledger : Ledger (List ℕ)) (r : Receipt)
    → (counters key ledger r.server).credited_by_receipts + r.bytes ≤ u64_max
    → apply_receipt ed25519 key ledger r ≡ (
        if verify ed25519 r
        then (true, credit_receipt key ledger r.server r.bytes)
        else (false, ledger))
unfolding apply_receipt credit_receipt
apply_receipt-credit_receipt ed25519 key ledger r within =
    let same = update_agree key ledger r.server (credit_wrapping r.bytes) (credit r.bytes) (
      ap (λ n. record (counters key ledger r.server) { credited_by_receipts = n })
        (no_wrap (counters key ledger r.server).credited_by_receipts r.bytes within)) in
    rw same refl
