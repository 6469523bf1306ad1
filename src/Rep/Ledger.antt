-- ===== src/Rep/Ledger.antt =====
-- crates/np2ptp-rep/src/ledger.rs: what each peer gave and took. The map is a list of entries with
-- different keys; the type of keys is the parameter `K`. Rep/Saved.antt has its file.
pub mod Int
pub mod Order
pub mod Accounts
pub mod Tests
use np2ptp.Prelude.{
  ℕ, zero, suc, ◌+◌, ◌-◌, ◌*◌, ◌^◌, ◌%◌, ◌≡◌, ◌↔◌, ◌⊎◌, List, [], ◌∷◌, take, Bool, true, false, not,
  ◌&&◌, ◌||◌, if◌then◌else◌, saturating_add,
}
use np2ptp.Prelude.Sort.{sort}
use np2ptp.Rep.Ledger.Int.{ℤ, ◌-ℤ◌, leb_int, eq_int, clamp_i64}
use np2ptp.Rep.Receipt.{Ed25519, Receipt, verify}

pub record Counters : Type 0 where
  pub served_to_us : ℕ
  pub we_served : ℕ
  pub credited_by_receipts : ℕ

abbrev pub default : Counters
default = record { served_to_us = 0; we_served = 0; credited_by_receipts = 0 }

-- `K: Eq + Ord`
pub record Key (K : Type 0) : Type 0 where
  pub eq : K → K → Bool
  pub le : K → K → Bool
  pub eq_iff : (a b : K) → (eq a b ≡ true) ↔ (a ≡ b)
  pub le_total : (a b : K) → (le a b ≡ true) ⊎ (le b a ≡ true)
  pub le_trans : (a b c : K) → le a b ≡ true → le b c ≡ true → le a c ≡ true

abbrev pub Ledger : Type 0 → Type 0
Ledger K = List (K × Counters)

abbrev pub receive : ℕ → Counters → Counters
receive bytes c = record c { served_to_us = saturating_add c.served_to_us bytes }

abbrev pub serve : ℕ → Counters → Counters
serve bytes c = record c { we_served = saturating_add c.we_served bytes }

abbrev pub credit : ℕ → Counters → Counters
credit bytes c = record c { credited_by_receipts = saturating_add c.credited_by_receipts bytes }

module _ {K : Type 0} (key : Key K) where
  -- `*self.peers.entry(peer).or_default()`, changed by `change`
  unfoldable pub update : Ledger K → K → (Counters → Counters) → Ledger K
  update [] peer change = (peer, change default) ∷ []
  update ((k, c) ∷ ledger) peer change =
      let rest = update ledger peer change in
      if key.eq k peer then (k, change c) ∷ ledger else (k, c) ∷ rest

  unfoldable pub record_received : Ledger K → K → ℕ → Ledger K
  record_received ledger peer bytes = update ledger peer (receive bytes)

  unfoldable pub record_served : Ledger K → K → ℕ → Ledger K
  record_served ledger peer bytes = update ledger peer (serve bytes)

  unfoldable pub credit_receipt : Ledger K → K → ℕ → Ledger K
  credit_receipt ledger peer bytes = update ledger peer (credit bytes)

  unfoldable pub counters : Ledger K → K → Counters
  counters [] peer = default
  counters ((k, c) ∷ ledger) peer =
      let rest = counters ledger peer in if key.eq k peer then c else rest

  -- The loop of `totals`.
  unfoldable pub totals_from : Counters → Ledger K → Counters
  totals_from total [] = total
  totals_from total ((k, c) ∷ ledger) =
      totals_from
        record {
          served_to_us = saturating_add total.served_to_us c.served_to_us;
          we_served = saturating_add total.we_served c.we_served;
          credited_by_receipts = saturating_add total.credited_by_receipts c.credited_by_receipts;
        }
        ledger

  unfoldable pub totals : Ledger K → Counters
  totals ledger = totals_from default ledger

  -- `i128` holds the sum and the difference of 64-bit numbers.
  unfoldable pub reputation : Ledger K → K → ℤ
  reputation ledger peer =
      let c = counters ledger peer in
      clamp_i64 ((c.served_to_us + c.credited_by_receipts) -ℤ c.we_served)

  -- The comparison that `rank_for_unchoke` sorts by: reputation, the highest first, then the key.
  unfoldable pub ranks_before : Ledger K → K → K → Bool
  ranks_before ledger a b =
      if eq_int (reputation ledger b) (reputation ledger a)
      then key.le a b
      else leb_int (reputation ledger b) (reputation ledger a)

  unfoldable pub rank_for_unchoke : Ledger K → List K → ℕ → List K
  rank_for_unchoke ledger candidates slots = take slots (sort (ranks_before ledger) candidates)

-- `+=` on `u64` as it is compiled for release, where it wraps around.
abbrev pub credit_wrapping : ℕ → Counters → Counters
credit_wrapping bytes c = record c {
  credited_by_receipts = (c.credited_by_receipts + bytes) % 2 ^ 64;
}

unfoldable pub apply_receipt :
    Ed25519 → Key (List ℕ) → Ledger (List ℕ) → Receipt → Bool × Ledger (List ℕ)
apply_receipt ed25519 key ledger r =
    if verify ed25519 r
    then (true, update key ledger r.server (credit_wrapping r.bytes))
    else (false, ledger)
