-- ===== src/Rep/Bag.antt =====
-- crates/np2ptp-net/src/receipts.rs: the receipts about this node that it keeps.
-- Rep/Saved.antt has their file.
pub mod Kept
pub mod NoRepeats
mod Tests
use np2ptp.Prelude.{
  ℕ, List, [], ◌∷◌, ◌++◌, take, ◌==◌, leb, ◌&&◌, Bool, true, false, if◌then◌else◌, eq_bytes,
}
use np2ptp.Prelude.Sort.{sort}
use np2ptp.Rep.Receipt.{Receipt}

abbrev pub max_receipts : ℕ
max_receipts = 50

-- The derived `==`
unfoldable pub eq_receipt : Receipt → Receipt → Bool
eq_receipt r q =
    eq_bytes r.server q.server
    && eq_bytes r.client q.client
    && (r.bytes == q.bytes)
    && (r.epoch == q.epoch)
    && eq_bytes r.sig q.sig

unfoldable pub contains : List Receipt → Receipt → Bool
contains [] r = false
contains (q ∷ receipts) r = let rest = contains receipts r in if eq_receipt q r then true else rest

-- `Reverse(r.bytes)`: the receipt for more bytes comes first.
abbrev pub by_bytes : Receipt → Receipt → Bool
by_bytes r q = leb q.bytes r.bytes

unfoldable pub insert : List Receipt → Receipt → List Receipt
insert receipts r =
    if contains receipts r then receipts else take max_receipts (sort by_bytes (receipts ++ r ∷ []))
