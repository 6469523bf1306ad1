-- ===== src/Rep.antt =====
-- crates/np2ptp-rep and crates/np2ptp-net/src/receipts.rs: what peers have given each other, the
-- signed receipts for it, and the order in which peers are served.
pub mod Receipt
pub mod Bag
pub mod Saved
pub mod Ledger
