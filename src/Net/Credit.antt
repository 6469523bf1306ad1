-- ===== src/Net/Credit.antt =====
-- `handle_receipts_response`: the receipts that a peer shows about itself. That the ledger is saved is not
-- part of it.
use np2ptp.Prelude.{
  ℕ, Option, none, some, List, [], ◌∷◌, ◌==◌, Bool, false, ◌&&◌, ◌||◌, not, if◌then◌else◌, Bytes,
  eq_bytes,
}
use np2ptp.Prelude.Maps.{lookup}
use np2ptp.Rep.Ledger.{Key, Ledger, credit_receipt}
use np2ptp.Rep.Receipt.{Ed25519, Receipt, verify}
use np2ptp.Net.{PeerId, Response, EventLoop}

-- The client and the epoch of a receipt.
abbrev pub Mark : Type 0
Mark = Bytes × ℕ

abbrev pub mark : Receipt → Mark
mark r = (r.client, r.epoch)

unfoldable pub marked : List Mark → Mark → Bool
marked [] (client, epoch) = false
marked ((c, e) ∷ seen) (client, epoch) =
    let rest = marked seen (client, epoch) in (eq_bytes c client && (e == epoch)) || rest

module _ (ed25519 : Ed25519) (key : Key PeerId) where
  -- Whether the receipt is genuine, about `server`, and the first with its mark.
  unfoldable pub counts : Bytes → List Mark → Receipt → Bool
  counts server seen r = verify ed25519 r && eq_bytes r.server server && not (marked seen (mark r))

  -- The loop over the receipts.
  unfoldable pub credit_all :
      PeerId → Bytes → List Mark → List Receipt → Ledger PeerId → Ledger PeerId
  credit_all peer server seen [] ledger = ledger
  credit_all peer server seen (r ∷ rs) ledger =
      let credited =
        credit_all peer server (mark r ∷ seen) rs (credit_receipt key ledger peer r.bytes) in
      let passed_over = credit_all peer server seen rs ledger in
      if counts server seen r then credited else passed_over

  abbrev pub credit_known : PeerId → List Receipt → EventLoop → Option Bytes → EventLoop
  credit_known peer receipts node none = node
  credit_known peer receipts node (some server) = record node {
    ledger = credit_all peer server [] receipts node.ledger;
  }

  unfoldable pub handle_receipts_response : PeerId → Response → EventLoop → EventLoop
  handle_receipts_response peer (Response.receipts receipts) node =
      credit_known peer receipts node (lookup eq_bytes node.rep_peers peer)
  handle_receipts_response peer _ node = node
