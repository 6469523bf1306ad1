-- ===== src/Net/Serve.antt =====
-- `serve` and what it calls: the answers to the requests of other peers.
use np2ptp.Prelude.{
  ℕ, zero, suc, ◌+◌, ◌-◌, ◌^◌, min, Option, none, some, List, [], ◌∷◌, take, drop, length,
  get_elem?, leb, ltb, Bool, true, false, not, ◌&&◌, if◌then◌else◌, Bytes, eq_bytes, Result, ok,
  err, saturating_add,
}
use np2ptp.Prelude.Options.{◌>>=◌}
use np2ptp.Prelude.Maps.{lookup, insert, contains}
use np2ptp.Core.Hash.{Hash}
use np2ptp.Core.Manifest.{Manifest, ManifestError}
use np2ptp.Core.Manifest.Container.{Hex, Bincode, from_nptp}
use np2ptp.Core.Manifest.Reconstruct.{reconstruct}
use np2ptp.Rep.Ledger.{Key, record_served, reputation}
use np2ptp.Rep.Ledger.Int.{ℤ, pos, negsuc, leb_int}
use np2ptp.Rep.Receipt.{Ed25519, Receipt, verify}
use np2ptp.Rep.Bag
use np2ptp.Fec.{Raptorq, encode}
use np2ptp.Store.{World, StoreError, get}
use np2ptp.Net.{PeerId, Request, Response, EventLoop, fec_repair_symbols, max_symbols_per_batch}

-- `saturating_neg` of an `i64`
unfoldable pub saturating_neg : ℤ → ℤ
saturating_neg (pos zero) = pos 0
saturating_neg (pos (suc n)) = negsuc n
saturating_neg (negsuc n) = pos (min (n + 1) (2 ^ 63 - 1))

-- `.ok().flatten()`
abbrev pub flatten : Result StoreError (Option Bytes) → Option Bytes
flatten (ok answer) = answer
flatten (err e) = none

-- `syms.iter().map(|s| s.len() as u64).sum()`
unfoldable pub sum_lengths : List Bytes → ℕ
sum_lengths [] = 0
sum_lengths (s ∷ syms) = length s + sum_lengths syms

module _ (key : Key PeerId) where
  -- `record_served`, and the mark that the ledger has changed.
  abbrev pub charge : PeerId → ℕ → EventLoop → EventLoop
  charge peer bytes node = record node {
    ledger = record_served key node.ledger peer bytes;
    ledger_dirty = true;
  }

module _ (hex : Hex) (blake3 : Bytes → Bytes) (bincode : Bincode) {D : Type 0}
    (raptorq : Raptorq D) where
  -- `|h| store.get(h).ok().flatten()`
  abbrev pub fetch_own : Hash → World → Option Bytes × World
  fetch_own h w = let (answer, w') = get hex blake3 h w in (flatten answer, w')

  -- The content is there whole, or it cannot be encoded.
  abbrev pub keep_symbols : Hash → EventLoop → Result ManifestError Bytes × World → Bool × EventLoop
  keep_symbols root node (err e, w) = (false, record node { store = w })
  keep_symbols root node (ok full, w) = (
    true,
    record node {
      store = w;
      symbols = insert eq_bytes node.symbols root (encode raptorq full fec_repair_symbols).symbols;
    },
  )

  abbrev pub encode_manifest : Hash → EventLoop → Result ManifestError Manifest → Bool × EventLoop
  encode_manifest root node (err e) = (false, node)
  encode_manifest root node (ok m) =
      keep_symbols root node (reconstruct blake3 fetch_own m node.store)

  abbrev pub encode_provided : Hash → EventLoop → Option Bytes → Bool × EventLoop
  encode_provided root node none = (false, node)
  encode_provided root node (some manifest_bytes) =
      encode_manifest root node (from_nptp bincode manifest_bytes)

  unfoldable pub ensure_symbols : Hash → EventLoop → Bool × EventLoop
  ensure_symbols root node =
      if contains eq_bytes node.symbols root
      then (true, node)
      else encode_provided root node (lookup eq_bytes node.provided root)

  unfoldable pub symbol : Hash → ℕ → EventLoop → Option Bytes × EventLoop
  symbol root index node =
      let (there, node') = ensure_symbols root node in
      if there
      then (lookup eq_bytes node'.symbols root >>= λ all. get_elem? all index, node')
      else (none, node')

  -- `all[start..start.saturating_add(count).min(all.len())]`; the first clause is out of reach.
  abbrev pub slice : Option (List Bytes) → ℕ → ℕ → List Bytes
  slice none start count = []
  slice (some all) start count =
      if leb (length all) start
      then []
      else take (min (saturating_add start count) (length all) - start) (drop start all)

  unfoldable pub symbols_range : Hash → ℕ → ℕ → EventLoop → List Bytes × EventLoop
  symbols_range root start count node =
      let (there, node') = ensure_symbols root node in
      if there then (slice (lookup eq_bytes node'.symbols root) start count, node') else ([], node')

  module _ (key : Key PeerId) where
    abbrev pub charge_symbol : PeerId → Option Bytes → EventLoop → EventLoop
    charge_symbol peer none node = node
    charge_symbol peer (some bytes) node = charge key peer (length bytes) node

    -- The bytes of one chunk, or why it was not read.
    abbrev pub serve_found :
        PeerId → EventLoop → Result StoreError (Option Bytes) × World → Response × EventLoop
    serve_found peer node (ok (some data'), w) =
        (Response.chunk (some data'), charge key peer (length data') (record node { store = w }))
    serve_found peer node (ok none, w) = (Response.chunk none, record node { store = w })
    serve_found peer node (err e, w) = (Response.chunk none, record node { store = w })

    unfoldable pub chokes : EventLoop → PeerId → Bool
    chokes node peer =
        not (leb_int (saturating_neg node.choke_threshold) (reputation key node.ledger peer))

    unfoldable pub serve_chunk : PeerId → Hash → EventLoop → Response × EventLoop
    serve_chunk peer h node =
        if chokes node peer
        then (Response.chunk none, node)
        else serve_found peer node (get hex blake3 h node.store)

    unfoldable pub serve_symbol : PeerId → Hash → ℕ → EventLoop → Response × EventLoop
    serve_symbol peer root index node =
        let (sym, node') = symbol root index node in
        (Response.symbol sym, charge_symbol peer sym node')

    unfoldable pub serve_symbols : PeerId → Hash → ℕ → ℕ → EventLoop → Response × EventLoop
    serve_symbols peer root start count node =
        let (syms, node') = symbols_range root start (min count max_symbols_per_batch) node in
        let served = sum_lengths syms in
        (Response.symbols syms, if ltb 0 served then charge key peer served node' else node')

    module _ (ed25519 : Ed25519) where
      -- A receipt of someone else about this node.
      unfoldable pub about_us : EventLoop → Receipt → Bool
      about_us node r =
          verify ed25519 r
          && eq_bytes r.server (ed25519.public_key node.rep_identity)
          && not (eq_bytes r.client r.server)

      unfoldable pub accept_receipt : Receipt → EventLoop → Response × EventLoop
      accept_receipt r node = (
        Response.receipt_ack,
        if about_us node r then record node { receipts = Bag.insert node.receipts r } else node,
      )

      unfoldable pub serve : PeerId → Request → EventLoop → Response × EventLoop
      serve peer (Request.manifest root) node =
          (Response.manifest (lookup eq_bytes node.provided root), node)
      serve peer (Request.chunk h) node = serve_chunk peer h node
      serve peer (Request.symbol root index) node = serve_symbol peer root index node
      serve peer (Request.symbols root start count) node = serve_symbols peer root start count node
      serve peer (Request.submit_receipt r) node = accept_receipt r node
      serve peer Request.get_receipts node = (Response.receipts node.receipts, node)
