-- ===== src/Net/Served.antt =====
-- What `serve` does: the peer is charged for the bytes that it is sent, and no one else.
use np2ptp.Prelude.{
  ℕ, ◌+◌, ◌≤◌, ◌≡◌, ◌≢◌, refl, ap, ◌∙◌, Option, none, some, List, length, true, Bool-cases, ltb,
  ◌⊎◌, inl, inr, Bytes, eq_bytes, Result, ok, err, arith, u64_max, min,
}
use np2ptp.Prelude.Maps.{Map, lookup, contains}
use np2ptp.Core.Hash.{Hash}
use np2ptp.Core.Manifest.{Manifest, ManifestError}
use np2ptp.Core.Manifest.Container.{Hex, Bincode, from_nptp}
use np2ptp.Core.Manifest.Reconstruct.{reconstruct}
use np2ptp.Rep.Ledger.{Key, Ledger, Counters, counters, record_served}
use np2ptp.Rep.Ledger
use np2ptp.Rep.Ledger.Accounts.{counters-update, counters-update_other}
use np2ptp.Rep.Receipt.{Ed25519, Receipt}
use np2ptp.Fec.{Raptorq}
use np2ptp.Store.{World, StoreError, get}
use np2ptp.Net.{PeerId, Request, Response, EventLoop}
use np2ptp.Net.Serve.{
  sum_lengths, charge, keep_symbols, encode_manifest, encode_provided, ensure_symbols, fetch_own,
  symbol, symbols_range, charge_symbol, serve_found, chokes, serve_chunk, serve_symbol,
  serve_symbols, about_us, accept_receipt, serve,
}

-- The bytes of content in a response.
unfoldable pub payload : Response → ℕ
payload (Response.chunk (some data')) = length data'
payload (Response.symbol (some bytes)) = length bytes
payload (Response.symbols syms) = sum_lengths syms
payload _ = 0

module _ (hex : Hex) (blake3 : Bytes → Bytes) (bincode : Bincode) {D : Type 0}
    (raptorq : Raptorq D) where
  -- Only the store's handle and the cache of symbols may differ.
  abbrev pub Encoding : EventLoop → EventLoop → Type 0
  Encoding node node' =
      (w : World) × (symbols : Map Hash (List Bytes)) × (node'
        ≡ record node { store = w; symbols = symbols })

  pub ensure_symbols-Encoding :
      (root : Hash) (node : EventLoop)
      → Encoding node (ensure_symbols hex blake3 bincode raptorq root node).1
  unfolding ensure_symbols
  ensure_symbols-Encoding root node = elim (Bool-cases (contains eq_bytes node.symbols root)) [
    | inl there ↦ rw there (node.store, node.symbols, refl)
    | inr fresh ↦ rw fresh (provided (lookup eq_bytes node.provided root))
  ]
    where
      kept :
          (r : Result ManifestError Bytes × World)
          → Encoding node (keep_symbols hex blake3 bincode raptorq root node r).1
      kept (ok full, w) = (w, _, refl)
      kept (err e, w) = (w, node.symbols, refl)

      read :
          (r : Result ManifestError Manifest)
          → Encoding node (encode_manifest hex blake3 bincode raptorq root node r).1
      read (ok m) = kept (reconstruct blake3 (fetch_own hex blake3 bincode raptorq) m node.store)
      read (err e) = (node.store, node.symbols, refl)

      provided :
          (o : Option Bytes)
          → Encoding node (encode_provided hex blake3 bincode raptorq root node o).1
      provided (some file) = read (from_nptp bincode file)
      provided none = (node.store, node.symbols, refl)

  pub symbol-Encoding :
      (root : Hash) (index : ℕ) (node : EventLoop)
      → Encoding node (symbol hex blake3 bincode raptorq root index node).1
  unfolding symbol
  symbol-Encoding root index node =
      elim (Bool-cases (ensure_symbols hex blake3 bincode raptorq root node).0) [
        | inl e ↦ rw e (ensure_symbols-Encoding root node)
        | inr e ↦ rw e (ensure_symbols-Encoding root node)
      ]

  pub symbols_range-Encoding :
      (root : Hash) (start count : ℕ) (node : EventLoop)
      → Encoding node (symbols_range hex blake3 bincode raptorq root start count node).1
  unfolding symbols_range
  symbols_range-Encoding root start count node =
      elim (Bool-cases (ensure_symbols hex blake3 bincode raptorq root node).0) [
        | inl e ↦ rw e (ensure_symbols-Encoding root node)
        | inr e ↦ rw e (ensure_symbols-Encoding root node)
      ]

  module _ (key : Key PeerId) where
    -- What a request may change beside that: the ledger by the charge for the bytes that are sent,
    -- and the receipts.
    abbrev pub Charged : PeerId → EventLoop → Response × EventLoop → Type 0
    Charged peer node (response, node') =
        (w : World) × (symbols : Map Hash (List Bytes)) × (kept : List Receipt) × (((node'
              ≡ record node { store = w; symbols = symbols; receipts = kept })
            × (payload response ≡ 0))
          ⊎ (node' ≡ record node {
            store = w;
            symbols = symbols;
            ledger = record_served key node.ledger peer (payload response);
            ledger_dirty = true;
          }))

    serve_found-Charged :
        (peer : PeerId) (node : EventLoop) (r : Result StoreError (Option Bytes) × World)
        → Charged peer node (serve_found hex blake3 bincode raptorq key peer node r)
    unfolding payload
    serve_found-Charged peer node (ok (some data'), w) = (w, node.symbols, node.receipts, inr refl)
    serve_found-Charged peer node (ok none, w) = (w, node.symbols, node.receipts, inl (refl, refl))
    serve_found-Charged peer node (err e, w) = (w, node.symbols, node.receipts, inl (refl, refl))

    serve_chunk-Charged :
        (peer : PeerId) (h : Hash) (node : EventLoop)
        → Charged peer node (serve_chunk hex blake3 bincode raptorq key peer h node)
    unfolding serve_chunk payload
    serve_chunk-Charged peer h node =
        elim (Bool-cases (chokes hex blake3 bincode raptorq key node peer)) [
          | inl e ↦ rw e (node.store, node.symbols, node.receipts, inl (refl, refl))
          | inr e ↦ rw e (serve_found-Charged peer node (get hex blake3 h node.store))
        ]

    charge_symbol-Charged :
        (peer : PeerId) (node : EventLoop) (w : World) (symbols : Map Hash (List Bytes))
        (o : Option Bytes) (node' : EventLoop)
        → node' ≡ record node { store = w; symbols = symbols }
        → Charged peer node
            (Response.symbol o, charge_symbol hex blake3 bincode raptorq key peer o node')
    unfolding payload
    charge_symbol-Charged peer node w symbols none node' e =
        (w, symbols, node.receipts, inl (e, refl))
    charge_symbol-Charged peer node w symbols (some bytes) node' e =
        (w, symbols, node.receipts, inr (ap (charge key peer (length bytes)) e))

    serve_symbol-Charged :
        (peer : PeerId) (root : Hash) (index : ℕ) (node : EventLoop)
        → Charged peer node (serve_symbol hex blake3 bincode raptorq key peer root index node)
    unfolding serve_symbol
    serve_symbol-Charged peer root index node =
        let (w, symbols, e) = symbol-Encoding root index node in
        let (sym', node') = symbol hex blake3 bincode raptorq root index node in
        charge_symbol-Charged peer node w symbols sym' node' e

    serve_symbols-Charged :
        (peer : PeerId) (root : Hash) (start count : ℕ) (node : EventLoop)
        → Charged peer node
            (serve_symbols hex blake3 bincode raptorq key peer root start count node)
    unfolding serve_symbols payload
    serve_symbols-Charged peer root start count node =
        let sent = symbols_range hex blake3 bincode raptorq root start (min count 256) node in
        let (w, symbols, e) = symbols_range-Encoding root start (min count 256) node in
        elim (Bool-cases (ltb 0 (sum_lengths sent.0))) [
          | inl some_bytes ↦
              rw some_bytes
                (w, symbols, node.receipts, inr (ap (charge key peer (sum_lengths sent.0)) e))
          | inr nothing ↦ rw nothing (w, symbols, node.receipts, inl (e, ground arith))
        ]

    module _ (ed25519 : Ed25519) where
      pub serve-Charged :
          (peer : PeerId) (asked : Request) (node : EventLoop)
          → Charged peer node (serve hex blake3 bincode raptorq key ed25519 peer asked node)
      unfolding serve payload accept_receipt
      serve-Charged peer (Request.manifest root) node =
          (node.store, node.symbols, node.receipts, inl (refl, refl))
      serve-Charged peer (Request.chunk h) node = serve_chunk-Charged peer h node
      serve-Charged peer (Request.symbol root index) node =
          serve_symbol-Charged peer root index node
      serve-Charged peer (Request.symbols root start count) node =
          serve_symbols-Charged peer root start count node
      serve-Charged peer (Request.submit_receipt r) node =
          elim (Bool-cases (about_us hex blake3 bincode raptorq key ed25519 node r)) [
            | inl e ↦ rw e (node.store, node.symbols, _, inl (refl, refl))
            | inr e ↦ rw e (node.store, node.symbols, node.receipts, inl (refl, refl))
          ]
      serve-Charged peer Request.get_receipts node =
          (node.store, node.symbols, node.receipts, inl (refl, refl))

      -- Serving a request, whichever it is, adds the bytes of content in the response to what the asking
      -- peer took, up to `u64::MAX`, and changes neither its other counters nor those of another peer.
      pub serve-charged :
          (peer other : PeerId) (asked : Request) (node : EventLoop)
          → (counters key node.ledger peer).we_served ≤ u64_max
          → peer ≢ other
          → (counters key
                (serve hex blake3 bincode raptorq key ed25519 peer asked node).1.ledger
                peer
              ≡ Ledger.serve
                  (payload (serve hex blake3 bincode raptorq key ed25519 peer asked node).0)
                  (counters key node.ledger peer))
            × (counters key
                  (serve hex blake3 bincode raptorq key ed25519 peer asked node).1.ledger
                  other
                ≡ counters key node.ledger other)
      unfolding record_served
      serve-charged peer other asked node within differ =
          let c = counters key node.ledger peer in
          let (response, node') = serve hex blake3 bincode raptorq key ed25519 peer asked node in
          let (_, _, _, charged) = serve-Charged peer asked node in
          elim charged [
            | inl (same, nothing) ↦
                let ledger : node'.ledger ≡ node.ledger = ap (λ n. n.ledger) same in
                let sum : c.we_served ≡ min (c.we_served + payload response) u64_max =
                  omega (arith, nothing) in
                (
                  ap (λ l. counters key l peer) ledger ∙ ap (λ n. record c { we_served = n }) sum,
                  ap (λ l. counters key l other) ledger,
                )
            | inr changed ↦
                let ledger = ap (λ n. n.ledger) changed in
                (
                  ap (λ l. counters key l peer) ledger
                      ∙ counters-update key node.ledger peer (Ledger.serve (payload response)),
                  ap (λ l. counters key l other) ledger
                      ∙ counters-update_other key node.ledger peer other
                          (Ledger.serve (payload response)) differ,
                )
          ]
