-- ===== src/Net/Choke.antt =====
-- To whom chunks are served, and which.
use np2ptp.Prelude.{
  zero, suc, ◌+◌, ◌-◌, ◌^◌, ◌≤◌, ◌<◌, ◌≡◌, refl, min, none, some, length, Bool, true, false, not,
  Bool-cases, ◌⊎◌, inl, inr, Bytes, arith,
}
use np2ptp.Core.Hash.{Hash}
use np2ptp.Core.Manifest.Container.{Hex, Bincode}
use np2ptp.Rep.Ledger.{Key, Counters, counters, record_served, reputation}
use np2ptp.Rep.Ledger.Int.{ℤ, pos, negsuc, ◌-ℤ◌, leb_int, clamp_i64}
use np2ptp.Fec.{Raptorq}
use np2ptp.Store.{get}
use np2ptp.Store.Intact.{synced}
use np2ptp.Store.Sound.{Sound, holds}
use np2ptp.Store.Sound.Finds.{get_lem}
use np2ptp.Net.{PeerId, Response, EventLoop}
use np2ptp.Net.Serve.{saturating_neg, serve_found, chokes, serve_chunk}

abbrev pub IsI64 : ℤ → Type 0
IsI64 (pos t) = t ≤ 2 ^ 63 - 1
IsI64 (negsuc n) = n ≤ 2 ^ 63 - 1

-- What the peer took is more than what it gave and the threshold together; a threshold below zero is
-- what it has to have given on top, up to `i64::MAX`.
abbrev pub TakesTooMuch : ℤ → Counters → Type 0
TakesTooMuch (pos t) c = c.served_to_us + c.credited_by_receipts + t < c.we_served
TakesTooMuch (negsuc n) c =
    c.served_to_us + c.credited_by_receipts < c.we_served + min (n + 1) (2 ^ 63 - 1)

not-true : (b : Bool) → not b ≡ true → b ≡ false
not-true true h = cc h
not-true false h = refl

not-false : (b : Bool) → not b ≡ false → b ≡ true
not-false true h = refl
not-false false h = cc h

below-TakesTooMuch :
    (t : ℤ) (c : Counters)
    → IsI64 t
    → leb_int
        (saturating_neg t)
        (clamp_i64 ((c.served_to_us + c.credited_by_receipts) -ℤ c.we_served))
      ≡ false
    → TakesTooMuch t c
unfolding saturating_neg
below-TakesTooMuch (pos zero) c fits h = ground arith
below-TakesTooMuch (pos (suc t)) c fits h = ground arith
below-TakesTooMuch (negsuc n) c fits h = ground arith

above-TakesTooMuch :
    (t : ℤ) (c : Counters)
    → IsI64 t
    → leb_int
        (saturating_neg t)
        (clamp_i64 ((c.served_to_us + c.credited_by_receipts) -ℤ c.we_served))
      ≡ true
    → ¬ TakesTooMuch t c
unfolding saturating_neg
above-TakesTooMuch (pos zero) c fits h k = ground arith
above-TakesTooMuch (pos (suc t)) c fits h k = ground arith
above-TakesTooMuch (negsuc n) c fits h k = ground arith

module _ (hex : Hex) (blake3 : Bytes → Bytes) (bincode : Bincode) {D : Type 0} (raptorq : Raptorq D)
    (key : Key PeerId) where
  chokes-TakesTooMuch :
      (peer : PeerId) (node : EventLoop)
      → IsI64 node.choke_threshold
      → chokes hex blake3 bincode raptorq key node peer ≡ true
      → TakesTooMuch node.choke_threshold (counters key node.ledger peer)
  unfolding chokes reputation
  chokes-TakesTooMuch peer node fits h =
      below-TakesTooMuch node.choke_threshold (counters key node.ledger peer) fits (not-true _ h)

  chokes-not :
      (peer : PeerId) (node : EventLoop)
      → IsI64 node.choke_threshold
      → chokes hex blake3 bincode raptorq key node peer ≡ false
      → ¬ TakesTooMuch node.choke_threshold (counters key node.ledger peer)
  unfolding chokes reputation
  chokes-not peer node fits h =
      above-TakesTooMuch node.choke_threshold (counters key node.ledger peer) fits (not-false _ h)

  abbrev Outcome : PeerId → Hash → EventLoop → Response × EventLoop → Type 0
  Outcome peer h node (response, node') =
      ((holds hex blake3 node.store h ≡ true)
        × (bytes : Bytes) × (blake3 bytes ≡ h)
        × (response ≡ Response.chunk (some bytes))
        × (node'.ledger ≡ record_served key node.ledger peer (length bytes)))
      ⊎ ((holds hex blake3 node.store h ≡ false)
          × (response ≡ Response.chunk none)
          × (node' ≡ record node { store = synced hex node.store }))

  serve_found_lem :
      (peer : PeerId) (h : Hash) (node : EventLoop)
      → Sound hex blake3 node.store
      → Sound hex blake3
          (serve_found hex blake3 bincode raptorq key peer node
            (get hex blake3 h node.store)).1.store
        × Outcome peer h node
            (serve_found hex blake3 bincode raptorq key peer node (get hex blake3 h node.store))
  serve_found_lem peer h node sound = elim (get_lem hex blake3 node.store h sound) [
    | inl (held, (bytes, w, got, hashed, sound')) ↦
        rw got (sound', inl (held, bytes, hashed, refl, refl))
    | inr (unheld, none_there, sound') ↦ rw none_there (sound', inr (unheld, refl, refl))
  ]

  -- From an undamaged store, where the threshold is a number of 64 bits: a peer that has taken more
  -- than it gave or was credited for, and the threshold on top of it, gets no chunk, and nothing
  -- changes. Every other peer gets bytes of the hash that it asked for if the store holds the chunk,
  -- and these bytes go into the ledger; if the store does not hold it, the peer gets None and the
  -- ledger stays. The store is undamaged after it.
  pub serve_chunk_lem :
      (peer : PeerId) (h : Hash) (node : EventLoop)
      → Sound hex blake3 node.store
      → IsI64 node.choke_threshold
      → (TakesTooMuch node.choke_threshold (counters key node.ledger peer)
          × (serve_chunk hex blake3 bincode raptorq key peer h node ≡ (Response.chunk none, node)))
        ⊎ (¬ TakesTooMuch node.choke_threshold (counters key node.ledger peer)
            × Sound hex blake3 (serve_chunk hex blake3 bincode raptorq key peer h node).1.store
            × (((holds hex blake3 node.store h ≡ true)
                  × (bytes : Bytes) × (blake3 bytes ≡ h)
                  × ((serve_chunk hex blake3 bincode raptorq key peer h node).0
                      ≡ Response.chunk (some bytes))
                  × ((serve_chunk hex blake3 bincode raptorq key peer h node).1.ledger
                      ≡ record_served key node.ledger peer (length bytes)))
                ⊎ ((holds hex blake3 node.store h ≡ false)
                    × ((serve_chunk hex blake3 bincode raptorq key peer h node).0
                        ≡ Response.chunk none)
                    × ((serve_chunk hex blake3 bincode raptorq key peer h node).1
                        ≡ record node { store = synced hex node.store }))))
  unfolding serve_chunk
  serve_chunk_lem peer h node sound fits =
      elim (Bool-cases (chokes hex blake3 bincode raptorq key node peer)) [
        | inl choked ↦ inl (chokes-TakesTooMuch peer node fits choked, rw choked refl)
        | inr free ↦
            let (sound', outcome) = serve_found_lem peer h node sound in
            inr (chokes-not peer node fits free, rw free sound', rw free outcome)
      ]
