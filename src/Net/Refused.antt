-- ===== src/Net/Refused.antt =====
-- That small content cannot be fetched by symbols: the first batch of an honest provider has more bytes
-- than the loop lets pass.
use np2ptp.Prelude.{
  ℕ, zero, suc, ◌+◌, ◌*◌, ◌<◌, ◌≤◌, ◌≡◌, refl, ap, ◌∙◌, some, List, [], ◌∷◌, take, length,
  length-take, ltb, min, true, false, All, Bytes, ok, err, arith, u64_max,
}
use np2ptp.Core.Hash.{Hash}
use np2ptp.Core.Chunk.{Cdc}
use np2ptp.Core.Manifest.{Manifest}
use np2ptp.Core.Manifest.Container.{Hex, Bincode}
use np2ptp.Bridge.Pieces.{div_ceil}
use np2ptp.Fec.{Raptorq, fits, encode, encode_with_symbol_size}
use np2ptp.Store.{World}
use np2ptp.Net.{PeerId, NetError, fec_batch, fec_repair_symbols, max_fec_transfer_size}
use np2ptp.Net.Serve.{sum_lengths}
use np2ptp.Net.Client.{Requests, fetch_symbols, get_manifest}
use np2ptp.Net.Fountain.{
  nothing_yet, need_of, add_batch, after_batch, collect, enough_rounds, download_fec,
}

fits-length : (size blocks : ℕ) (p : Bytes) → fits size blocks p ≡ true → length p ≡ 4 + size
fits-length size blocks p h = ground arith

sum_lengths-take :
    (size blocks n : ℕ) (ps : List Bytes)
    → All (λ p. fits size blocks p ≡ true) ps
    → sum_lengths (take n ps) ≡ length (take n ps) * (4 + size)
unfolding sum_lengths
sum_lengths-take size blocks zero ps all = omega arith
sum_lengths-take size blocks (suc n) [] all = omega arith
sum_lengths-take size blocks (suc n) (p ∷ ps) (one, all) =
    let rest = sum_lengths-take size blocks n ps all in
    let here = fits-length size blocks p one in (rw (here, rest) (omega arith))

too_many : (n : ℕ) → 0 < n → n ≤ 76800 → n * 2 < min 128 (div_ceil n 1200 + 64) * (4 + 1200)
unfolding div_ceil
too_many n some_bytes few = omega arith

small_within : (n : ℕ) → n ≤ 76800 → ltb max_fec_transfer_size n ≡ false
small_within n h = ground arith

module _ {D : Type 0} (raptorq : Raptorq D) where
  encode-symbols :
      (content : Bytes)
      → 0 < length content
      → (encode raptorq content fec_repair_symbols).symbols
        ≡ raptorq.get_encoded_packets content 1200 64
  unfolding encode encode_with_symbol_size
  encode-symbols [] h = absurd (omega arith)
  encode-symbols (b ∷ bs) h = refl

  collect-refuses :
      {S : Type 0} (request : Requests S) (provider : PeerId) (m : Manifest) (root : Hash)
      (need fuel : ℕ) (batch : List Bytes) (s t : S)
      → 0 < fuel
      → fetch_symbols request provider root 0 fec_batch s ≡ (ok batch, t)
      → min (m.total_size * 2) u64_max < min (sum_lengths batch) u64_max
      → collect raptorq m root need request provider fuel nothing_yet s
        ≡ (some (err NetError.bad_chunk), t)
  unfolding collect after_batch add_batch
  collect-refuses request provider m root need zero batch s t h got large = absurd (omega arith)
  collect-refuses request provider m root need (suc fuel) batch s t h got large =
      let over : ltb (min (m.total_size * 2) u64_max) (min (0 + sum_lengths batch) u64_max) ≡ true =
        ground arith in
      rw (got, over) refl

  module _ (hex : Hex) (blake3 : Bytes → Bytes) (bincode : Bincode) (cdc : Cdc) {S : Type 0}
      (request : Requests S) (submit_receipt : PeerId → ℕ → S → S) where
    -- Content of 1 to 76,800 bytes cannot be fetched by symbols. Where the encoder makes one packet for
    -- each 1,200 bytes and 64 for repair, as the codec documents, and the provider is honest, so that it
    -- sends the manifest and, as the first batch, the first 128 of the content's packets, the download is
    -- refused with BadChunk.
    pub download_fec-refuses_small :
        (root : Hash) (provider : PeerId) (w : World) (s s' t : S) (m : Manifest) (content : Bytes)
        → 0 < length content
        → length content ≤ 76800
        → length (raptorq.get_encoded_packets content 1200 64) ≡ div_ceil (length content) 1200 + 64
        → m.total_size ≡ length content
        → get_manifest request blake3 bincode provider root s ≡ (ok m, s')
        → fetch_symbols request provider root 0 fec_batch s'
          ≡ (ok (take 128 (encode raptorq content fec_repair_symbols).symbols), t)
        → download_fec hex blake3 bincode cdc raptorq request submit_receipt root provider w s
          ≡ some (err NetError.bad_chunk, (w, t))
    unfolding download_fec
    download_fec-refuses_small root provider w s s' t m content some_bytes few packets size listed
          got =
        let ps = raptorq.get_encoded_packets content 1200 64 in
        let sent : fetch_symbols request provider root 0 fec_batch s' ≡ (ok (take 128 ps), t) =
          got ∙ ap (λ l. (ok (take 128 l), t)) (encode-symbols content some_bytes) in
        let sum = sum_lengths-take 1200 _ 128 ps (
          raptorq.packets_fit content 64 some_bytes (omega (arith, raptorq.max_content_large))
            (omega arith)) in
        let count : length (take 128 ps) ≡ min 128 (div_ceil (length content) 1200 + 64) =
          length-take 128 ps ∙ ap (min 128) packets in
        let total : sum_lengths (take 128 ps)
            ≡ min 128 (div_ceil (length content) 1200 + 64) * 1204 =
          sum ∙ ap (λ n. n * 1204) count in
        let large = too_many (length content) some_bytes few in
        let refused =
          collect-refuses request provider m root (need_of m) (enough_rounds (need_of m))
            (take 128 ps) s' t (omega arith) sent (omega (arith, total, large, size)) in
        let within : ltb max_fec_transfer_size m.total_size ≡ false =
          small_within m.total_size (omega (arith, few, size)) in
        rw (listed, within, refused) refl
