-- ===== src/Net/Client.antt =====
-- `Network`: what a caller asks the peers for. `request` stands for the way of a request through the
-- event loop and the network, in a state `S` of its own, so a peer may answer in any way, and
-- differently each time.
use np2ptp.Prelude.{
  ℕ, ◌==◌, Option, none, some, List, ◌++◌, length, ◌≡◌, refl, inl, inr, Bool-cases, eq_bytes_iff,
  arith, true, not, ◌||◌, if◌then◌else◌, Bytes, codes, eq_bytes, Result, ok, err,
}
use np2ptp.Prelude.Runs.{Run, pure, lift, ◌>>=◌, bind-eq-ok}
use np2ptp.Core.Hash.{Hash}
use np2ptp.Core.Manifest.{Manifest, ManifestError, root_is_consistent}
use np2ptp.Core.Manifest.Container.{Bincode, from_nptp}
use np2ptp.Core.Manifest.Validate.{validate}
use np2ptp.Net.{PeerId, Request, Response, NetError}

abbrev pub Requests : Type 0 → Type 0
Requests S = PeerId → Request → Run S NetError Response

-- The key under which the DHT keeps the content id of a torrent.
unfoldable pub mapping_key : (Bytes → Bytes) → Bytes → Bytes
mapping_key blake3 infohash = blake3 (codes "np2ptp-bridge:v1:" ++ infohash)

-- `<[u8; 32]>::try_from`
abbrev pub as_root : Option Bytes → Option Hash
as_root none = none
as_root (some v) = if length v == 32 then some v else none

module _ {S : Type 0} (get_record : Bytes → Run S NetError (Option Bytes))
    (blake3 : Bytes → Bytes) where
  unfoldable pub get_mapping : Bytes → Run S NetError (Option Hash)
  get_mapping infohash = do value ← get_record (mapping_key blake3 infohash); pure (as_root value)

abbrev pub chunk_of : Response → Result NetError (Option Bytes)
chunk_of (Response.chunk data') = ok data'
chunk_of _ = err NetError.request_failed

abbrev pub symbol_of : Response → Result NetError (Option Bytes)
symbol_of (Response.symbol data') = ok data'
symbol_of _ = err NetError.request_failed

abbrev pub symbols_of : Response → Result NetError (List Bytes)
symbols_of (Response.symbols data') = ok data'
symbols_of _ = err NetError.request_failed

module _ {S : Type 0} (request : Requests S) where
  unfoldable pub fetch_chunk : PeerId → Hash → Run S NetError (Option Bytes)
  fetch_chunk peer h = do answer ← request peer (Request.chunk h); lift (chunk_of answer)

  unfoldable pub fetch_symbol : PeerId → Hash → ℕ → Run S NetError (Option Bytes)
  fetch_symbol peer root index = do
    answer ← request peer (Request.symbol root index)
    lift (symbol_of answer)

  unfoldable pub fetch_symbols : PeerId → Hash → ℕ → ℕ → Run S NetError (List Bytes)
  fetch_symbols peer root start count = do
    answer ← request peer (Request.symbols root start count)
    lift (symbols_of answer)

  module _ (blake3 : Bytes → Bytes) (bincode : Bincode) where
    abbrev pub if_valid : Manifest → Result ManifestError (Unit {0}) → Result NetError Manifest
    if_valid m (ok u) = ok m
    if_valid m (err e) = err NetError.bad_manifest

    -- The manifest is that of `root`, its chunks make that root, and its sizes fit together.
    abbrev pub check_manifest : Hash → Result ManifestError Manifest → Result NetError Manifest
    check_manifest root (err e) = err NetError.bad_manifest
    check_manifest root (ok m) =
        if not (eq_bytes m.root root) || not (root_is_consistent blake3 m)
        then err NetError.bad_manifest
        else if_valid m (validate m)

    abbrev pub accept_manifest : Hash → Response → Result NetError Manifest
    accept_manifest root (Response.manifest (some bytes)) =
        check_manifest root (from_nptp bincode bytes)
    accept_manifest root (Response.manifest none) = err NetError.no_manifest
    accept_manifest root _ = err NetError.request_failed

    unfoldable pub get_manifest : PeerId → Hash → Run S NetError Manifest
    get_manifest peer root = do
      answer ← request peer (Request.manifest root)
      lift (accept_manifest root answer)

    if_valid-ok :
        (n : Manifest) (v : Result ManifestError (Unit {0})) (m : Manifest)
        → if_valid n v ≡ ok m
        → (n ≡ m) × (v ≡ ok tt)
    if_valid-ok n (ok tt) m h = (cc h, refl)
    if_valid-ok n (err e) m h = cc h

    check_manifest-ok :
        (root : Hash) (r : Result ManifestError Manifest) (m : Manifest)
        → check_manifest root r ≡ ok m
        → (m.root ≡ root) × (root_is_consistent blake3 m ≡ true) × (validate m ≡ ok tt)
    check_manifest-ok root (err e) m h = cc h
    check_manifest-ok root (ok n) m h =
        elim (Bool-cases (not (eq_bytes n.root root) || not (root_is_consistent blake3 n))) [
          | inl bad ↦ cc (rw bad at h)
          | inr good ↦
              let (same, valid) = if_valid-ok n (validate n) m (rw good at h) in
              let right : n.root ≡ root = (eq_bytes_iff n.root root).0 (ground arith) in
              let consistent : root_is_consistent blake3 n ≡ true = ground arith in
              (rw same at right, rw same at consistent, rw same at valid)
        ]

    -- A manifest that is returned has the root that was asked for, its chunks' hashes make this root,
    -- and it is valid, whatever the peer answered.
    pub get_manifest_sound :
        (peer : PeerId) (root : Hash) (s : S) (m : Manifest)
        → (get_manifest peer root s).0 ≡ ok m
        → (m.root ≡ root) × (root_is_consistent blake3 m ≡ true) × (validate m ≡ ok tt)
    unfolding get_manifest
    get_manifest_sound peer root s m h =
        let (answer, _, accepted) =
          bind-eq-ok (request peer (Request.manifest root)) (λ a. lift (accept_manifest root a)) s m
            h in
        checked answer accepted
      where
        checked :
            (answer : Response)
            → accept_manifest root answer ≡ ok m
            → (m.root ≡ root) × (root_is_consistent blake3 m ≡ true) × (validate m ≡ ok tt)
        checked (Response.manifest (some bytes)) e =
            check_manifest-ok root (from_nptp bincode bytes) m e
        checked (Response.manifest none) e = cc e
        checked (Response.chunk o) e = cc e
        checked (Response.symbol o) e = cc e
        checked (Response.symbols syms) e = cc e
        checked Response.receipt_ack e = cc e
        checked (Response.receipts rs) e = cc e
