-- ===== src/Net/Fountain.antt =====
-- `download_fec_with_progress`: symbols are fetched in batches until the content can be decoded. The
-- progress callback is not modelled. The loop runs on fuel, and Net/Rounds.antt shows it is enough.
use np2ptp.Prelude.{
  ℕ, zero, suc, ◌+◌, ◌-◌, ◌*◌, ◌/◌, ◌^◌, ◌%◌, min, leb, ltb, Option, none, some, List, [], ◌∷◌,
  ◌++◌, length, Bool, true, false, ◌||◌, if◌then◌else◌, Bytes, eq_bytes, Result, ok, err, u64_max,
  saturating_add,
}
use np2ptp.Prelude.Runs.{Run, carry}
use np2ptp.Core.Hash.{Hash}
use np2ptp.Core.Chunk.{Cdc}
use np2ptp.Core.Manifest.{Manifest, ManifestError}
use np2ptp.Core.Manifest.Build.{from_files}
use np2ptp.Core.Manifest.Container.{Hex, Bincode}
use np2ptp.Core.Manifest.Reconstruct.{split_stream}
use np2ptp.Bridge.Pieces.{div_ceil}
use np2ptp.Fec.{Raptorq, config_for, decode, default_symbol_size}
use np2ptp.Store.{World}
use np2ptp.Store.Tree.{ingest_tree}
use np2ptp.Net.{PeerId, NetError, fec_batch, max_fec_transfer_size, max_decode_attempts}
use np2ptp.Net.Serve.{sum_lengths}
use np2ptp.Net.Client.{Requests, fetch_symbols, get_manifest}

-- The variables of the loop.
pub record Collected : Type 0 where
  pub symbols : List Bytes
  pub start : ℕ
  pub fetched_bytes : ℕ
  pub last_attempt_len : ℕ
  pub attempts : ℕ

abbrev pub nothing_yet : Collected
nothing_yet = record {
  symbols = [];
  start = 0;
  fetched_bytes = 0;
  last_attempt_len = 0;
  attempts = 0;
}

-- `x.max(1)`
abbrev pub at_least_one : ℕ → ℕ
at_least_one x = if leb 1 x then x else 1

abbrev pub need_of : Manifest → ℕ
need_of m = at_least_one (div_ceil m.total_size default_symbol_size)

-- The new symbols that another attempt wants.
abbrev pub spacing : ℕ → ℕ
spacing need = at_least_one (need / 4)

unfoldable pub add_batch : List Bytes → Collected → Collected
add_batch batch c = record c {
  symbols = c.symbols ++ batch;
  start = min (c.start + length batch % 2 ^ 32) (2 ^ 32 - 1);
  fetched_bytes = saturating_add c.fetched_bytes (sum_lengths batch);
}

-- How a round ends, if not with an error: with the content and the bytes fetched for it, or not yet.
pub data Round : Type 0 where
  decoded : Bytes → ℕ → Round
  go_on : Collected → Round

abbrev pub is_empty : List Bytes → Bool
is_empty [] = true
is_empty (s ∷ batch) = false

module _ {D : Type 0} (raptorq : Raptorq D) (m : Manifest) (root : Hash) (need : ℕ) where
  abbrev pub settle : Bool → Collected → Result NetError Round
  settle exhausted c =
      if exhausted
      then err (NetError.missing_chunk root)
      else if leb max_decode_attempts c.attempts
      then err NetError.bad_chunk
      else ok (go_on c)

  abbrev pub tried : Bool → Collected → Option Bytes → Result NetError Round
  tried exhausted c (some data') = ok (decoded data' c.fetched_bytes)
  tried exhausted c none = settle exhausted c

  abbrev pub counted_attempt : Collected → Collected
  counted_attempt c = record c { last_attempt_len = length c.symbols; attempts = c.attempts + 1 }

  abbrev pub decode_all : Collected → Option Bytes
  decode_all c =
      decode raptorq (config_for raptorq m.total_size default_symbol_size) m.total_size c.symbols

  unfoldable pub attempt : Bool → Collected → Result NetError Round
  attempt exhausted c =
      if leb (spacing need) (length c.symbols - c.last_attempt_len) || exhausted
      then tried exhausted (counted_attempt c) (decode_all c)
      else settle exhausted c

  -- The body of the loop behind the batch.
  unfoldable pub after_batch : Bool → Collected → Result NetError Round
  after_batch exhausted c =
      if ltb (min (m.total_size * 2) u64_max) c.fetched_bytes
      then err NetError.bad_chunk
      else if leb need (length c.symbols) || exhausted
      then attempt exhausted c
      else ok (go_on c)

  module _ {S : Type 0} (request : Requests S) (provider : PeerId) where
    abbrev pub Outcome : Type 0
    Outcome = Option (Result NetError (Bytes × ℕ)) × S

    abbrev pub proceed : (Collected → S → Outcome) → Result NetError Round → S → Outcome
    proceed rest (err e) s = (some (err e), s)
    proceed rest (ok (decoded data' fetched)) s = (some (ok (data', fetched)), s)
    proceed rest (ok (go_on c)) s = rest c s

    abbrev pub receive_batch :
        (Collected → S → Outcome) → Collected → Result NetError (List Bytes) × S → Outcome
    receive_batch rest c (err e, s) = (some (err e), s)
    receive_batch rest c (ok batch, s) =
        proceed rest (after_batch (is_empty batch) (add_batch batch c)) s

    unfoldable pub collect : ℕ → Collected → S → Outcome
    collect zero c s = (none, s)
    collect (suc fuel) c s =
        let rest = collect fuel in
        receive_batch rest c (fetch_symbols request provider root c.start fec_batch s)

-- One round for each symbol that is needed, sixteen attempts with their rounds between, and one more.
abbrev pub enough_rounds : ℕ → ℕ
enough_rounds need = need + 16 * (spacing need + 1) + spacing need + 1

-- `map_err(|_| e)`
abbrev pub or_bad_chunk {ℓ} : {A : Type ℓ} → Result ManifestError A → Result NetError A
or_bad_chunk (ok a) = ok a
or_bad_chunk (err e) = err NetError.bad_chunk

-- A step of the network beside the local store.
abbrev pub on_network {ℓ} :
    {S : Type 0} {A : Type ℓ} → Run S NetError A → Run (World × S) NetError A
on_network step (w, s) = let (r, s') = step s in (r, (w, s'))

module _ (hex : Hex) (blake3 : Bytes → Bytes) (bincode : Bincode) (cdc : Cdc) {D : Type 0}
    (raptorq : Raptorq D) {S : Type 0} (request : Requests S)
    (submit_receipt : PeerId → ℕ → S → S) where
  abbrev pub thank : PeerId → ℕ → S → S
  thank provider fetched s = if ltb 0 fetched then submit_receipt provider fetched s else s

  -- The files go into the store if they make the content id.
  unfoldable pub keep_files :
      Manifest → Hash → PeerId → ℕ → List (Bytes × Bytes) → Run (World × S) NetError Manifest
  keep_files m root provider fetched files (w, s) =
      if eq_bytes (from_files blake3 cdc files m.name).root root
      then (ok m, ((ingest_tree hex blake3 cdc files m.name w).1, thank provider fetched s))
      else (err NetError.bad_chunk, (w, s))

  abbrev pub keep_decoded :
      Manifest → Hash → PeerId → Result NetError (Bytes × ℕ) → Run (World × S) NetError Manifest
  keep_decoded m root provider (err e) (w, s) = (err e, (w, s))
  keep_decoded m root provider (ok (content, fetched)) (w, s) =
      carry (or_bad_chunk (split_stream m content)) (keep_files m root provider fetched) (w, s)

  abbrev pub Fetched : Type 0
  Fetched = Option (Result NetError Manifest × (World × S))

  abbrev pub finish_fec :
      Manifest → Hash → PeerId → World → Option (Result NetError (Bytes × ℕ)) × S → Fetched
  finish_fec m root provider w (none, s) = none
  finish_fec m root provider w (some r, s) = some (keep_decoded m root provider r (w, s))

  abbrev pub fetch_content : Hash → PeerId → World → Result NetError Manifest × S → Fetched
  fetch_content root provider w (err e, s) = some (err e, (w, s))
  fetch_content root provider w (ok m, s) =
      if ltb max_fec_transfer_size m.total_size
      then some (err NetError.bad_manifest, (w, s))
      else finish_fec m root provider w (
          collect raptorq m root (need_of m) request provider (enough_rounds (need_of m))
            nothing_yet s)

  -- None if the fuel runs out.
  unfoldable pub download_fec : Hash → PeerId → World → S → Fetched
  download_fec root provider w s =
      fetch_content root provider w (get_manifest request blake3 bincode provider root s)
