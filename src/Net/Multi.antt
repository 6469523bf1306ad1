-- ===== src/Net/Multi.antt =====
-- `download_multi_with_progress`: chunks are fetched from several providers at once. The progress
-- callback is not modelled. What the providers answer to the chunk requests is a function of the slot
-- of a chunk among the missing ones, of the attempt and of the hash; `arrange` puts the results in the order in
-- which `buffer_unordered` yields them.
use np2ptp.Prelude.{
  ℕ, zero, suc, ◌+◌, ◌^◌, ◌%◌, Option, none, some, List, [], ◌∷◌, length, get_elem?, ltb,
  if◌then◌else◌, Bytes, eq_bytes, Result, ok, err,
}
use np2ptp.Prelude.Maps.{Map, lookup, insert}
use np2ptp.Core.Hash.{Hash}
use np2ptp.Core.Manifest.{ChunkRef, Manifest, chunk_hash_ok}
use np2ptp.Core.Manifest.Container.{Hex, Bincode}
use np2ptp.Store.{World, has, put}
use np2ptp.Net.{PeerId, NetError}
use np2ptp.Net.Client.{Requests, get_manifest}

abbrev pub Answers : Type 0
Answers = ℕ → ℕ → Hash → Result NetError (Option Bytes)

-- A chunk and who sent it.
abbrev pub Arrival : Type 0
Arrival = Result NetError (Bytes × PeerId)

-- `providers[i]`; the first clause is out of reach.
abbrev pub or_nobody : Option PeerId → PeerId
or_nobody none = []
or_nobody (some p) = p

abbrev pub provider_at : List PeerId → ℕ → PeerId
provider_at providers i = or_nobody (get_elem? providers i)

-- `i % n`, with `n` the number of providers, which is not 0.
abbrev pub wrap : ℕ → ℕ → ℕ
wrap i zero = i
wrap i (suc n) = i % suc n

module _ (blake3 : Bytes → Bytes) (m : Manifest) (providers : List PeerId) (answers : Answers) where
  -- One provider's answer: the chunk, or the reason to go on with the next one.
  abbrev pub judge :
      ℕ → Hash → PeerId → (NetError → Arrival) → Result NetError (Option Bytes) → Arrival
  judge i h p next (ok (some bytes)) =
      if chunk_hash_ok blake3 m i bytes then ok (bytes, p) else next NetError.bad_chunk
  judge i h p next (ok none) = next (NetError.missing_chunk h)
  judge i h p next (err e) = next e

  -- The loop over the providers, with the number of those that are left.
  unfoldable pub try_providers : ℕ → ℕ → Hash → ℕ → ℕ → NetError → Arrival
  try_providers slot i h zero k last_err = err last_err
  try_providers slot i h (suc left) k last_err =
      let next = try_providers slot i h left (suc k) in
      judge i h (provider_at providers (wrap (slot + k) (length providers))) next (answers slot k h)

  unfoldable pub fetch_slot : ℕ → ℕ × Hash → Arrival
  fetch_slot slot (i, h) = try_providers slot i h (length providers) 0 (NetError.missing_chunk h)

  unfoldable pub fetch_missing : ℕ → List (ℕ × Hash) → List Arrival
  fetch_missing slot [] = []
  fetch_missing slot (t ∷ ts) = fetch_slot slot t ∷ fetch_missing (suc slot) ts

-- The variables of the loop over the results.
pub record Drained : Type 0 where
  pub store : World
  pub fetched_bytes : Map PeerId ℕ
  pub first_failure : Option NetError

-- `*fetched_bytes.entry(from).or_insert(0) += n`
abbrev pub or_zero : Option ℕ → ℕ
or_zero none = 0
or_zero (some n) = n

abbrev pub add_bytes : Map PeerId ℕ → PeerId → ℕ → Map PeerId ℕ
add_bytes fetched from n =
    insert eq_bytes fetched from ((or_zero (lookup eq_bytes fetched from) + n) % 2 ^ 64)

abbrev pub or_first : Option NetError → NetError → Option NetError
or_first none e = some e
or_first (some first) e = some first

-- Whom to send a receipt, for how many bytes.
unfoldable pub receipts_due : Map PeerId ℕ → List (PeerId × ℕ)
receipts_due [] = []
receipts_due ((peer, bytes) ∷ fetched) =
    let rest = receipts_due fetched in if ltb 0 bytes then (peer, bytes) ∷ rest else rest

module _ (hex : Hex) (blake3 : Bytes → Bytes) where
  -- The chunks that the store does not have, with their places.
  unfoldable pub missing_from : ℕ → List ChunkRef → World → List (ℕ × Hash) × World
  missing_from i [] w = ([], w)
  missing_from i (c ∷ cs) w =
      let (held, w') = has hex c.hash w in
      let (rest, w'') = missing_from (suc i) cs w' in
      (if held then rest else (i, c.hash) ∷ rest, w'')

  abbrev pub take_in : Arrival → Drained → Drained
  take_in (ok (bytes, from)) d = record d {
    store = (put hex blake3 bytes d.store).1;
    fetched_bytes = add_bytes d.fetched_bytes from (length bytes);
  }
  take_in (err e) d = record d { first_failure = or_first d.first_failure e }

  -- The loop over the results as they arrive.
  unfoldable pub drain : List Arrival → Drained → Drained
  drain [] d = d
  drain (r ∷ rs) d = drain rs (take_in r d)

  abbrev pub outcome : Manifest → Option NetError → Result NetError Manifest
  outcome m none = ok m
  outcome m (some e) = err e

  -- What is done once the manifest is there: the result, the receipts and the store.
  unfoldable pub download_chunks :
      List PeerId
      → Answers
      → (List Arrival → List Arrival)
      → Manifest
      → World
      → Result NetError Manifest × List (PeerId × ℕ) × World
  download_chunks providers answers arrange m w =
      let (missing, w') = missing_from 0 m.chunks w in
      let done =
        drain (arrange (fetch_missing blake3 m providers answers 0 missing))
          (record { store = w'; fetched_bytes = []; first_failure = none }) in
      (outcome m done.first_failure, receipts_due done.fetched_bytes, done.store)

  module _ (bincode : Bincode) {S : Type 0} (request : Requests S) where
    abbrev pub or_next :
        (NetError → S → Result NetError Manifest × S)
        → Result NetError Manifest × S
        → Result NetError Manifest × S
    or_next next (ok m, s) = (ok m, s)
    or_next next (err e, s) = next e s

    -- The manifest of the first provider that has it, or the last error.
    unfoldable pub first_manifest : Hash → List PeerId → NetError → S → Result NetError Manifest × S
    first_manifest root [] last_err s = (err last_err, s)
    first_manifest root (p ∷ ps) last_err s =
        let next = first_manifest root ps in
        or_next next (get_manifest request blake3 bincode p root s)

    abbrev pub download_found :
        List PeerId
        → (S → Answers)
        → (List Arrival → List Arrival)
        → World
        → Result NetError Manifest × S
        → Result NetError Manifest × List (PeerId × ℕ) × World
    download_found providers answers arrange w (err e, s) = (err e, [], w)
    download_found providers answers arrange w (ok m, s) =
        download_chunks providers (answers s) arrange m w

    -- No provider at all is the error that the loop over the manifests starts from.
    unfoldable pub download_multi :
        Hash
        → List PeerId
        → (S → Answers)
        → (List Arrival → List Arrival)
        → World
        → S
        → Result NetError Manifest × List (PeerId × ℕ) × World
    download_multi root providers answers arrange w s =
        download_found providers answers arrange w
          (first_manifest root providers NetError.no_providers s)
