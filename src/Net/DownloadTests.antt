-- ===== src/Net/DownloadTests.antt =====
-- Downloads over the network at concrete inputs.
use mathlib.Core.List.Permᴰ
use np2ptp.Prelude.{
  ℕ, zero, suc, ◌+◌, ◌≤◌, ◌≡◌, refl, sym, ap, ◌∙◌, none, some, List, [], ◌∷◌, ◌++◌, length, take,
  true, Bytes, codes, eq_bytes, eq_bytes_refl, Result, ok, err, arith,
}
use np2ptp.Prelude.Maps.{lookup}
use np2ptp.Bridge.Pieces.{div_ceil}
use np2ptp.Core.Hash.{Hash, merkle_root}
use np2ptp.Core.Manifest.{ChunkRef, Manifest, hashes, root_is_consistent}
use np2ptp.Core.Manifest.Build.{from_files, add_file}
use np2ptp.Core.Manifest.Build.Valid.{validate-from_files}
use np2ptp.Core.Manifest.Container.{Bincode, nptp_magic, from_nptp, from_serialized}
use np2ptp.Core.Manifest.Reconstruct.{split_stream, cut_files, cut_file}
use np2ptp.Core.Manifest.Validate.{validate, check_files, check_file}
use np2ptp.Core.Chunk.{chunk, chunk_with}
use np2ptp.Core.Toy.{toy_blake3, toy_digest, toy_cdc, fixed}
use np2ptp.Fec.{Raptorq, config_for, decode_symbols, zeros, encode, decode}
use np2ptp.Fec.Toy.{toy_raptorq, packet, copies}
use np2ptp.Store.{World}
use np2ptp.Store.Tree.{ingest_tree}
use np2ptp.Store.Text.{u32_max}
use np2ptp.Store.Sound.Room.{Room}
use np2ptp.Store.Toy.{toy_hex, plain, empty_store, empty_store-Sound, two_bytes}
use np2ptp.Net.{PeerId, Request, Response, NetError}
use np2ptp.Net.Client.{Requests, fetch_symbols, get_manifest}
use np2ptp.Net.Serve.{sum_lengths}
use np2ptp.Net.Fountain.{
  need_of, collect, enough_rounds, nothing_yet, add_batch, after_batch, attempt, keep_files,
  download_fec,
}
use np2ptp.Net.Rounds.{download_fec-returns}
use np2ptp.Net.Recovered.{Recovers, download_fec_sound}
use np2ptp.Net.Refused.{download_fec-refuses_small}
use np2ptp.Net.Multi.{Answers, Arrival, first_manifest, download_multi, download_chunks}
use np2ptp.Net.Live.{Served, download_chunks_live}
use np2ptp.Net.Completed.{Kept}
use np2ptp.Net.Delivered.{Delivered, download_multi_lem}

abbrev hey : Bytes
hey = codes "hey"

abbrev files : List (Bytes × Bytes)
files = (codes "x", hey) ∷ []

abbrev wanted : Manifest
wanted = from_files toy_blake3 toy_cdc files none

nothing_written : (m : Manifest) (body : Bytes) → none ≡ some body → some wanted ≡ some m
nothing_written m body h = cc h

-- A codec that reads this manifest out of everything.
abbrev codec : Bincode
codec = record {
  serialize = λ m. none;
  deserialize = λ body. some wanted;
  deserialize-serialize = nothing_written;
}

-- The manifest's file, and a batch of symbols at each question.
abbrev answer_to : List Bytes → Request → Response
answer_to batch (Request.manifest root) = Response.manifest (some (nptp_magic ++ 1 ∷ []))
answer_to batch (Request.symbols root start count) = Response.symbols batch
answer_to batch _ = Response.receipt_ack

abbrev peers : List Bytes → Requests (Unit {0})
peers batch peer asked s = (ok (answer_to batch asked), s)

wanted_listed :
    (batch : List Bytes)
    → get_manifest (peers batch) toy_blake3 codec [] wanted.root tt ≡ (ok wanted, tt)
unfolding get_manifest from_nptp from_serialized eq_bytes
wanted_listed batch =
    let (valid, consistent) = validate-from_files toy_blake3 toy_cdc files none (omega arith) in
    rw (eq_bytes_refl wanted.root, valid, consistent) refl

abbrev thank_nobody : PeerId → ℕ → Unit {0} → Unit {0}
thank_nobody peer bytes s = s

-- With a codec whose symbols have one byte, one packet is enough.
abbrev small_symbols : Raptorq Bytes
small_symbols = record toy_raptorq { with_defaults = λ len size. 1 ∷ hey }

collected :
    collect small_symbols wanted wanted.root
      (need_of wanted)
      (peers (packet 1 ∷ []))
      []
      (enough_rounds (need_of wanted))
      nothing_yet
      tt
    ≡ (some (ok (hey, 5)), tt)
unfolding collect fetch_symbols add_batch after_batch attempt decode config_for decode_symbols
    sum_lengths from_files add_file div_ceil zeros eq_bytes
collected = refl

cut_up : split_stream wanted hey ≡ ok files
unfolding split_stream validate check_files check_file cut_files cut_file from_files add_file chunk
    chunk_with fixed
cut_up = refl

abbrev stored : World
stored = (ingest_tree toy_hex toy_blake3 toy_cdc files none empty_store).1

fetched :
    download_fec toy_hex toy_blake3 codec toy_cdc small_symbols
      (peers (packet 1 ∷ []))
      thank_nobody
      wanted.root
      []
      empty_store
      tt
    ≡ some (ok wanted, (stored, tt))
unfolding download_fec keep_files from_files add_file
fetched = rw (wanted_listed (packet 1 ∷ []), collected, cut_up, eq_bytes_refl wanted.root) refl

download_fec_sound_example :
    (wanted.root ≡ wanted.root)
    × (root_is_consistent toy_blake3 wanted ≡ true)
    × (validate wanted ≡ ok tt)
    × Recovers toy_hex toy_blake3 codec toy_cdc small_symbols
        (peers (packet 1 ∷ []))
        thank_nobody
        wanted.root
        empty_store
        wanted
        stored
download_fec_sound_example =
    download_fec_sound toy_hex toy_blake3 codec toy_cdc small_symbols (peers (packet 1 ∷ []))
      thank_nobody wanted.root [] empty_store stored tt tt wanted fetched

-- A provider that sends symbols of no bytes for ever.
download_fec-returns_example :
    (r : Result NetError Manifest) × (v : World) × (t : Unit {0}) × (download_fec toy_hex toy_blake3
        codec toy_cdc toy_raptorq
        (peers ([] ∷ []))
        thank_nobody
        wanted.root
        []
        empty_store
        tt
      ≡ some (r, (v, t)))
download_fec-returns_example =
    download_fec-returns toy_hex toy_blake3 codec toy_cdc toy_raptorq (peers ([] ∷ [])) thank_nobody
      wanted.root [] empty_store tt

-- The first 128 packets of the content.
abbrev honest : List Bytes
honest = take 128 (encode toy_raptorq hey 64).symbols

as_many : length (toy_raptorq.get_encoded_packets hey 1200 64) ≡ div_ceil (length hey) 1200 + 64
unfolding div_ceil copies
as_many = refl

wanted-size : wanted.total_size ≡ 3
unfolding from_files add_file
wanted-size = refl

sends_honest : fetch_symbols (peers honest) [] wanted.root 0 128 tt ≡ (ok honest, tt)
unfolding fetch_symbols
sends_honest = refl

download_fec-refuses_small_example :
    download_fec toy_hex toy_blake3 codec toy_cdc toy_raptorq
      (peers honest)
      thank_nobody
      wanted.root
      []
      empty_store
      tt
    ≡ some (err NetError.bad_chunk, (empty_store, tt))
download_fec-refuses_small_example =
    download_fec-refuses_small toy_raptorq toy_hex toy_blake3 codec toy_cdc (peers honest)
      thank_nobody wanted.root [] empty_store tt tt tt wanted hey (omega arith) (omega arith)
      as_many wanted-size (wanted_listed honest) sends_honest

abbrev two_chunks : List ChunkRef
two_chunks =
    record { hash = toy_blake3 two_bytes; offset = 0; length = 2 }
    ∷ record { hash = toy_blake3 two_bytes; offset = 2; length = 2 }
    ∷ []

abbrev doubled : Manifest
doubled = record {
  root = merkle_root toy_blake3 (hashes two_chunks);
  total_size = 4;
  chunks = two_chunks;
  files = [];
  name = none;
}

-- The first provider that is asked fails; the second one has the chunk.
abbrev second_try : Answers
second_try slot zero h = err NetError.request_failed
second_try slot (suc k) h = ok (some two_bytes)

second_try-small :
    (t : Unit {0}) (slot k : ℕ) (h : Hash) (bytes : Bytes)
    → second_try slot k h ≡ ok (some bytes)
    → length bytes ≤ u32_max
second_try-small t slot zero h bytes e = cc e
second_try-small t slot (suc k) h bytes e =
    let same : two_bytes ≡ bytes = cc e in omega (arith, ap length (sym same))

abbrev two_peers : List PeerId
two_peers = (1 ∷ []) ∷ (2 ∷ []) ∷ []

abbrev as_sent : List Arrival → List Arrival
as_sent rs = rs

second-Served : Served toy_blake3 doubled two_peers second_try (toy_blake3 two_bytes)
second-Served slot = (1, omega arith, two_bytes, refl, refl)

download_chunks_live_example :
    (download_chunks toy_hex toy_blake3 two_peers second_try as_sent doubled empty_store).0
    ≡ ok doubled
download_chunks_live_example =
    download_chunks_live toy_blake3 doubled two_peers second_try toy_hex as_sent empty_store
      Permᴰ.refl (second-Served, (second-Served, tt))

abbrev any_answers : Unit {0} → Answers
any_answers t = second_try

first_found :
    (first_manifest toy_hex toy_blake3 codec
      (peers [])
      wanted.root
      two_peers
      NetError.no_providers
      tt).0
    ≡ ok wanted
unfolding first_manifest get_manifest from_files
first_found = rw (wanted_listed []) refl

one_chunk : length wanted.chunks ≡ 1
unfolding from_files add_file chunk chunk_with fixed
one_chunk = refl

enough-Room :
    (m : Manifest)
    → (first_manifest toy_hex toy_blake3 codec
        (peers [])
        wanted.root
        two_peers
        NetError.no_providers
        tt).0
      ≡ ok m
    → Room (length m.chunks) empty_store
unfolding lookup
enough-Room m e =
    let same : wanted ≡ m = cc (e, first_found) in
    let one : length m.chunks ≡ 1 = ap (λ (n : Manifest). length n.chunks) (sym same) ∙ one_chunk in
    (omega (arith, one), λ id. omega (arith, one))

download_multi_lem_example :
    Kept toy_hex plain toy_blake3 toy_digest empty_store
      (download_multi toy_hex toy_blake3 codec
        (peers [])
        wanted.root
        two_peers
        any_answers
        as_sent
        empty_store
        tt).2
    × Delivered toy_hex plain toy_blake3 toy_digest codec
        (peers [])
        any_answers
        second_try-small
        as_sent
        Permᴰ.refl
        wanted.root
        (download_multi toy_hex toy_blake3 codec
          (peers [])
          wanted.root
          two_peers
          any_answers
          as_sent
          empty_store
          tt).2
        (download_multi toy_hex toy_blake3 codec
          (peers [])
          wanted.root
          two_peers
          any_answers
          as_sent
          empty_store
          tt).0
download_multi_lem_example =
    download_multi_lem toy_hex plain toy_blake3 toy_digest codec (peers []) any_answers
      second_try-small as_sent Permᴰ.refl wanted.root two_peers empty_store tt empty_store-Sound
      enough-Room
