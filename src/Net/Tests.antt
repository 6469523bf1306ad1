-- ===== src/Net/Tests.antt =====
-- The event loop and the downloads at concrete inputs.
use np2ptp.Prelude.{
  ◌+◌, ◌≡◌, refl, none, some, List, [], ◌∷◌, length, true, false, ◌⊎◌, Bytes, eq_bytes, ok, arith,
}
use np2ptp.Prelude.Maps.{lookup}
use np2ptp.Core.Hash.{Hash}
use np2ptp.Core.Manifest.{Manifest}
use np2ptp.Core.Manifest.Container.{Bincode}
use np2ptp.Core.Toy.{toy_blake3}
use np2ptp.Rep.Ledger.{counters, record_served, credit}
use np2ptp.Rep.Ledger
use np2ptp.Rep.Ledger.Tests.{ids, alice, bob, ledger, different}
use np2ptp.Rep.Receipt.{Receipt, issue}
use np2ptp.Rep.Receipt.Tests.{key_of, toy_ed25519}
use np2ptp.Fec.Toy.{toy_raptorq}
use np2ptp.Store.Intact.{synced}
use np2ptp.Store.Sound.{Sound, holds}
use np2ptp.Store.Toy.{toy_hex, two_bytes, old_store, old_store-Sound}
use np2ptp.Net.{Request, Response, EventLoop, new, Command}
use np2ptp.Net.Swarm.{Swarm, Event}
use np2ptp.Net.Serve.{serve, serve_chunk}
use np2ptp.Net.Served.{payload, serve-charged}
use np2ptp.Net.Choke.{TakesTooMuch, serve_chunk_lem}
use np2ptp.Net.Credit.{handle_receipts_response}
use np2ptp.Net.Credited.{Chosen, sum_bytes, handle_receipts_response_lem}
use np2ptp.Net.Loop.{Input, run, step, on_command}
use np2ptp.Net.Replies.{waiting, answers, asks_all, Fresh}
use np2ptp.Net.Conserved.{AllFresh, run-conserves}

abbrev two_id : Hash
two_id = toy_blake3 two_bytes

nothing_written : (m : Manifest) (body : Bytes) → none ≡ some body → none ≡ some m
nothing_written m body h = cc h

abbrev no_codec : Bincode
no_codec = record {
  serialize = λ m. none;
  deserialize = λ body. none;
  deserialize-serialize = nothing_written;
}

-- A node that has one chunk and knows the key of one peer.
abbrev node : EventLoop
node = record (new old_store ledger [] (5 ∷ []) 1000) { rep_peers = (alice, key_of alice) ∷ [] }

alice-we_served : (counters ids ledger alice).we_served ≡ 90
unfolding counters eq_bytes
alice-we_served = refl

alice-credited : (counters ids ledger alice).credited_by_receipts ≡ 0
unfolding counters eq_bytes
alice-credited = refl

serve-charged_example :
    (counters ids
        (serve toy_hex toy_blake3 no_codec toy_raptorq ids toy_ed25519 alice
          (Request.chunk two_id)
          node).1.ledger
        alice
      ≡ Ledger.serve
          (payload
            (serve toy_hex toy_blake3 no_codec toy_raptorq ids toy_ed25519 alice
              (Request.chunk two_id)
              node).0)
          (counters ids node.ledger alice))
    × (counters ids
          (serve toy_hex toy_blake3 no_codec toy_raptorq ids toy_ed25519 alice
            (Request.chunk two_id)
            node).1.ledger
          bob
        ≡ counters ids node.ledger bob)
unfolding new
serve-charged_example =
    serve-charged toy_hex toy_blake3 no_codec toy_raptorq ids toy_ed25519 alice bob
      (Request.chunk two_id) node (omega (arith, alice-we_served)) different

abbrev AfterChunk : Response × EventLoop → Type 0
AfterChunk out =
    (TakesTooMuch node.choke_threshold (counters ids node.ledger alice)
      × (out ≡ (Response.chunk none, node)))
    ⊎ (¬ TakesTooMuch node.choke_threshold (counters ids node.ledger alice)
        × Sound toy_hex toy_blake3 out.1.store
        × (((holds toy_hex toy_blake3 node.store two_id ≡ true)
              × (bytes : Bytes) × (toy_blake3 bytes ≡ two_id)
              × (out.0 ≡ Response.chunk (some bytes))
              × (out.1.ledger ≡ record_served ids node.ledger alice (length bytes)))
            ⊎ ((holds toy_hex toy_blake3 node.store two_id ≡ false)
                × (out.0 ≡ Response.chunk none)
                × (out.1 ≡ record node { store = synced toy_hex node.store }))))

serve_chunk_lem_example :
    AfterChunk (serve_chunk toy_hex toy_blake3 no_codec toy_raptorq ids alice two_id node)
unfolding new
serve_chunk_lem_example =
    serve_chunk_lem toy_hex toy_blake3 no_codec toy_raptorq ids alice two_id node old_store-Sound
      (omega arith)

-- A receipt about the peer, twice.
abbrev twice : List Receipt
twice = let r = issue toy_ed25519 (3 ∷ []) (key_of alice) 7 1 in r ∷ r ∷ []

handle_receipts_response_lem_example :
    (chosen : List Receipt) × Chosen toy_ed25519 ids (key_of alice) twice chosen
    × (counters ids
          (handle_receipts_response toy_ed25519 ids alice (Response.receipts twice) node).ledger
          alice
        ≡ credit (sum_bytes chosen) (counters ids node.ledger alice))
    × (counters ids
          (handle_receipts_response toy_ed25519 ids alice (Response.receipts twice) node).ledger
          bob
        ≡ counters ids node.ledger bob)
unfolding new lookup eq_bytes
handle_receipts_response_lem_example =
    handle_receipts_response_lem toy_ed25519 ids alice bob (key_of alice) twice node refl
      (omega (arith, alice-credited)) different

abbrev quiet : Swarm
quiet = record {
  listen_on = ok tt;
  dial = ok tt;
  listeners = [];
  external_addresses = [];
  connected_peers = [];
  next_id = 4;
  put_record = some 9;
}

-- Channel 1 asks for a chunk, channel 2 for providers; the answers come in the other order.
abbrev inputs : List Input
inputs =
    Input.command quiet (Command.request alice (Request.chunk two_id) 1)
    ∷ Input.command quiet (Command.find_providers two_id 2)
    ∷ Input.event quiet 0 (Event.providers_found 4 (bob ∷ []) true)
    ∷ Input.event quiet 1 (Event.response alice 4 (Response.chunk none))
    ∷ Input.save_tick true
    ∷ []

inputs-AllFresh : AllFresh toy_hex toy_blake3 no_codec toy_raptorq ids toy_ed25519 inputs node
unfolding AllFresh Fresh new lookup step on_command
inputs-AllFresh = (refl, (refl, (tt, (tt, (tt, tt)))))

run-conserves_example :
    answers 1 (run toy_hex toy_blake3 no_codec toy_raptorq ids toy_ed25519 inputs node).0
      + waiting 1 (run toy_hex toy_blake3 no_codec toy_raptorq ids toy_ed25519 inputs node).1
    ≡ asks_all 1 inputs + waiting 1 node
run-conserves_example =
    run-conserves 1 toy_hex toy_blake3 no_codec toy_raptorq ids toy_ed25519 inputs node
      inputs-AllFresh
