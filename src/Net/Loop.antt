-- ===== src/Net/Loop.antt =====
-- `on_command`, `on_rr`, `on_kad`, `on_event` and the loop of `run`: one step is one command, event or
-- tick. What is printed, and the calls that save files, are left out.
use np2ptp.Prelude.{
  ℕ, ◌+◌, ◌^◌, ◌%◌, Option, none, some, List, [], ◌∷◌, ◌++◌, map, ◌==◌, Bool, true, false, ◌&&◌,
  not, if◌then◌else◌, Bytes, eq_bytes, length, ok, err,
}
use np2ptp.Prelude.Maps.{Map, lookup, insert, remove}
use np2ptp.Core.Manifest.Container.{Hex, Bincode}
use np2ptp.Rep.Ledger.{Key, counters, record_received, reputation, totals}
use np2ptp.Rep.Receipt.{Ed25519, issue}
use np2ptp.Fec.{Raptorq}
use np2ptp.Net.{
  PeerId, Multiaddr, NetError, Request, Response, Channel, RequestId, Command, Answer,
  InternalRequest, EventLoop,
}
use np2ptp.Net.Swarm.{
  Swarm, Action, Event, Step, contains_peer, remove_peer, finish_providers, add_providers,
  answer_get, answer_put, answer_request, dial_found,
}
use np2ptp.Net.Serve.{serve}
use np2ptp.Net.Credit.{handle_receipts_response}

module _ (ed25519 : Ed25519) (key : Key PeerId) where
  -- `Command::SubmitReceipt` for a peer whose key is known. The epoch is a `u64`.
  abbrev pub submit : Swarm → PeerId → ℕ → EventLoop → Option Bytes → Step
  submit swarm peer bytes node none = ([], node)
  submit swarm peer bytes node (some server) = (
    Action.send_request peer (
          Request.submit_receipt
            (issue ed25519 node.rep_identity server bytes node.next_receipt_epoch))
        ∷ [],
    record node {
      next_receipt_epoch = (node.next_receipt_epoch + 1) % 2 ^ 64;
      pending_internal =
          insert ◌==◌ node.pending_internal swarm.next_id InternalRequest.submit_receipt_ack;
    },
  )

  abbrev pub wait_put : Bytes → Bytes → Channel → EventLoop → Option RequestId → Step
  wait_put k value channel node (some qid) = (
    Action.put_record k value ∷ [],
    record node { pending_put = insert ◌==◌ node.pending_put qid channel },
  )
  wait_put k value channel node none =
      (Action.put_record k value ∷ Action.reply channel (Answer.stored false) ∷ [], node)

  unfoldable pub on_command : Swarm → Command → EventLoop → Step
  on_command swarm (Command.listen addr channel) node =
      (Action.listen_on addr ∷ Action.reply channel (Answer.done swarm.listen_on) ∷ [], node)
  on_command swarm (Command.dial addr channel) node =
      (Action.dial addr ∷ Action.reply channel (Answer.done swarm.dial) ∷ [], node)
  on_command swarm (Command.listeners channel) node =
      (Action.reply channel (Answer.addresses swarm.listeners) ∷ [], node)
  on_command swarm (Command.external_addresses channel) node =
      (Action.reply channel (Answer.addresses swarm.external_addresses) ∷ [], node)
  on_command swarm (Command.add_peer peer addr) node = (Action.add_address peer addr ∷ [], node)
  on_command swarm (Command.add_external_address addr) node =
      (Action.add_external_address addr ∷ [], node)
  on_command swarm (Command.provide root manifest_bytes) node = (
    Action.start_providing root ∷ [],
    record node { provided = insert eq_bytes node.provided root manifest_bytes },
  )
  on_command swarm (Command.unprovide root) node = (
    Action.stop_providing root ∷ [],
    record node {
      provided = remove eq_bytes node.provided root;
      symbols = remove eq_bytes node.symbols root;
    },
  )
  on_command swarm (Command.find_providers root channel) node = (
    Action.get_providers root ∷ [],
    record node {
      pending_providers = insert ◌==◌ node.pending_providers swarm.next_id ([], channel);
    },
  )
  on_command swarm (Command.request peer asked channel) node = (
    Action.send_request peer asked ∷ [],
    record node { pending_req = insert ◌==◌ node.pending_req swarm.next_id channel },
  )
  on_command swarm (Command.set_choke_threshold threshold) node =
      ([], record node { choke_threshold = threshold })
  on_command swarm (Command.submit_receipt peer bytes) node =
      submit swarm peer bytes node (lookup eq_bytes node.rep_peers peer)
  on_command swarm (Command.reputation peer channel) node =
      (Action.reply channel (Answer.score (reputation key node.ledger peer)) ∷ [], node)
  on_command swarm (Command.put_record k value channel) node =
      wait_put k value channel node swarm.put_record
  on_command swarm (Command.get_record k channel) node = (
    Action.get_record k ∷ [],
    record node { pending_get = insert ◌==◌ node.pending_get swarm.next_id channel },
  )
  on_command swarm (Command.connected_peers channel) node =
      (Action.reply channel (Answer.peers swarm.connected_peers) ∷ [], node)
  on_command swarm (Command.ledger_totals channel) node =
      (Action.reply channel (Answer.counters (totals key node.ledger)) ∷ [], node)

  -- The bytes of a chunk are credited whatever the request was.
  unfoldable pub credit_chunk : PeerId → Response → EventLoop → EventLoop
  credit_chunk peer (Response.chunk (some data')) node = record node {
    ledger = record_received key node.ledger peer (length data');
    ledger_dirty = true;
  }
  credit_chunk peer _ node = node

  abbrev pub dispatch : PeerId → RequestId → Response → EventLoop → Option InternalRequest → Step
  dispatch peer id answer node (some InternalRequest.get_receipts) =
      ([], handle_receipts_response ed25519 key peer answer node)
  dispatch peer id answer node (some InternalRequest.submit_receipt_ack) = ([], node)
  dispatch peer id answer node none = answer_request id (ok answer) node

  abbrev pub forget_internal : RequestId → EventLoop → EventLoop
  forget_internal id node = record node { pending_internal = remove ◌==◌ node.pending_internal id }

  -- `on_rr` at a response.
  unfoldable pub on_response : PeerId → RequestId → Response → EventLoop → Step
  on_response peer id answer node =
      dispatch peer id answer (forget_internal id (credit_chunk peer answer node))
        (lookup ◌==◌ node.pending_internal id)

  -- The first meeting with a peer of whom the ledger has nothing.
  unfoldable pub unknown : EventLoop → PeerId → Bool
  unknown node peer =
      let c = counters key node.ledger peer in
      not (contains_peer node.receipts_pulled_from peer)
      && ((c.served_to_us == 0) && (c.we_served == 0) && (c.credited_by_receipts == 0))

  abbrev pub pull_receipts : Swarm → PeerId → EventLoop → Step
  pull_receipts swarm peer node = (
    Action.send_request peer Request.get_receipts ∷ [],
    record node {
      receipts_pulled_from = peer ∷ node.receipts_pulled_from;
      pending_internal =
          insert ◌==◌ node.pending_internal swarm.next_id InternalRequest.get_receipts;
    },
  )

  abbrev pub meet : Swarm → PeerId → EventLoop → Option Bytes → Step
  meet swarm peer node none = ([], node)
  meet swarm peer node (some rep_peer) =
      let node' : EventLoop = record node {
        rep_peers = insert eq_bytes node.rep_peers peer rep_peer;
      } in
      if unknown node' peer then pull_receipts swarm peer node' else ([], node')

  abbrev pub before : List Action → Step → Step
  before front (actions, node) = (front ++ actions, node)

  unfoldable pub on_identify : Swarm → PeerId → List Multiaddr → Option Bytes → EventLoop → Step
  on_identify swarm peer addrs public_key node =
      before (map (Action.add_address peer) addrs) (meet swarm peer node public_key)

module _ (hex : Hex) (blake3 : Bytes → Bytes) (bincode : Bincode) {D : Type 0} (raptorq : Raptorq D)
    (key : Key PeerId) (ed25519 : Ed25519) where
  abbrev pub respond : Channel → Response × EventLoop → Step
  respond channel (answer, node) = (Action.send_response channel answer ∷ [], node)

  abbrev pub apply_dials : EventLoop → List Action × Map PeerId ℕ → Step
  apply_dials node (actions, dials) = (actions, record node { mdns_dials = dials })

  unfoldable pub on_event : Swarm → ℕ → Event → EventLoop → Step
  on_event swarm now (Event.request peer channel asked) node =
      respond channel (serve hex blake3 bincode raptorq key ed25519 peer asked node)
  on_event swarm now (Event.response peer id answer) node =
      on_response ed25519 key peer id answer node
  on_event swarm now (Event.outbound_failure id) node =
      answer_request id (err NetError.request_failed) (forget_internal ed25519 key id node)
  on_event swarm now (Event.providers_found id providers last) node =
      let node' = add_providers id providers node in
      if last then finish_providers id node' else ([], node')
  on_event swarm now (Event.providers_finished id last) node =
      if last then finish_providers id node else ([], node)
  on_event swarm now (Event.providers_failed id) node = finish_providers id node
  on_event swarm now (Event.record_found id value) node = answer_get id (some value) node
  on_event swarm now (Event.record_finished id last) node =
      if last then answer_get id none node else ([], node)
  on_event swarm now (Event.record_failed id) node = answer_get id none node
  on_event swarm now (Event.record_put id stored) node = answer_put id stored node
  on_event swarm now (Event.identified peer addrs public_key) node =
      on_identify ed25519 key swarm peer addrs public_key node
  on_event swarm now (Event.new_external_addr addr) node =
      (Action.add_external_address addr ∷ [], node)
  on_event swarm now (Event.expired_external_addr addr) node =
      (Action.remove_external_address addr ∷ [], node)
  on_event swarm now (Event.discovered found) node =
      apply_dials node (dial_found now found node.mdns_dials)
  on_event swarm now (Event.connection_closed peer left addr) node =
      if left == 0
      then (
        Action.remove_address peer addr ∷ [],
        record node {
          rep_peers = remove eq_bytes node.rep_peers peer;
          receipts_pulled_from = remove_peer node.receipts_pulled_from peer;
        },
      )
      else ([], node)
  on_event swarm now Event.other node = ([], node)

-- What `select!` takes up: an event with the time, a command, or the tick with the outcome of saving.
pub data Input : Type 0 where
  event : Swarm → ℕ → Event → Input
  command : Swarm → Command → Input
  save_tick : Bool → Input

module _ (hex : Hex) (blake3 : Bytes → Bytes) (bincode : Bincode) {D : Type 0} (raptorq : Raptorq D)
    (key : Key PeerId) (ed25519 : Ed25519) where
  unfoldable pub step : Input → EventLoop → Step
  step (Input.event swarm now e) node =
      on_event hex blake3 bincode raptorq key ed25519 swarm now e node
  step (Input.command swarm c) node = on_command ed25519 key swarm c node
  step (Input.save_tick saved) node =
      ([], record node { ledger_dirty = if node.ledger_dirty then not saved else false })

  -- The loop of `run` over what comes in.
  unfoldable pub run : List Input → EventLoop → Step
  run [] node = ([], node)
  run (i ∷ is) node =
      let (actions, node') = step i node in
      let (rest, node'') = run is node' in (actions ++ rest, node'')
