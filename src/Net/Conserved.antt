-- ===== src/Net/Conserved.antt =====
-- A run of the loop loses no caller and answers none twice.
use np2ptp.Prelude.{
  ℕ, ◌+◌, ◌≡◌, refl, ap, Option, none, some, List, [], ◌∷◌, map, ◌==◌, true, false, not, Bool-cases,
  if◌then◌else◌, inl, inr, Bytes, eq_bytes, ok, err, arith,
}
use np2ptp.Prelude.Maps.{lookup, insert}
use np2ptp.Core.Manifest.Container.{Hex, Bincode}
use np2ptp.Rep.Ledger.{Key}
use np2ptp.Rep.Receipt.{Ed25519}
use np2ptp.Fec.{Raptorq}
use np2ptp.Net.{
  PeerId, Multiaddr, NetError, Response, Channel, RequestId, Request, InternalRequest, EventLoop,
}
use np2ptp.Net.Swarm.{Swarm, Action, Event, add_providers}
use np2ptp.Net.Serve.{serve}
use np2ptp.Net.Served.{serve-Charged}
use np2ptp.Net.Credit.{credit_known, handle_receipts_response}
use np2ptp.Net.Replies.{
  waiting, answers, asks, asks_all, answers-append, Fresh, Balanced, finish_providers-Balanced,
  answer_get-Balanced, answer_put-Balanced, answer_request-Balanced, add_providers-waiting,
  answers-dial_found, answers-add_address, on_command-Balanced,
}
use np2ptp.Net.Loop.{
  credit_chunk, dispatch, forget_internal, on_response, unknown, meet, on_identify, on_event, Input,
  step, run,
}

module _ (channel : Channel) (ed25519 : Ed25519) (key : Key PeerId) where
  credit_chunk-waiting :
      (peer : PeerId) (answer : Response) (node : EventLoop)
      → waiting channel (credit_chunk ed25519 key peer answer node) ≡ waiting channel node
  unfolding credit_chunk waiting
  credit_chunk-waiting peer (Response.chunk (some bytes)) node = refl
  credit_chunk-waiting peer (Response.chunk none) node = refl
  credit_chunk-waiting peer (Response.manifest o) node = refl
  credit_chunk-waiting peer (Response.symbol o) node = refl
  credit_chunk-waiting peer (Response.symbols syms) node = refl
  credit_chunk-waiting peer Response.receipt_ack node = refl
  credit_chunk-waiting peer (Response.receipts rs) node = refl

  receipts-waiting :
      (peer : PeerId) (answer : Response) (node : EventLoop)
      → waiting channel (handle_receipts_response ed25519 key peer answer node)
        ≡ waiting channel node
  unfolding handle_receipts_response waiting
  receipts-waiting peer (Response.receipts rs) node = known (lookup eq_bytes node.rep_peers peer)
    where
      known :
          (o : Option Bytes)
          → waiting channel (credit_known ed25519 key peer rs node o) ≡ waiting channel node
      known none = refl
      known (some server) = refl
  receipts-waiting peer (Response.chunk o) node = refl
  receipts-waiting peer (Response.manifest o) node = refl
  receipts-waiting peer (Response.symbol o) node = refl
  receipts-waiting peer (Response.symbols syms) node = refl
  receipts-waiting peer Response.receipt_ack node = refl

  dispatch-Balanced :
      (peer : PeerId) (id : RequestId) (answer : Response) (node : EventLoop)
      (o : Option InternalRequest)
      → Balanced channel 0 (dispatch ed25519 key peer id answer node o) node
  unfolding answers
  dispatch-Balanced peer id answer node (some InternalRequest.get_receipts) =
      omega (arith, receipts-waiting peer answer node)
  dispatch-Balanced peer id answer node (some InternalRequest.submit_receipt_ack) = refl
  dispatch-Balanced peer id answer node none = answer_request-Balanced channel id (ok answer) node

  forget_internal-waiting :
      (id : RequestId) (node : EventLoop)
      → waiting channel (forget_internal ed25519 key id node) ≡ waiting channel node
  unfolding waiting
  forget_internal-waiting id node = refl

  on_response-Balanced :
      (peer : PeerId) (id : RequestId) (answer : Response) (node : EventLoop)
      → Balanced channel 0 (on_response ed25519 key peer id answer node) node
  unfolding on_response
  on_response-Balanced peer id answer node =
      let credited = credit_chunk ed25519 key peer answer node in
      omega (
        arith,
        credit_chunk-waiting peer answer node,
        forget_internal-waiting id credited,
        dispatch-Balanced peer id answer (forget_internal ed25519 key id credited)
            (lookup ◌==◌ node.pending_internal id),
      )

  meet-Balanced :
      (swarm : Swarm) (peer : PeerId) (node : EventLoop) (o : Option Bytes)
      → Balanced channel 0 (meet ed25519 key swarm peer node o) node
  unfolding waiting answers
  meet-Balanced swarm peer node none = refl
  meet-Balanced swarm peer node (some rep_peer) =
      elim (Bool-cases (
        unknown ed25519 key
          (record node { rep_peers = insert eq_bytes node.rep_peers peer rep_peer }) peer)) [
            | inl e ↦ rw e (omega arith)
            | inr e ↦ rw e (omega arith)
          ]

  on_identify-Balanced :
      (swarm : Swarm) (peer : PeerId) (addrs : List Multiaddr) (o : Option Bytes) (node : EventLoop)
      → Balanced channel 0 (on_identify ed25519 key swarm peer addrs o node) node
  unfolding on_identify
  on_identify-Balanced swarm peer addrs o node =
      let met = meet ed25519 key swarm peer node o in
      omega (
        arith,
        answers-append channel (map (Action.add_address peer) addrs) met.0,
        answers-add_address channel peer addrs,
        meet-Balanced swarm peer node o,
      )

module _ (hex : Hex) (blake3 : Bytes → Bytes) (bincode : Bincode) {D : Type 0} (raptorq : Raptorq D)
    (key : Key PeerId) (ed25519 : Ed25519) where
  -- The ids are fresh at each step.
  unfoldable pub AllFresh : List Input → EventLoop → Type 0
  AllFresh [] node = Unit
  AllFresh (i ∷ is) node =
      Fresh i node × AllFresh is (step hex blake3 bincode raptorq key ed25519 i node).1

module _ (channel : Channel) (hex : Hex) (blake3 : Bytes → Bytes) (bincode : Bincode) {D : Type 0}
    (raptorq : Raptorq D) (key : Key PeerId) (ed25519 : Ed25519) where
  serve-waiting :
      (peer : PeerId) (asked : Request) (node : EventLoop)
      → waiting channel (serve hex blake3 bincode raptorq key ed25519 peer asked node).1
        ≡ waiting channel node
  unfolding waiting
  serve-waiting peer asked node =
      let (_, _, _, charged) =
        serve-Charged hex blake3 bincode raptorq key ed25519 peer asked node in
      elim charged [
        | inl (same, _) ↦ ap (waiting channel) same
        | inr changed ↦ ap (waiting channel) changed
      ]

  on_event-Balanced :
      (swarm : Swarm) (now : ℕ) (e : Event) (node : EventLoop)
      → Balanced channel 0 (on_event hex blake3 bincode raptorq key ed25519 swarm now e node) node
  unfolding on_event waiting answers
  on_event-Balanced swarm now (Event.request peer c asked) node =
      omega (arith, serve-waiting peer asked node)
  on_event-Balanced swarm now (Event.response peer id answer) node =
      on_response-Balanced channel ed25519 key peer id answer node
  on_event-Balanced swarm now (Event.outbound_failure id) node =
      answer_request-Balanced channel id (err NetError.request_failed)
        (forget_internal ed25519 key id node)
  on_event-Balanced swarm now (Event.providers_found id providers true) node = omega (
    arith,
    add_providers-waiting channel id providers node,
    finish_providers-Balanced channel id (add_providers id providers node),
  )
  on_event-Balanced swarm now (Event.providers_found id providers false) node =
      omega (arith, add_providers-waiting channel id providers node)
  on_event-Balanced swarm now (Event.providers_finished id true) node =
      finish_providers-Balanced channel id node
  on_event-Balanced swarm now (Event.providers_finished id false) node = refl
  on_event-Balanced swarm now (Event.providers_failed id) node =
      finish_providers-Balanced channel id node
  on_event-Balanced swarm now (Event.record_found id value) node =
      answer_get-Balanced channel id (some value) node
  on_event-Balanced swarm now (Event.record_finished id true) node =
      answer_get-Balanced channel id none node
  on_event-Balanced swarm now (Event.record_finished id false) node = refl
  on_event-Balanced swarm now (Event.record_failed id) node =
      answer_get-Balanced channel id none node
  on_event-Balanced swarm now (Event.record_put id stored) node =
      answer_put-Balanced channel id stored node
  on_event-Balanced swarm now (Event.identified peer addrs o) node =
      on_identify-Balanced channel ed25519 key swarm peer addrs o node
  on_event-Balanced swarm now (Event.new_external_addr addr) node = refl
  on_event-Balanced swarm now (Event.expired_external_addr addr) node = refl
  on_event-Balanced swarm now (Event.discovered found) node =
      omega (arith, answers-dial_found channel now found node.mdns_dials)
  on_event-Balanced swarm now (Event.connection_closed peer left addr) node =
      elim (Bool-cases (left == 0)) [ inl e ↦ rw e refl | inr e ↦ rw e refl ]
  on_event-Balanced swarm now Event.other node = refl

  step-Balanced :
      (i : Input) (node : EventLoop)
      → Fresh i node
      → Balanced channel (asks channel i) (step hex blake3 bincode raptorq key ed25519 i node) node
  unfolding step Fresh asks waiting answers
  step-Balanced (Input.event swarm now e) node fresh = on_event-Balanced swarm now e node
  step-Balanced (Input.command swarm c) node fresh =
      on_command-Balanced channel ed25519 key swarm c node fresh
  step-Balanced (Input.save_tick saved) node fresh = saved_lem
    where
      saved_lem :
          Balanced channel 0
            ([], record node { ledger_dirty = if node.ledger_dirty then not saved else false })
            node
      saved_lem = refl

  -- Over a whole run of the loop, whatever commands, events and ticks come in and in whatever order,
  -- given that libp2p uses no id again while it is pending: how often something is sent into a channel,
  -- and how often the channel still waits at the end, make up together how often an answer into it was
  -- asked for, and how often it waited at the start. So nobody who asks is lost or answered twice.
  pub run-conserves :
      (is : List Input) (node : EventLoop)
      → AllFresh hex blake3 bincode raptorq key ed25519 is node
      → answers channel (run hex blake3 bincode raptorq key ed25519 is node).0
          + waiting channel (run hex blake3 bincode raptorq key ed25519 is node).1
        ≡ asks_all channel is + waiting channel node
  unfolding run AllFresh answers asks_all
  run-conserves [] node fresh = refl
  run-conserves (i ∷ is) node (fresh, later) =
      let (actions, node') = step hex blake3 bincode raptorq key ed25519 i node in
      let (rest, node'') = run hex blake3 bincode raptorq key ed25519 is node' in
      omega (
        arith,
        step-Balanced i node fresh,
        run-conserves is node' later,
        answers-append channel actions rest,
      )
