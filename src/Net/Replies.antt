-- ===== src/Net/Replies.antt =====
-- Each caller that waits for an answer is counted: none is lost, and none is answered twice.
use np2ptp.Prelude.{
  ℕ, ◌+◌, ◌≡◌, refl, Option, none, some, List, [], ◌∷◌, ◌++◌, map, ◌==◌, Bool, Bool-cases,
  if◌then◌else◌, inl, inr, Bytes, eq_bytes, Result, arith,
}
use np2ptp.Prelude.Maps.{Map, lookup, insert}
use np2ptp.Prelude.Tally.{tally, weight, tally-insert, tally-remove}
use np2ptp.Rep.Ledger.{Key}
use np2ptp.Rep.Receipt.{Ed25519}
use np2ptp.Net.{
  PeerId, NetError, Multiaddr, Response, Channel, RequestId, Command, Answer, EventLoop,
}
use np2ptp.Net.Swarm.{
  Swarm, Action, Step, reply_to, reply_peers, finish_providers, add_providers, with_peers,
  answer_get, answer_put, answer_request, gather_peers, cooling, dial_found,
}
use np2ptp.Net.Loop.{submit, wait_put, on_command, Input}

abbrev pub one : Channel → Channel → ℕ
one channel c = if c == channel then 1 else 0

module _ (channel : Channel) where
  abbrev pub asker : List Bytes × Channel → ℕ
  asker (acc, c) = one channel c

  -- How often the channel waits in one of the four maps.
  unfoldable pub waiting : EventLoop → ℕ
  waiting node =
      tally (one channel) node.pending_req
      + (tally asker node.pending_providers
          + (tally (one channel) node.pending_put + tally (one channel) node.pending_get))

  abbrev pub answered : Action → ℕ
  answered (Action.reply c answer) = one channel c
  answered _ = 0

  -- How often something is sent into the channel.
  unfoldable pub answers : List Action → ℕ
  answers [] = 0
  answers (a ∷ rest) = answered a + answers rest

  -- How often the input asks for an answer into the channel.
  abbrev pub asked : Command → ℕ
  asked (Command.listen addr c) = one channel c
  asked (Command.dial addr c) = one channel c
  asked (Command.listeners c) = one channel c
  asked (Command.external_addresses c) = one channel c
  asked (Command.find_providers root c) = one channel c
  asked (Command.request peer r c) = one channel c
  asked (Command.reputation peer c) = one channel c
  asked (Command.put_record k value c) = one channel c
  asked (Command.get_record k c) = one channel c
  asked (Command.connected_peers c) = one channel c
  asked (Command.ledger_totals c) = one channel c
  asked _ = 0

  unfoldable pub asks : Input → ℕ
  asks (Input.command swarm c) = asked c
  asks _ = 0

  unfoldable pub asks_all : List Input → ℕ
  asks_all [] = 0
  asks_all (i ∷ is) = asks i + asks_all is

  pub answers-append :
      (front back : List Action) → answers (front ++ back) ≡ answers front + answers back
  unfolding answers
  answers-append [] back = omega arith
  answers-append (a ∷ front) back = omega (arith, answers-append front back)

abbrev pub UnusedPut : EventLoop → Option RequestId → Type 0
UnusedPut node none = Unit
UnusedPut node (some qid) = lookup ◌==◌ node.pending_put qid ≡ none

-- The id that libp2p gives a query or a request is not that of one of the same kind that waits.
abbrev pub FreshCommand : Swarm → Command → EventLoop → Type 0
FreshCommand swarm (Command.find_providers root c) node =
    lookup ◌==◌ node.pending_providers swarm.next_id ≡ none
FreshCommand swarm (Command.request peer r c) node =
    lookup ◌==◌ node.pending_req swarm.next_id ≡ none
FreshCommand swarm (Command.put_record k value c) node = UnusedPut node swarm.put_record
FreshCommand swarm (Command.get_record k c) node = lookup ◌==◌ node.pending_get swarm.next_id ≡ none
FreshCommand swarm _ node = Unit

unfoldable pub Fresh : Input → EventLoop → Type 0
Fresh (Input.command swarm c) node = FreshCommand swarm c node
Fresh _ node = Unit

-- What waits after a step or was answered in it is what waited before or asked in it.
abbrev pub Balanced : Channel → ℕ → Step → EventLoop → Type 0
Balanced channel asked (actions, node') node =
    waiting channel node' + answers channel actions ≡ waiting channel node + asked

module _ (channel : Channel) where
  reply_to-answers :
      (o : Option Channel) (answer : Answer)
      → answers channel (reply_to o answer) ≡ weight (one channel) o
  unfolding answers
  reply_to-answers none answer = refl
  reply_to-answers (some c) answer = omega arith

  reply_peers-answers :
      (o : Option (List PeerId × Channel))
      → answers channel (reply_peers o) ≡ weight (asker channel) o
  unfolding answers
  reply_peers-answers none = refl
  reply_peers-answers (some (acc, c)) = omega arith

  pub finish_providers-Balanced :
      (id : RequestId) (node : EventLoop) → Balanced channel 0 (finish_providers id node) node
  unfolding finish_providers waiting
  finish_providers-Balanced id node = omega (
    arith,
    tally-remove (asker channel) ◌==◌ node.pending_providers id,
    reply_peers-answers (lookup ◌==◌ node.pending_providers id),
  )

  pub answer_get-Balanced :
      (id : RequestId) (value : Option Bytes) (node : EventLoop)
      → Balanced channel 0 (answer_get id value node) node
  unfolding answer_get waiting
  answer_get-Balanced id value node = omega (
    arith,
    tally-remove (one channel) ◌==◌ node.pending_get id,
    reply_to-answers (lookup ◌==◌ node.pending_get id) (Answer.value value),
  )

  pub answer_put-Balanced :
      (id : RequestId) (stored : Bool) (node : EventLoop)
      → Balanced channel 0 (answer_put id stored node) node
  unfolding answer_put waiting
  answer_put-Balanced id stored node = omega (
    arith,
    tally-remove (one channel) ◌==◌ node.pending_put id,
    reply_to-answers (lookup ◌==◌ node.pending_put id) (Answer.stored stored),
  )

  pub answer_request-Balanced :
      (id : RequestId) (result : Result NetError Response) (node : EventLoop)
      → Balanced channel 0 (answer_request id result node) node
  unfolding answer_request waiting
  answer_request-Balanced id result node = omega (
    arith,
    tally-remove (one channel) ◌==◌ node.pending_req id,
    reply_to-answers (lookup ◌==◌ node.pending_req id) (Answer.response result),
  )

  tally-with_peers :
      (m : Map RequestId (List PeerId × Channel)) (id : RequestId) (providers : List PeerId)
      (o : Option (List PeerId × Channel))
      → lookup ◌==◌ m id ≡ o
      → tally (asker channel) (with_peers m id providers o) ≡ tally (asker channel) m
  tally-with_peers m id providers none e = refl
  tally-with_peers m id providers (some (acc, c)) e =
      let changed = tally-insert (asker channel) ◌==◌ m id (gather_peers acc providers, c) in
      let changed' = (rw e at changed) in omega (arith, changed')

  pub add_providers-waiting :
      (id : RequestId) (providers : List PeerId) (node : EventLoop)
      → waiting channel (add_providers id providers node) ≡ waiting channel node
  unfolding add_providers waiting
  add_providers-waiting id providers node = omega (
    arith,
    tally-with_peers node.pending_providers id providers (lookup ◌==◌ node.pending_providers id)
        refl,
  )

  -- A caller that starts to wait under an id of its own.
  tally-insert_fresh :
      {V : Type 0} (weigh : V → ℕ) (m : Map RequestId V) (id : RequestId) (value : V)
      → lookup ◌==◌ m id ≡ none
      → tally weigh (insert ◌==◌ m id value) ≡ tally weigh m + weigh value
  tally-insert_fresh weigh m id value e =
      let changed = tally-insert weigh ◌==◌ m id value in
      let changed' = (rw e at changed) in omega (arith, changed')

  pub answers-dial_found :
      (now : ℕ) (found : List (PeerId × Multiaddr)) (dials : Map PeerId ℕ)
      → answers channel (dial_found now found dials).0 ≡ 0
  unfolding dial_found answers
  answers-dial_found now [] dials = refl
  answers-dial_found now ((peer, addr) ∷ found) dials =
      elim (Bool-cases (cooling now (lookup eq_bytes dials peer))) [
        | inl e ↦ rw e (omega (arith, answers-dial_found now found dials))
        | inr e ↦
            rw e (omega (arith, answers-dial_found now found (insert eq_bytes dials peer now)))
      ]

  pub answers-add_address :
      (peer : PeerId) (addrs : List Multiaddr)
      → answers channel (map (Action.add_address peer) addrs) ≡ 0
  unfolding answers
  answers-add_address peer [] = refl
  answers-add_address peer (a ∷ addrs) = omega (arith, answers-add_address peer addrs)

  module _ (ed25519 : Ed25519) (key : Key PeerId) where
    pub wait_put-Balanced :
        (k value : Bytes) (c : Channel) (node : EventLoop) (qid : Option RequestId)
        → UnusedPut node qid
        → Balanced channel (one channel c) (wait_put ed25519 key k value c node qid) node
    unfolding waiting answers
    wait_put-Balanced k value c node none fresh = omega arith
    wait_put-Balanced k value c node (some qid) fresh =
        omega (arith, tally-insert_fresh (one channel) node.pending_put qid c fresh)

    pub submit-Balanced :
        (swarm : Swarm) (peer : PeerId) (bytes : ℕ) (node : EventLoop) (o : Option Bytes)
        → Balanced channel 0 (submit ed25519 key swarm peer bytes node o) node
    unfolding waiting answers
    submit-Balanced swarm peer bytes node none = omega arith
    submit-Balanced swarm peer bytes node (some server) = omega arith

    pub on_command-Balanced :
        (swarm : Swarm) (c : Command) (node : EventLoop)
        → FreshCommand swarm c node
        → Balanced channel (asked channel c) (on_command ed25519 key swarm c node) node
    unfolding on_command waiting answers
    on_command-Balanced swarm (Command.listen addr c) node fresh = omega arith
    on_command-Balanced swarm (Command.dial addr c) node fresh = omega arith
    on_command-Balanced swarm (Command.listeners c) node fresh = omega arith
    on_command-Balanced swarm (Command.external_addresses c) node fresh = omega arith
    on_command-Balanced swarm (Command.add_peer peer addr) node fresh = refl
    on_command-Balanced swarm (Command.add_external_address addr) node fresh = refl
    on_command-Balanced swarm (Command.provide root bytes) node fresh = refl
    on_command-Balanced swarm (Command.unprovide root) node fresh = refl
    on_command-Balanced swarm (Command.find_providers root c) node fresh = omega (
      arith,
      tally-insert_fresh (asker channel) node.pending_providers swarm.next_id ([], c) fresh,
    )
    on_command-Balanced swarm (Command.request peer r c) node fresh =
        omega (arith, tally-insert_fresh (one channel) node.pending_req swarm.next_id c fresh)
    on_command-Balanced swarm (Command.set_choke_threshold t) node fresh = refl
    on_command-Balanced swarm (Command.submit_receipt peer bytes) node fresh =
        submit-Balanced swarm peer bytes node (lookup eq_bytes node.rep_peers peer)
    on_command-Balanced swarm (Command.reputation peer c) node fresh = omega arith
    on_command-Balanced swarm (Command.put_record k value c) node fresh =
        wait_put-Balanced k value c node swarm.put_record fresh
    on_command-Balanced swarm (Command.get_record k c) node fresh =
        omega (arith, tally-insert_fresh (one channel) node.pending_get swarm.next_id c fresh)
    on_command-Balanced swarm (Command.connected_peers c) node fresh = omega arith
    on_command-Balanced swarm (Command.ledger_totals c) node fresh = omega arith
