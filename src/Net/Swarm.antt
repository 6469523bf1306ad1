-- ===== src/Net/Swarm.antt =====
-- What goes between the loop and libp2p, and how the queries that wait are answered.
use np2ptp.Prelude.{
  ℕ, ◌-◌, Option, none, some, List, [], ◌∷◌, ◌++◌, ◌==◌, ltb, Bool, false, ◌||◌, if◌then◌else◌,
  Bytes, eq_bytes, Result,
}
use np2ptp.Prelude.Maps.{Map, lookup, insert, remove}
use np2ptp.Core.Hash.{Hash}
use np2ptp.Net.{
  PeerId, Multiaddr, NetError, Request, Response, Channel, RequestId, Answer, EventLoop,
  mdns_dial_cooldown,
}

-- What the swarm answers to the calls of one step, where they are made.
pub record Swarm : Type 0 where
  pub listen_on : Result NetError (Unit {0})
  pub dial : Result NetError (Unit {0})
  pub listeners : List Multiaddr
  pub external_addresses : List Multiaddr
  pub connected_peers : List PeerId
  pub next_id : RequestId
  pub put_record : Option RequestId

-- The calls that change the swarm, and the answers to those who wait.
pub data Action : Type 0 where
  listen_on : Multiaddr → Action
  dial : Multiaddr → Action
  add_address : PeerId → Multiaddr → Action
  remove_address : PeerId → Multiaddr → Action
  add_external_address : Multiaddr → Action
  remove_external_address : Multiaddr → Action
  start_providing : Hash → Action
  stop_providing : Hash → Action
  get_providers : Hash → Action
  put_record : Bytes → Bytes → Action
  get_record : Bytes → Action
  send_request : PeerId → Request → Action
  send_response : Channel → Response → Action
  reply : Channel → Answer → Action

-- The events that the loop handles; `other` are those that it passes over.
pub data Event : Type 0 where
  request : PeerId → Channel → Request → Event
  response : PeerId → RequestId → Response → Event
  outbound_failure : RequestId → Event
  providers_found : RequestId → List PeerId → Bool → Event
  providers_finished : RequestId → Bool → Event
  providers_failed : RequestId → Event
  record_found : RequestId → Bytes → Event
  record_finished : RequestId → Bool → Event
  record_failed : RequestId → Event
  record_put : RequestId → Bool → Event
  identified : PeerId → List Multiaddr → Option Bytes → Event
  new_external_addr : Multiaddr → Event
  expired_external_addr : Multiaddr → Event
  discovered : List (PeerId × Multiaddr) → Event
  connection_closed : PeerId → ℕ → Multiaddr → Event
  other : Event

unfoldable pub contains_peer : List PeerId → PeerId → Bool
contains_peer [] p = false
contains_peer (q ∷ acc) p = let rest = contains_peer acc p in eq_bytes q p || rest

unfoldable pub remove_peer : List PeerId → PeerId → List PeerId
remove_peer [] p = []
remove_peer (q ∷ acc) p = let rest = remove_peer acc p in if eq_bytes q p then rest else q ∷ rest

-- The providers that are not there yet, behind the others.
unfoldable pub gather_peers : List PeerId → List PeerId → List PeerId
gather_peers acc [] = acc
gather_peers acc (p ∷ ps) =
    let there = gather_peers acc ps in
    let added = gather_peers (acc ++ p ∷ []) ps in if contains_peer acc p then there else added

abbrev pub Step : Type 0
Step = List Action × EventLoop

-- Someone who waits, if there is one.
abbrev pub reply_to : Option Channel → Answer → List Action
reply_to none answer = []
reply_to (some channel) answer = Action.reply channel answer ∷ []

abbrev pub reply_peers : Option (List PeerId × Channel) → List Action
reply_peers none = []
reply_peers (some (acc, channel)) = Action.reply channel (Answer.peers acc) ∷ []

unfoldable pub finish_providers : RequestId → EventLoop → Step
finish_providers id node = (
  reply_peers (lookup ◌==◌ node.pending_providers id),
  record node { pending_providers = remove ◌==◌ node.pending_providers id },
)

abbrev pub with_peers :
    Map RequestId (List PeerId × Channel)
    → RequestId
    → List PeerId
    → Option (List PeerId × Channel)
    → Map RequestId (List PeerId × Channel)
with_peers m id providers none = m
with_peers m id providers (some (acc, channel)) =
    insert ◌==◌ m id (gather_peers acc providers, channel)

unfoldable pub add_providers : RequestId → List PeerId → EventLoop → EventLoop
add_providers id providers node = record node {
  pending_providers =
      with_peers node.pending_providers id providers (lookup ◌==◌ node.pending_providers id);
}

unfoldable pub answer_get : RequestId → Option Bytes → EventLoop → Step
answer_get id value node = (
  reply_to (lookup ◌==◌ node.pending_get id) (Answer.value value),
  record node { pending_get = remove ◌==◌ node.pending_get id },
)

unfoldable pub answer_put : RequestId → Bool → EventLoop → Step
answer_put id stored node = (
  reply_to (lookup ◌==◌ node.pending_put id) (Answer.stored stored),
  record node { pending_put = remove ◌==◌ node.pending_put id },
)

unfoldable pub answer_request : RequestId → Result NetError Response → EventLoop → Step
answer_request id result node = (
  reply_to (lookup ◌==◌ node.pending_req id) (Answer.response result),
  record node { pending_req = remove ◌==◌ node.pending_req id },
)

-- The loop over what mDNS found; `now` is one time for all of it, in nanoseconds.
abbrev pub cooling : ℕ → Option ℕ → Bool
cooling now none = false
cooling now (some t) = ltb (now - t) mdns_dial_cooldown

unfoldable pub dial_found :
    ℕ → List (PeerId × Multiaddr) → Map PeerId ℕ → List Action × Map PeerId ℕ
dial_found now [] dials = ([], dials)
dial_found now ((peer, addr) ∷ found) dials =
    let (skipped, dials') = dial_found now found dials in
    let (dialed, dials'') = dial_found now found (insert eq_bytes dials peer now) in
    if cooling now (lookup eq_bytes dials peer)
    then (Action.add_address peer addr ∷ skipped, dials')
    else (Action.add_address peer addr ∷ Action.dial addr ∷ dialed, dials'')
