-- ===== src/Net.antt =====
-- crates/np2ptp-net/src/lib.rs: the types of the protocol and the state of the event loop. libp2p is
-- third-party code: a call of it is an `Action` that is put out, and what it answers at once, such as
-- the id of a request, comes in with the command or event that makes the call.
pub mod Serve
pub mod Served
pub mod Choke
pub mod Credit
pub mod Credited
pub mod Swarm
pub mod Loop
pub mod Replies
pub mod Conserved
pub mod Client
pub mod Multi
pub mod Gathered
pub mod Completed
pub mod Live
pub mod Delivered
pub mod Fountain
pub mod Rounds
pub mod Recovered
pub mod Refused
mod Tests
mod DownloadTests
use np2ptp.Prelude.{ℕ, ◌*◌, ◌^◌, ◌-◌, Option, List, [], Bool, false, Bytes, Result}
use np2ptp.Prelude.Maps.{Map}
use np2ptp.Core.Hash.{Hash}
use np2ptp.Rep.Ledger.{Ledger, Counters}
use np2ptp.Rep.Ledger.Int.{ℤ, pos}
use np2ptp.Rep.Receipt.{Receipt}
use np2ptp.Store.{World, StoreError}

-- A `libp2p::PeerId` and a `Multiaddr`, as the bytes that stand for them.
abbrev pub PeerId : Type 0
PeerId = Bytes

abbrev pub Multiaddr : Type 0
Multiaddr = Bytes

-- The errors of other crates are without their values, but for those of the store.
pub data NetError : Type 0 where
  build dial listen shutdown ledger receipts : NetError
  store : StoreError → NetError
  request_failed no_manifest bad_manifest bad_chunk no_providers : NetError
  missing_chunk : Hash → NetError

pub data Request : Type 0 where
  manifest : Hash → Request
  chunk : Hash → Request
  symbol : Hash → ℕ → Request
  symbols : Hash → ℕ → ℕ → Request
  submit_receipt : Receipt → Request
  get_receipts : Request

pub data Response : Type 0 where
  manifest : Option Bytes → Response
  chunk : Option Bytes → Response
  symbol : Option Bytes → Response
  symbols : List Bytes → Response
  receipt_ack : Response
  receipts : List Receipt → Response

abbrev pub fec_repair_symbols : ℕ
fec_repair_symbols = 64

abbrev pub fec_batch : ℕ
fec_batch = 128

abbrev pub max_symbols_per_batch : ℕ
max_symbols_per_batch = 256

-- In seconds.
-- In nanoseconds.
abbrev pub mdns_dial_cooldown : ℕ
mdns_dial_cooldown = 30 * 10 ^ 9

abbrev pub max_fec_transfer_size : ℕ
max_fec_transfer_size = 32 * 1024 * 1024 * 1024

abbrev pub max_decode_attempts : ℕ
max_decode_attempts = 16

-- A `oneshot::Sender`, by a number of its own, and an id that libp2p gave a request or a query.
abbrev pub Channel : Type 0
Channel = ℕ

abbrev pub RequestId : Type 0
RequestId = ℕ

pub data Command : Type 0 where
  listen : Multiaddr → Channel → Command
  dial : Multiaddr → Channel → Command
  listeners : Channel → Command
  external_addresses : Channel → Command
  add_peer : PeerId → Multiaddr → Command
  add_external_address : Multiaddr → Command
  provide : Hash → Bytes → Command
  unprovide : Hash → Command
  find_providers : Hash → Channel → Command
  request : PeerId → Request → Channel → Command
  set_choke_threshold : ℤ → Command
  submit_receipt : PeerId → ℕ → Command
  reputation : PeerId → Channel → Command
  put_record : Bytes → Bytes → Channel → Command
  get_record : Bytes → Channel → Command
  connected_peers : Channel → Command
  ledger_totals : Channel → Command

-- What is sent into a channel.
pub data Answer : Type 0 where
  done : Result NetError (Unit {0}) → Answer
  addresses : List Multiaddr → Answer
  peers : List PeerId → Answer
  response : Result NetError Response → Answer
  score : ℤ → Answer
  stored : Bool → Answer
  value : Option Bytes → Answer
  counters : Counters → Answer

pub data InternalRequest : Type 0 where
  get_receipts submit_receipt_ack : InternalRequest

-- The fields of `EventLoop`, without the swarm and the receiver of commands. `rep_identity` is the
-- seed of the node's identity.
pub record EventLoop : Type 0 where
  pub store : World
  pub provided : Map Hash Bytes
  pub pending_req : Map RequestId Channel
  pub pending_providers : Map RequestId (List PeerId × Channel)
  pub pending_put : Map RequestId Channel
  pub pending_get : Map RequestId Channel
  pub ledger : Ledger PeerId
  pub choke_threshold : ℤ
  pub symbols : Map Hash (List Bytes)
  pub rep_identity : Bytes
  pub rep_peers : Map PeerId Bytes
  pub receipts : List Receipt
  pub pending_internal : Map RequestId InternalRequest
  pub receipts_pulled_from : List PeerId
  pub next_receipt_epoch : ℕ
  pub ledger_dirty : Bool
  pub mdns_dials : Map PeerId ℕ

-- `EventLoop::new`; `clock` is the time in seconds, and 0 where the clock is before 1970.
unfoldable pub new : World → Ledger PeerId → List Receipt → Bytes → ℕ → EventLoop
new chunks counts kept seed clock = record {
  store = chunks;
  provided = [];
  pending_req = [];
  pending_providers = [];
  pending_put = [];
  pending_get = [];
  ledger = counts;
  choke_threshold = pos (2 ^ 63 - 1);
  symbols = [];
  rep_identity = seed;
  rep_peers = [];
  receipts = kept;
  pending_internal = [];
  receipts_pulled_from = [];
  next_receipt_epoch = clock;
  ledger_dirty = false;
  mdns_dials = [];
}
