-- ===== src/Io/Tunnel.antt =====
-- The class TunnelClient of src/io/tunnel.ts: its fields, and what its methods do to the world. A method
-- is a function from the client to the client and the effects, in order. What stands behind an
-- `await` is a function of its own, which runs when the promise settles. The clock, the log and the
-- timestamps of the counters are left out; a timer and a promise are a flag.
pub mod Pending
pub mod Lost
pub mod Inbound
pub mod Lifecycle
pub mod Sending
pub mod Heartbeat
pub mod Events
pub mod Invariant
pub mod Loss
pub mod Retries
pub mod Overlap
pub mod LateRequest
pub mod Reliable
pub mod Groups
use node_red_contrib_eelectr.Base.{
  ℕ, ◌+◌, Bool, true, false, Option, none, some, List, [], ◌∷◌, ◌++◌, bit_and, Error,
}
use node_red_contrib_eelectr.Core.Text.{Text}
use node_red_contrib_eelectr.Core.Address.{IndividualAddress}
use node_red_contrib_eelectr.Core.Cemi.{CemiFrame}
use node_red_contrib_eelectr.Core.Hpai.{Hpai, route_back, ipv4_udp}
use node_red_contrib_eelectr.Core.Frame.{KnxipBody}

pub data TunnelState : Type 0 where
  disconnected connecting connected disconnecting : TunnelState

pub record SocketAddress : Type 0 where
  pub address : Text
  pub port : ℕ

-- The options that the state machine reads. `over_tcp` is `_isOverTcp()`, `heartbeats` tells whether
-- `heartbeatIntervalMs` is positive.
pub record TunnelClientOptions : Type 0 where
  pub over_tcp : Bool
  pub auto_reconnect : Bool
  pub heartbeats : Bool
  pub route_back : Bool
  pub requested_individual_address : Option IndividualAddress

-- The errors that a promise is rejected with or that a listener is told.
pub data Reason : Type 0 where
  tunnel_disconnecting gave_up gateway_disconnected out_of_order already_pending : Reason
  heartbeat_failed response_timeout ack_timeout not_connected : Reason
  ack_error : ℕ → Reason
  connect_refused : ℕ → Reason
  wrong_state : TunnelState → Reason
  thrown : Error → Reason

pub record TunnelClient : Type 0 where
  pub opts : TunnelClientOptions
  pub state : TunnelState
  pub transport : Bool
  pub channel_id : Option ℕ
  pub local_hpai : Hpai
  pub data_endpoint : Option SocketAddress
  pub assigned_address : Option IndividualAddress
  pub seq_out : ℕ
  pub seq_in : ℕ
  pub pending_ack : Option ℕ
  pub pending_response : Option ℕ
  pub heartbeat_timer : Bool
  pub invalid_seq_timer : Bool
  pub reconnect_promise : Bool
  pub reconnect_abort : Bool
  pub tx_telegrams : ℕ
  pub rx_telegrams : ℕ
  pub heartbeats_ok : ℕ
  pub heartbeats_failed : ℕ
  pub reconnects : ℕ

-- The constructor.
unfoldable pub new_tunnel_client : TunnelClientOptions → TunnelClient
new_tunnel_client opts = record {
  opts = opts;
  state = disconnected;
  transport = false;
  channel_id = none;
  local_hpai = route_back ipv4_udp;
  data_endpoint = none;
  assigned_address = none;
  seq_out = 0;
  seq_in = 0;
  pending_ack = none;
  pending_response = none;
  heartbeat_timer = false;
  invalid_seq_timer = false;
  reconnect_promise = false;
  reconnect_abort = false;
  tx_telegrams = 0;
  rx_telegrams = 0;
  heartbeats_ok = 0;
  heartbeats_failed = 0;
  reconnects = 0;
}

-- `send` is a frame around a body for an address, or for the gateway.
pub data Action : Type 0 where
  send : KnxipBody → Option SocketAddress → Action
  emit_state : TunnelState → TunnelState → Action
  emit_cemi : CemiFrame → Action
  emit_warning emit_error : Reason → Action
  resolve_ack : Action
  reject_ack reject_response reject_call : Reason → Action
  resolve_response : KnxipBody → Action
  resolve_call : Action
  open_transport close_transport : Action

pub record Outcome : Type 0 where
  pub client : TunnelClient
  pub actions : List Action

abbrev pub done : TunnelClient → Outcome
done c = record { client = c; actions = [] }

abbrev pub doing : List Action → TunnelClient → Outcome
doing actions c = record { client = c; actions = actions }

-- One method call after the other.
infixl 5 ◌▷◌
abbrev pub ◌▷◌ : Outcome → (TunnelClient → Outcome) → Outcome
a ▷ f = record { client = (f a.client).client; actions = a.actions ++ (f a.client).actions }

-- `(n + 1) & 0xff` and `(n - 1) & 0xff`.
abbrev pub next_seq : ℕ → ℕ
next_seq n = bit_and (n + 1) 0xff
