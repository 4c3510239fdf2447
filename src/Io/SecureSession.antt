-- ===== src/Io/SecureSession.antt =====
-- The class SecureSession of src/io/secureSession.ts: its fields, and what its methods do to the world. A
-- method is a function from the session to the session and the effects, in order; what stands
-- behind an `await` is a function of its own. Timers and the promise of open() are flags.
pub mod Sending
pub mod Opening
pub mod Inbound
pub mod Closing
pub mod Events
pub mod Sequence
pub mod Delivery
pub mod Replay
pub mod Authenticated
pub mod Verified
pub mod Abandoned
use node_red_contrib_eelectr.Base.{
  ℕ, Bool, true, false, ◌==◌, ltb, if◌then◌else◌, Option, none, some, List, [], ◌∷◌, ◌++◌, Bytes,
  Error,
}
use node_red_contrib_eelectr.Core.Text.{Text}
use node_red_contrib_eelectr.Core.Frame.{KnxipBody, KnxipFrame}
use node_red_contrib_eelectr.Secure.Crypto.{NodeCrypto}
use node_red_contrib_eelectr.Secure.Keys.{derive_device_auth_code, derive_user_password_key}
use node_red_contrib_eelectr.Io.Tunnel.{SocketAddress}

pub data SecureSessionState : Type 0 where
  idle requesting authenticating authenticated closing closed : SecureSessionState

rank : SecureSessionState → ℕ
rank idle = 0
rank requesting = 1
rank authenticating = 2
rank authenticated = 3
rank closing = 4
rank closed = 5

-- `===` on states.
unfoldable pub same : SecureSessionState → SecureSessionState → Bool
unfolding rank
same a b = rank a == rank b

-- What the handshake and the calls fail with.
pub data Reason : Type 0 where
  handshake_timeout no_session_key sequence_exhausted mac_mismatch gateway_closed : Reason
  transport_failed : Reason
  authentication_rejected : ℕ → Reason
  wrong_state : SecureSessionState → Reason
  thrown : Error → Reason

pub record SecureSessionOptions : Type 0 where
  pub user_id : ℕ
  pub device_auth_password : Option Text
  pub user_password : Text
  pub serial_number : Option ℕ
  pub message_tag : Option ℕ
  pub keepalive_ms : Option ℕ

-- `keepalives` tells whether `keepaliveMs` is positive.
pub record SecureSession : Type 0 where
  pub user_id : ℕ
  pub serial_number : ℕ
  pub message_tag : ℕ
  pub keepalives : Bool
  pub client_priv : Bytes
  pub client_pub : Bytes
  pub device_auth_code : Option Bytes
  pub user_password_key : Bytes
  pub state : SecureSessionState
  pub session_id : ℕ
  pub server_pub : Option Bytes
  pub session_key : Option Bytes
  pub sequence_id : ℕ
  pub keepalive_timer : Bool
  pub pending_handshake : Bool

abbrev pub default_serial : ℕ
default_serial = 0xeeec_0001_0001

abbrev pub or_default : ℕ → Option ℕ → ℕ
or_default d none = d
or_default d (some n) = n

-- A missing password and an empty one give no code.
device_code : NodeCrypto → Option Text → Option Bytes
device_code node none = none
device_code node (some []) = none
device_code node (some (c ∷ cs)) = some (derive_device_auth_code node (c ∷ cs))

-- The constructor, with the key pair that it generates.
unfoldable pub new_secure_session :
    NodeCrypto → Bytes → Bytes → SecureSessionOptions → SecureSession
unfolding device_code
new_secure_session node private_key public_key opts = record {
  user_id = opts.user_id;
  serial_number = or_default default_serial opts.serial_number;
  message_tag = or_default 0 opts.message_tag;
  keepalives = ltb 0 (or_default 30_000 opts.keepalive_ms);
  client_priv = private_key;
  client_pub = public_key;
  device_auth_code = device_code node opts.device_auth_password;
  user_password_key = derive_user_password_key node opts.user_password;
  state = idle;
  session_id = 0;
  server_pub = none;
  session_key = none;
  sequence_id = 0;
  keepalive_timer = false;
  pending_handshake = false;
}

-- `send_inner` is a frame around a body on the inner transport.
pub data Action : Type 0 where
  send_inner : KnxipBody → Action
  resolve_open : Action
  reject_open reject_send emit_error : Reason → Action
  emit_state : SecureSessionState → SecureSessionState → Action
  emit_message emit_plain_message : KnxipFrame → SocketAddress → Action
  emit_close close_inner : Action

pub record Outcome : Type 0 where
  pub session : SecureSession
  pub actions : List Action

abbrev pub done : SecureSession → Outcome
done s = record { session = s; actions = [] }

abbrev pub doing : List Action → SecureSession → Outcome
doing actions s = record { session = s; actions = actions }

-- One call after the other.
infixl 5 ◌▷◌
abbrev pub ◌▷◌ : Outcome → (SecureSession → Outcome) → Outcome
a ▷ f = record { session = (f a.session).session; actions = a.actions ++ (f a.session).actions }

unfoldable pub set_state : SecureSessionState → SecureSession → Outcome
unfolding same
set_state next s =
    if same next s.state
    then done s
    else doing (emit_state next s.state ∷ []) (record s { state = next })
