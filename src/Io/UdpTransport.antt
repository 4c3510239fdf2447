-- ===== src/Io/UdpTransport.antt =====
-- The class UdpTransport of src/io/udpTransport.ts: a frame in each datagram. The socket is a flag, and what
-- the operating system answers to `bind` is an event.
pub mod Datagrams
use node_red_contrib_eelectr.Base.{
  ℕ, Bool, true, false, not, Option, none, some, if◌then◌else◌, Bytes, Error, Result, ok, err,
  ◌>>=◌, ◌>>◌, throw_if, plain_error,
}
use node_red_contrib_eelectr.Core.Frame.{KnxipFrame}
use node_red_contrib_eelectr.Core.Frame
use node_red_contrib_eelectr.Io.TcpTransport.{is_frame_error}
use node_red_contrib_eelectr.Io.Tunnel.{SocketAddress}

pub record UdpTransport : Type 0 where
  pub remote : SocketAddress
  pub socket : Bool
  pub bound : Option SocketAddress
  pub closed : Bool

unfoldable pub new_udp_transport : SocketAddress → UdpTransport
new_udp_transport remote = record { remote = remote; socket = false; bound = none; closed = false }

-- `bind` up to the promise that it returns.
unfoldable pub bind : UdpTransport → Result UdpTransport
bind t = do
  throw_if t.socket plain_error
  throw_if t.closed plain_error
  ok (record t { socket = true })

-- The event 'listening' settles the promise.
unfoldable pub on_listening : SocketAddress → UdpTransport → UdpTransport
on_listening addr t = record t { bound = some addr }

pub data Event : Type 0 where
  message : KnxipFrame → SocketAddress → Event
  raw : Bytes → SocketAddress → Error → Event
  error : Error → Event

event_of : Bytes → SocketAddress → Result (KnxipFrame × ℕ) → Event
event_of data_bytes source (ok (frame, n)) = message frame source
event_of data_bytes source (err e) = if is_frame_error e then raw data_bytes source e else error e

unfoldable pub on_message : Bytes → SocketAddress → Event
unfolding event_of
on_message data_bytes source = event_of data_bytes source (Frame.from_knx data_bytes)

target : SocketAddress → Option SocketAddress → SocketAddress
target remote none = remote
target remote (some addr) = addr

-- What `send` hands over to the socket.
unfoldable pub send :
    KnxipFrame → Option SocketAddress → UdpTransport → Result (Bytes × SocketAddress)
unfolding target
send frame addr t = do
  throw_if t.closed plain_error
  throw_if (not t.socket) plain_error
  buf ← Frame.to_knx frame
  ok (buf, target t.remote addr)

-- The flag, and whether the socket is closed by this call.
unfoldable pub close : UdpTransport → UdpTransport × Bool
close t = if t.closed then (t, false) else (record t { closed = true }, t.socket)
