-- ===== src/Io/TcpTransport.antt =====
-- The class TcpTransport of src/io/tcpTransport.ts: frames are cut out of a byte stream. Events carry
-- what the listeners see, without the socket's address. The socket itself is a flag.
pub mod OnePass
pub mod Drain
pub mod Chunks
pub mod Stream
use node_red_contrib_eelectr.Base.{
  ℕ, zero, suc, Bool, true, false, not, ◌||◌, ltb, if◌then◌else◌, List, [], ◌∷◌, ◌++◌, Bytes,
  length, take, drop, Error, Result, ok, err, ◌>>=◌, ◌>>◌, throw_if, could_not_parse_knxip,
  incomplete_knxip_frame, unsupported_knxip_service, communication_error,
}
use node_red_contrib_eelectr.Core.Header.{KnxipHeader, header_length, header_from_knx}
use node_red_contrib_eelectr.Core.Frame.{KnxipFrame}
use node_red_contrib_eelectr.Core.Frame

pub data Event : Type 0 where
  message : KnxipFrame → Event
  raw : Bytes → Error → Event
  error : Error → Event

-- Whether the error is one of the three classes that a transport reports as 'raw'.
abbrev pub is_frame_error : Error → Bool
is_frame_error could_not_parse_knxip = true
is_frame_error (unsupported_knxip_service n) = true
is_frame_error incomplete_knxip_frame = true
is_frame_error _ = false

abbrev pub event_of : Bytes → Result (KnxipFrame × ℕ) → Event
event_of frame_bytes (ok (frame, n)) = message frame
event_of frame_bytes (err e) = if is_frame_error e then raw frame_bytes e else error e

-- One pass of the loop: it returns and waits for more bytes, or it emits an event and goes on with
-- what is left of the buffer.
pub data Pass : Type 0 where
  wait : Pass
  emit : Event → Bytes → Pass

bad_header : Error → Bytes → Pass
bad_header incomplete_knxip_frame rx_buf = wait
bad_header e rx_buf = emit (raw (take header_length rx_buf) e) (drop 1 rx_buf)

cut : ℕ → Bytes → Pass
cut total_len rx_buf =
    if ltb total_len header_length || ltb (length rx_buf) total_len
    then (if ltb (length rx_buf) total_len
        then wait
        else emit (raw (take header_length rx_buf) could_not_parse_knxip) (drop 1 rx_buf))
    else emit (event_of (take total_len rx_buf) (Frame.from_knx (take total_len rx_buf)))
        (drop total_len rx_buf)

pass_header : Bytes → Result (KnxipHeader × ℕ) → Pass
unfolding bad_header cut
pass_header rx_buf (ok (header, n)) = cut header.total_length rx_buf
pass_header rx_buf (err e) = bad_header e rx_buf

unfoldable pub pass : Bytes → Pass
unfolding pass_header
pass rx_buf =
    if ltb (length rx_buf) header_length then wait else pass_header rx_buf (header_from_knx rx_buf)

-- What the loop emits, and the buffer that it leaves.
pub record Drained : Type 0 where
  pub events : List Event
  pub rx_buf : Bytes

abbrev pub then_emit : Event → Drained → Drained
then_emit e d = record { events = e ∷ d.events; rx_buf = d.rx_buf }

-- The loop, with the number of passes it may take.
unfoldable pub drain : ℕ → Bytes → Drained
drain zero rx_buf = record { events = []; rx_buf = rx_buf }
drain (suc n) rx_buf = elim (pass rx_buf) [
  | wait ↦ record { events = []; rx_buf = rx_buf }
  | emit e rest ↦ then_emit e (drain n rest)
]

-- Each pass takes a byte away, so the length of the buffer is enough.
unfoldable pub on_data : Bytes → Bytes → Drained
on_data rx_buf chunk = drain (length (rx_buf ++ chunk)) (rx_buf ++ chunk)

-- The chunks of a connection, one after the other.
abbrev pub on_chunks : Bytes → List Bytes → Drained
on_chunks rx_buf [] = record { events = []; rx_buf = rx_buf }
on_chunks rx_buf (chunk ∷ chunks) =
    let first = on_data rx_buf chunk in
    let rest = on_chunks first.rx_buf chunks in
    record { events = first.events ++ rest.events; rx_buf = rest.rx_buf }

-- The connection: whether there is a socket, and the flag `_closed`.
pub record TcpTransport : Type 0 where
  pub socket : Bool
  pub closed : Bool

-- What `send` writes to the socket.
unfoldable pub send : TcpTransport → KnxipFrame → Result Bytes
send t frame = do
  throw_if t.closed communication_error
  throw_if (not t.socket) communication_error
  Frame.to_knx frame

-- What a connection writes for a list of frames.
abbrev pub send_all : TcpTransport → List KnxipFrame → Result Bytes
send_all t [] = ok []
send_all t (frame ∷ frames) = do sent ← send t frame; rest ← send_all t frames; ok (sent ++ rest)

-- A network that hands over the stream in pieces of the given sizes.
abbrev pub cut_at : List ℕ → Bytes → List Bytes
cut_at [] stream = stream ∷ []
cut_at (n ∷ ns) stream = take n stream ∷ cut_at ns (drop n stream)
