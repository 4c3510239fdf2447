-- ===== src/Io/TcpTransport/Chunks.antt =====
-- How a byte stream is cut into chunks makes no difference to what the transport emits, and the
-- frames of a stream all come out.
use node_red_contrib_eelectr.Base.{
  ℕ, ◌+◌, ◌<◌, ◌≡◌, ◌^◌, refl, arith, List, [], ◌∷◌, ◌++◌, append_assoc, append-nil, Bytes, length,
  length-append, concat, take-exact, drop-exact, Result, ok, err, RoundTrip,
}
use node_red_contrib_eelectr.Core.Header.{KnxipHeader, header_length, header_from_knx}
use node_red_contrib_eelectr.Core.Frame.{
  KnxipBody, KnxipFrame, from_body, body_calculated_length, parse_body,
}
use node_red_contrib_eelectr.Core.Frame
use node_red_contrib_eelectr.Core.Frame.BodyTrips.{IsWireBody}
use node_red_contrib_eelectr.Core.Frame.RoundTrip.{from_knx-to_knx_frame}
use node_red_contrib_eelectr.Io.TcpTransport.{
  message, wait, emit, pass, pass_header, cut, on_data, on_chunks,
}
use node_red_contrib_eelectr.Io.TcpTransport.OnePass.{header-front}
use node_red_contrib_eelectr.Io.TcpTransport.Drain.{settle, settle-waits, settle-append, drain-wait}

on_chunks-settle :
    (chunks : List Bytes) (rx_buf : Bytes)
    → pass rx_buf ≡ wait
    → on_chunks rx_buf chunks ≡ settle (rx_buf ++ concat chunks)
unfolding on_data
on_chunks-settle [] rx_buf h =
    ground (arith, append-nil rx_buf, drain-wait (length rx_buf) rx_buf h)
on_chunks-settle (chunk ∷ chunks) rx_buf h =
    let first = settle (rx_buf ++ chunk) in
    ground (
      arith,
      settle-append (length (rx_buf ++ chunk)) (rx_buf ++ chunk) (concat chunks),
      append_assoc rx_buf chunk (concat chunks),
      on_chunks-settle chunks first.rx_buf
          (settle-waits (length (rx_buf ++ chunk)) (rx_buf ++ chunk) (omega arith)),
    )

-- From an empty buffer, the events of a connection and the bytes that it leaves in the buffer are
-- those of the whole stream in one chunk, whatever the bytes are and wherever they are cut.
pub on_chunks-concat : (chunks : List Bytes) → on_chunks [] chunks ≡ on_data [] (concat chunks)
unfolding on_data pass
on_chunks-concat chunks = on_chunks-settle chunks [] refl

header_of_parsed :
    (raw : Bytes) (f : KnxipFrame) (n : ℕ)
    → Frame.from_knx raw ≡ ok (f, n)
    → (k : ℕ) × (header_from_knx raw ≡ ok (f.header, k))
unfolding Frame.from_knx
header_of_parsed raw f n h = parsed (header_from_knx raw) refl
  where
    parsed :
        (r : Result (KnxipHeader × ℕ))
        → header_from_knx raw ≡ r
        → (k : ℕ) × (header_from_knx raw ≡ ok (f.header, k))
    parsed (ok (header, k)) e = (k, ground (arith, e, h))
    parsed (err x) e = absurd (ground (arith, e, h))

-- A body that fits the wire and the length field of the header.
pub record IsWireFrame (b : KnxipBody) : Type 0 where
  pub body_fits : IsWireBody b
  pub length_fits : header_length + body_calculated_length b < 2 ^ 16

pub frame_trip :
    (b : KnxipBody)
    → IsWireFrame b
    → RoundTrip Frame.to_knx Frame.from_knx (header_length + body_calculated_length b) (from_body b)
frame_trip b v = from_knx-to_knx_frame b v.body_fits v.length_fits

pub pass-frame :
    (b : KnxipBody) (v : IsWireFrame b) (rest : Bytes)
    → pass ((frame_trip b v).raw ++ rest) ≡ emit (message (from_body b)) rest
unfolding pass pass_header cut from_body
pass-frame b v rest =
    let t = frame_trip b v in
    let n = header_length + body_calculated_length b in
    let (k, header) = header_of_parsed t.raw (from_body b) n t.parsed in
    ground (
      arith,
      header,
      header-front t.raw rest,
      t.counted,
      t.parsed,
      length-append t.raw rest,
      take-exact n t.raw rest t.counted,
      drop-exact n t.raw rest t.counted,
    )
