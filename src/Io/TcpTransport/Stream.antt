-- ===== src/Io/TcpTransport/Stream.antt =====
-- From one transport to the other: the frames that are sent are the frames that are received.
use node_red_contrib_eelectr.Base.{
  ℕ, ◌≡◌, refl, arith, ap, ◌∙◌, true, false, List, [], ◌∷◌, ◌++◌, map, append-nil, Bytes, concat,
  All, take, drop, take-append_drop, ok,
}
use node_red_contrib_eelectr.Core.Frame.{KnxipBody, from_body}
use node_red_contrib_eelectr.Io.TcpTransport.{
  message, drain, on_data, on_chunks, then_emit, TcpTransport, send, send_all, cut_at,
}
use node_red_contrib_eelectr.Io.TcpTransport.Drain.{settle, settle-emit}
use node_red_contrib_eelectr.Io.TcpTransport.Chunks.{
  IsWireFrame, frame_trip, pass-frame, on_chunks-concat,
}

concat-cut_at : (ns : List ℕ) (stream : Bytes) → concat (cut_at ns stream) ≡ stream
concat-cut_at [] stream = append-nil stream
concat-cut_at (n ∷ ns) stream =
    ap (◌++◌ (take n stream)) (concat-cut_at ns (drop n stream)) ∙ take-append_drop n stream

record Delivered (t : TcpTransport) (bodies : List KnxipBody) : Type 0 where
  pub stream : Bytes
  pub sent : send_all t (map from_body bodies) ≡ ok stream
  pub received :
      settle stream ≡ record { events = map (λ b. message (from_body b)) bodies; rx_buf = [] }

delivered :
    (t : TcpTransport)
    → t.socket ≡ true
    → t.closed ≡ false
    → (bodies : List KnxipBody) → All IsWireFrame bodies
    → Delivered t bodies
unfolding send drain
delivered t ho hc [] v = record { stream = []; sent = refl; received = refl }
delivered t ho hc (b ∷ bodies) (v, vs) =
    let head = frame_trip b v in
    let tail = delivered t ho hc bodies vs in
    record {
      stream = head.raw ++ tail.stream;
      sent = ground (arith, ho, hc, head.written, tail.sent);
      received =
          settle-emit (head.raw ++ tail.stream) tail.stream (message (from_body b))
            (pass-frame b v tail.stream)
          ∙ ap (then_emit (message (from_body b))) tail.received;
    }

-- A connection that is open sends the frames of any bodies that fit the wire as a stream of bytes,
-- and a transport that receives this stream in pieces of any sizes emits those frames as messages, in
-- the order in which they were sent, and nothing else, with no bytes left in its buffer.
pub on_chunks-send_all :
    (t : TcpTransport) (bodies : List KnxipBody) (sizes : List ℕ)
    → t.socket ≡ true
    → t.closed ≡ false
    → All IsWireFrame bodies
    → (stream : Bytes) × (send_all t (map from_body bodies) ≡ ok stream)
      × (on_chunks [] (cut_at sizes stream)
          ≡ record { events = map (λ b. message (from_body b)) bodies; rx_buf = [] })
unfolding on_data
on_chunks-send_all t bodies sizes ho hc v =
    let d = delivered t ho hc bodies v in
    (
      d.stream,
      d.sent,
      on_chunks-concat (cut_at sizes d.stream)
          ∙ ap settle (concat-cut_at sizes d.stream)
          ∙ d.received,
    )
