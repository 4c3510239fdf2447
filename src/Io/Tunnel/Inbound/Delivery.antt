-- ===== src/Io/Tunnel/Inbound/Delivery.antt =====
-- What a connected client does with the requests that arrive over UDP.
use node_red_contrib_eelectr.Base.{
  ℕ, ◌+◌, ◌-◌, ◌%◌, ◌<◌, ◌≡◌, refl, arith, ap, true, false, some, List, [], ◌∷◌, ◌++◌, Bytes, ok,
}
use node_red_contrib_eelectr.Base.Bits.{bit_and-mask}
use node_red_contrib_eelectr.Core.Cemi.{CemiFrame, frame_from_knx}
use node_red_contrib_eelectr.Core.Bodies.TunnellingAck.{TunnellingAck, new_tunnelling_ack}
use node_red_contrib_eelectr.Core.Frame.{
  tunnelling_ack_body, tunnelling_request_body, tunnelling_request, KnxipFrame, from_body,
  service_type_of,
}
use node_red_contrib_eelectr.Io.Tunnel.{TunnelClient, Action, send, emit_cemi, next_seq}
use node_red_contrib_eelectr.Io.Tunnel.Lost.{cancel_invalid_seq_timer}
use node_red_contrib_eelectr.Io.Tunnel.Inbound.{
  previous_seq, e_no_error, deliver, process_incoming_cemi, send_ack, in_sequence,
  handle_inbound_tunnelling, is_expected, dispatch, on_frame,
}

abbrev pub emitted : List Action → List CemiFrame
emitted [] = []
emitted (emit_cemi frame ∷ actions) = frame ∷ emitted actions
emitted (_ ∷ actions) = emitted actions

abbrev pub acknowledged : List Action → List TunnellingAck
acknowledged [] = []
acknowledged (send (tunnelling_ack_body ack) target ∷ actions) = ack ∷ acknowledged actions
acknowledged (_ ∷ actions) = acknowledged actions

pub emitted-append : (xs ys : List Action) → emitted (xs ++ ys) ≡ emitted xs ++ emitted ys
emitted-append [] ys = refl
emitted-append (emit_cemi frame ∷ xs) ys = ap (◌∷◌ frame) (emitted-append xs ys)
emitted-append (_ ∷ xs) ys = emitted-append xs ys

pub acknowledged-append :
    (xs ys : List Action) → acknowledged (xs ++ ys) ≡ acknowledged xs ++ acknowledged ys
acknowledged-append [] ys = refl
acknowledged-append (send (tunnelling_ack_body ack) target ∷ xs) ys =
    ap (◌∷◌ ack) (acknowledged-append xs ys)
acknowledged-append (_ ∷ xs) ys = acknowledged-append xs ys

pub next_seq_lem : (n : ℕ) → next_seq n ≡ (n + 1) % 256
next_seq_lem n = bit_and-mask 8 (n + 1)

pub previous_seq-next_seq : (n : ℕ) → n < 256 → previous_seq (next_seq n) ≡ n
unfolding previous_seq
previous_seq-next_seq n h =
    ground (arith, next_seq_lem n, bit_and-mask 8 n, bit_and-mask 8 (next_seq n - 1))

-- A client that takes requests on a channel over UDP and does not wait for one as a response.
pub record IsListening (channel : ℕ) (c : TunnelClient) : Type 0 where
  pub has_transport : c.transport ≡ true
  pub on_channel : c.channel_id ≡ some channel
  pub over_udp : c.opts.over_tcp ≡ false
  pub not_awaited : is_expected c.pending_response tunnelling_request ≡ false
  pub counts_bytes : c.seq_in < 256

-- The frame of a request.
abbrev pub request : ℕ → ℕ → Bytes → KnxipFrame
request channel seq raw_cemi = from_body (
    tunnelling_request_body
      (record { communication_channel_id = channel; sequence_counter = seq; raw_cemi = raw_cemi }))

abbrev pub ack_to : ℕ → ℕ → TunnellingAck
ack_to channel seq = new_tunnelling_ack channel seq e_no_error

module _ (channel : ℕ) (c : TunnelClient) (v : IsListening channel c) where
  pub on_frame-fresh :
      (raw_cemi : Bytes) (frame : CemiFrame) (n : ℕ)
      → frame_from_knx raw_cemi ≡ ok (frame, n)
      → on_frame (request channel c.seq_in raw_cemi) c ≡ record {
        client = record c {
          seq_in = next_seq c.seq_in;
          invalid_seq_timer = false;
          rx_telegrams = c.rx_telegrams + 1;
        };
        actions =
            send (tunnelling_ack_body (ack_to channel c.seq_in)) c.data_endpoint
            ∷ emit_cemi frame
            ∷ [];
      }
  unfolding on_frame dispatch handle_inbound_tunnelling in_sequence send_ack process_incoming_cemi
      deliver cancel_invalid_seq_timer from_body service_type_of
  on_frame-fresh raw_cemi frame n h =
      ground (arith, v.has_transport, v.on_channel, v.over_udp, v.not_awaited, h)

  pub on_frame-duplicate :
      (seq : ℕ) (raw_cemi : Bytes)
      → seq ≡ previous_seq c.seq_in
      → on_frame (request channel seq raw_cemi) c ≡ record {
        client = c;
        actions = send (tunnelling_ack_body (ack_to channel seq)) c.data_endpoint ∷ [];
      }
  unfolding on_frame dispatch handle_inbound_tunnelling in_sequence send_ack from_body
      service_type_of previous_seq
  on_frame-duplicate seq raw_cemi h = ground (
    arith,
    v.has_transport,
    v.on_channel,
    v.over_udp,
    v.not_awaited,
    h,
    bit_and-mask 8 (c.seq_in - 1),
    v.counts_bytes,
  )
