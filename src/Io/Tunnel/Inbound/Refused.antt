-- ===== src/Io/Tunnel/Inbound/Refused.antt =====
-- Requests that are not for the client or out of order, and requests over TCP.
use node_red_contrib_eelectr.Base.{
  ℕ, ◌+◌, ◌<◌, ◌≡◌, ◌≢◌, refl, arith, true, false, not, ◌||◌, ◌==◌, if◌then◌else◌, some, List, [],
  ◌∷◌, map, All, Bytes, ok,
}
use node_red_contrib_eelectr.Core.Cemi.{CemiFrame, frame_from_knx}
use node_red_contrib_eelectr.Core.Bodies.DisconnectRequest.{DisconnectRequest}
use node_red_contrib_eelectr.Core.Frame.{
  disconnect_request_body, tunnelling_ack_body, tunnelling_request, disconnect_request, from_body,
  service_type_of,
}
use node_red_contrib_eelectr.Io.Tunnel.{TunnelClient, send, done}
use node_red_contrib_eelectr.Io.Tunnel.Lost.{arm_invalid_seq_timer}
use node_red_contrib_eelectr.Io.Tunnel.Inbound.{
  previous_seq, deliver, process_incoming_cemi, send_ack, in_sequence, handle_inbound_tunnelling,
  handle_inbound_disconnect, is_expected, dispatch, on_frame, on_frames,
}
use node_red_contrib_eelectr.Io.Tunnel.Inbound.Delivery.{
  emitted, acknowledged, IsListening, request, ack_to,
}

-- A request over UDP under another sequence counter than the expected one is never delivered. Under the
-- previous counter it is acknowledged again, at the data endpoint, and nothing else happens; under any other
-- nothing happens but that the timer that gives up on the tunnel runs from then on, unless a loop is
-- reconnecting.
pub on_frame-unexpected :
    (channel seq : ℕ) (raw_cemi : Bytes) (c : TunnelClient)
    → IsListening channel c
    → seq < 256
    → seq ≢ c.seq_in
    → on_frame (request channel seq raw_cemi) c ≡ record {
      client =
          if seq == previous_seq c.seq_in
          then c
          else record c { invalid_seq_timer = c.invalid_seq_timer || not c.reconnect_promise };
      actions =
          if seq == previous_seq c.seq_in
          then send (tunnelling_ack_body (ack_to channel seq)) c.data_endpoint ∷ []
          else [];
    }
unfolding on_frame dispatch handle_inbound_tunnelling in_sequence send_ack arm_invalid_seq_timer
    from_body service_type_of
on_frame-unexpected channel seq raw_cemi c v hs h =
    ground (arith, v.has_transport, v.on_channel, v.over_udp, v.not_awaited, h)

-- A request to tunnel or to disconnect on another channel than the client's own changes nothing and has
-- no effect, whatever the state of the client.
pub on_frame-foreign :
    (mine other seq : ℕ) (raw_cemi : Bytes) (req : DisconnectRequest) (c : TunnelClient)
    → c.channel_id ≡ some mine
    → other ≢ mine
    → req.communication_channel_id ≢ mine
    → is_expected c.pending_response tunnelling_request ≡ false
    → is_expected c.pending_response disconnect_request ≡ false
    → (on_frame (request other seq raw_cemi) c ≡ done c)
      × (on_frame (from_body (disconnect_request_body req)) c ≡ done c)
unfolding on_frame dispatch handle_inbound_tunnelling handle_inbound_disconnect from_body
    service_type_of
on_frame-foreign mine other seq raw_cemi req c hc ho hr ht hd =
    (ground (arith, hc, ho, ht), ground (arith, hc, hr, hd))

-- A telegram over TCP, under any sequence counter.
pub record TcpTelegram : Type 0 where
  pub frame : CemiFrame
  pub raw_cemi : Bytes
  pub bytes_read : ℕ
  pub seq : ℕ

unfoldable pub IsTcpTelegram : TcpTelegram → Type 0
IsTcpTelegram t = frame_from_knx t.raw_cemi ≡ ok (t.frame, t.bytes_read)

-- A client that takes requests on a channel over TCP.
pub record IsListeningTcp (channel : ℕ) (c : TunnelClient) : Type 0 where
  pub has_transport : c.transport ≡ true
  pub on_channel : c.channel_id ≡ some channel
  pub over_tcp : c.opts.over_tcp ≡ true
  pub not_awaited : is_expected c.pending_response tunnelling_request ≡ false

-- Over TCP each request is acknowledged under its own sequence counter and delivered, in the order of
-- arrival and whatever the counters are; the client's own counters stay as they are.
pub on_frames-tcp :
    (channel : ℕ) (ts : List TcpTelegram) (c : TunnelClient)
    → IsListeningTcp channel c
    → All IsTcpTelegram ts
    → let out = on_frames (map (λ t. request channel t.seq t.raw_cemi) ts) c in
      (emitted out.actions ≡ map (λ t. t.frame) ts)
      × (acknowledged out.actions ≡ map (λ t. ack_to channel t.seq) ts)
      × (out.client.seq_in ≡ c.seq_in)
      × (out.client.seq_out ≡ c.seq_out)
unfolding IsTcpTelegram on_frame dispatch handle_inbound_tunnelling send_ack process_incoming_cemi
    deliver from_body service_type_of
on_frames-tcp channel [] c v h = (refl, refl, refl, refl)
on_frames-tcp channel (t ∷ ts) c v (h, hs) =
    let (e, a, i, o) =
      on_frames-tcp channel ts (record c { rx_telegrams = c.rx_telegrams + 1 })
        (record {
          has_transport = v.has_transport;
          on_channel = v.on_channel;
          over_tcp = v.over_tcp;
          not_awaited = v.not_awaited;
        })
        hs in
    (
      ground (arith, v.has_transport, v.on_channel, v.over_tcp, v.not_awaited, h, e),
      ground (arith, v.has_transport, v.on_channel, v.over_tcp, v.not_awaited, h, a),
      ground (arith, v.has_transport, v.on_channel, v.over_tcp, v.not_awaited, h, i),
      ground (arith, v.has_transport, v.on_channel, v.over_tcp, v.not_awaited, h, o),
    )
