-- ===== src/Io/Tunnel/LateRequest.antt =====
-- A request that arrives late, while a client disconnects.
use mathlib.Core.Path.{subst}
use node_red_contrib_eelectr.Base.{
  ℕ, ◌≡◌, ◌≢◌, sym, ap, ◌∙◌, arith, true, false, none, some, List, [], ◌∷◌, Bytes, ok,
}
use node_red_contrib_eelectr.Core.Hpai.{Hpai}
use node_red_contrib_eelectr.Core.Bodies.ConnectResponse.{ConnectResponse}
use node_red_contrib_eelectr.Core.Bodies.DisconnectResponse.{DisconnectResponse}
use node_red_contrib_eelectr.Core.Frame.{
  connect_response_body, disconnect_response_body, connect_response, disconnect_response, from_body,
  service_type_of,
}
use node_red_contrib_eelectr.Io.Tunnel.{
  TunnelClient, disconnected, connecting, connected, disconnecting, SocketAddress,
}
use node_red_contrib_eelectr.Io.Tunnel.Pending.{
  await_response, reject_pending_ack, reject_pending_response,
}
use node_red_contrib_eelectr.Io.Tunnel.Lost.{
  set_state, start_heartbeat, stop_heartbeat, cancel_invalid_seq_timer, arm_invalid_seq_timer,
  drop_transport, connect,
}
use node_red_contrib_eelectr.Io.Tunnel.Inbound.{
  previous_seq, dispatch, in_sequence, handle_inbound_tunnelling, on_frame,
}
use node_red_contrib_eelectr.Io.Tunnel.Inbound.Delivery.{request}
use node_red_contrib_eelectr.Io.Tunnel.Lifecycle.{
  local_hpai_of, with_hpai, send_connect_request, on_bound, established, on_connect_response,
  request_disconnect, close_channel, finish_disconnect, disconnect_now, disconnect,
}
use node_red_contrib_eelectr.Io.Tunnel.Events.{
  Event, connects, disconnects, binds, connect_answered, disconnect_done, frame_arrives, on_event,
}

-- What is left of a client after some events.
abbrev pub run : List Event → TunnelClient → TunnelClient
run [] c = c
run (e ∷ es) c = run es (on_event e c).client

abbrev Run : Type 0
Run = TunnelClient → TunnelClient

-- A connected client over UDP that waits for nothing and is not reconnecting.
pub record IsIdle (channel : ℕ) (c : TunnelClient) : Type 0 where
  pub is_connected : c.state ≡ connected
  pub has_transport : c.transport ≡ true
  pub on_channel : c.channel_id ≡ some channel
  pub over_udp : c.opts.over_tcp ≡ false
  pub awaits_no_ack : c.pending_ack ≡ none
  pub awaits_no_response : c.pending_response ≡ none
  pub not_reconnecting : c.reconnect_promise ≡ false

abbrev leaving : TunnelClient → TunnelClient
leaving c = record c {
  state = disconnecting;
  reconnect_abort = true;
  heartbeat_timer = false;
  invalid_seq_timer = false;
  pending_response = some disconnect_response;
}

disconnect-leaving :
    (channel : ℕ) (c : TunnelClient) → IsIdle channel c → (disconnect c).client ≡ leaving c
unfolding disconnect disconnect_now set_state stop_heartbeat cancel_invalid_seq_timer
    reject_pending_ack reject_pending_response close_channel request_disconnect await_response
disconnect-leaving channel c v = ground (
  arith, v.is_connected, v.has_transport, v.on_channel, v.awaits_no_ack, v.awaits_no_response,
  v.not_reconnecting,
)

on_frame-late :
    (channel seq : ℕ) (raw_cemi : Bytes) (c : TunnelClient)
    → IsIdle channel c
    → seq ≢ c.seq_in
    → seq ≢ previous_seq c.seq_in
    → (on_frame (request channel seq raw_cemi) (leaving c)).client
      ≡ record (leaving c) { invalid_seq_timer = true }
unfolding on_frame dispatch handle_inbound_tunnelling in_sequence arm_invalid_seq_timer from_body
    service_type_of
on_frame-late channel seq raw_cemi c v h1 h2 =
    ground (arith, v.on_channel, v.over_udp, v.not_reconnecting, h1, h2)

abbrev gone : TunnelClient → TunnelClient
gone c = record c {
  state = disconnected;
  reconnect_abort = false;
  heartbeat_timer = false;
  invalid_seq_timer = true;
  pending_response = none;
  transport = false;
  channel_id = none;
  data_endpoint = none;
  assigned_address = none;
}

on_frame-goodbye :
    (goodbye : DisconnectResponse) (c : TunnelClient)
    → c.transport ≡ true
    → (finish_disconnect
        (on_frame
          (from_body (disconnect_response_body goodbye))
          (record (leaving c) { invalid_seq_timer = true })).client).client
      ≡ gone c
unfolding on_frame from_body service_type_of finish_disconnect drop_transport set_state
on_frame-goodbye goodbye c h = ground (arith, h)

abbrev asking : Hpai → TunnelClient → TunnelClient
asking hpai c = record (gone c) {
  state = connecting;
  transport = true;
  local_hpai = hpai;
  pending_response = some connect_response;
}

on_bound-connect :
    (bound : SocketAddress) (hpai : Hpai) (c : TunnelClient)
    → local_hpai_of bound c ≡ ok hpai
    → (on_bound bound (connect (gone c)).client).client ≡ asking hpai c
unfolding on_bound local_hpai_of with_hpai send_connect_request await_response connect set_state
on_bound-connect bound hpai c h = ground (arith, h)

on_connect_response-asking :
    (hpai : Hpai) (response : ConnectResponse) (c : TunnelClient)
    → response.status_code ≡ 0
    → let again =
        (on_connect_response response
          (on_frame (from_body (connect_response_body response)) (asking hpai c)).client).client in
      (again.state ≡ connected) × (again.invalid_seq_timer ≡ true)
unfolding on_frame from_body service_type_of on_connect_response established start_heartbeat
    set_state
on_connect_response-asking hpai response c h = (ground (arith, h), ground (arith, h))

-- A connected client over UDP, waiting for nothing, disconnects, and a request out of order arrives before the
-- gateway's answer. It then gets the answer, finishes, connects again, binds its transport, asks for a channel and
-- gets a response that accepts it. The client is connected. The timer for requests out of order did not run
-- behind the call of disconnect(), and runs at the end.
pub run-late_request :
    (channel seq : ℕ) (raw_cemi : Bytes) (goodbye : DisconnectResponse) (bound : SocketAddress)
    (hpai : Hpai) (response : ConnectResponse) (c : TunnelClient)
    → IsIdle channel c
    → seq ≢ c.seq_in
    → seq ≢ previous_seq c.seq_in
    → local_hpai_of bound c ≡ ok hpai
    → response.status_code ≡ 0
    → let again =
        run
          (disconnects
            ∷ frame_arrives (request channel seq raw_cemi)
            ∷ frame_arrives (from_body (disconnect_response_body goodbye))
            ∷ disconnect_done
            ∷ connects
            ∷ binds bound
            ∷ frame_arrives (from_body (connect_response_body response))
            ∷ connect_answered response
            ∷ [])
          c in
      ((run (disconnects ∷ []) c).invalid_seq_timer ≡ false)
      × (again.state ≡ connected)
      × (again.invalid_seq_timer ≡ true)
unfolding on_event
run-late_request channel seq raw_cemi goodbye bound hpai response c v h1 h2 hl hz =
    let left : Run = λ d. (on_frame (request channel seq raw_cemi) d).client in
    let goes : Run = λ d.
      (finish_disconnect
        (on_frame (from_body (disconnect_response_body goodbye)) d).client).client in
    let asks : Run = λ d. (on_bound bound (connect d).client).client in
    let answered : Run = λ d.
      (on_connect_response response
        (on_frame (from_body (connect_response_body response)) d).client).client in
    let (state, timer) =
      subst (λ d. (d.state ≡ connected) × (d.invalid_seq_timer ≡ true))
        (sym (
          ap (λ d. answered (asks (goes (left d)))) (disconnect-leaving channel c v)
          ∙ ap (λ d. answered (asks (goes d))) (on_frame-late channel seq raw_cemi c v h1 h2)
          ∙ ap (λ d. answered (asks d)) (on_frame-goodbye goodbye c v.has_transport)
          ∙ ap answered (on_bound-connect bound hpai c hl)))
        (on_connect_response-asking hpai response c hz) in
    (ap (λ d. d.invalid_seq_timer) (disconnect-leaving channel c v), state, timer)
