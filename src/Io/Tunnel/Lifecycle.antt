-- ===== src/Io/Tunnel/Lifecycle.antt =====
-- The rest of connect() behind its awaits, and disconnect().
use node_red_contrib_eelectr.Base.{
  ℕ, Bool, true, false, not, ◌==◌, if◌then◌else◌, Option, none, some, [], ◌∷◌, Result, ok, err,
}
use node_red_contrib_eelectr.Core.Hpai.{
  Hpai, HostProtocol, ipv4_udp, ipv4_tcp, new_hpai, route_back, is_route_back,
}
use node_red_contrib_eelectr.Core.Cri.{new_cri, tunnel_connection}
use node_red_contrib_eelectr.Core.Bodies.ConnectResponse.{ConnectResponse}
use node_red_contrib_eelectr.Core.Frame.{
  connect_request_body, disconnect_request_body, connect_response, disconnect_response,
}
use node_red_contrib_eelectr.Io.Tunnel.{
  disconnected, connected, disconnecting, SocketAddress, Reason, tunnel_disconnecting,
  connect_refused, thrown, TunnelClient, send, reject_call, resolve_call, Outcome, done, doing, ◌▷◌,
}
use node_red_contrib_eelectr.Io.Tunnel.Pending.{
  await_response, reject_pending_ack, reject_pending_response,
}
use node_red_contrib_eelectr.Io.Tunnel.Lost.{
  same_state, set_state, start_heartbeat, stop_heartbeat, cancel_invalid_seq_timer, drop_transport,
}
use node_red_contrib_eelectr.Io.Tunnel.Inbound.{e_no_error}

-- The `catch` of connect().
unfoldable pub connect_failed : Reason → TunnelClient → Outcome
connect_failed reason c =
    drop_transport c ▷ set_state disconnected ▷ doing (reject_call reason ∷ [])

abbrev pub hpai_protocol : TunnelClient → HostProtocol
hpai_protocol c = if c.opts.over_tcp then ipv4_tcp else ipv4_udp

unfoldable pub local_hpai_of : SocketAddress → TunnelClient → Result Hpai
local_hpai_of bound c =
    if c.opts.route_back
    then ok (route_back (hpai_protocol c))
    else new_hpai bound.address bound.port (hpai_protocol c)

unfoldable pub send_connect_request : TunnelClient → Outcome
send_connect_request c =
    await_response connect_response c
    ▷ doing (
        send
          (connect_request_body (record {
            control_endpoint = c.local_hpai;
            data_endpoint = c.local_hpai;
            cri = new_cri tunnel_connection c.opts.requested_individual_address;
          }))
          none
        ∷ [])

unfoldable pub with_hpai : Result Hpai → TunnelClient → Outcome
with_hpai (ok hpai) c = send_connect_request (record c { local_hpai = hpai })
with_hpai (err e) c = connect_failed (thrown e) c

-- The transport is bound.
unfoldable pub on_bound : SocketAddress → TunnelClient → Outcome
unfolding local_hpai_of with_hpai
on_bound bound c = with_hpai (local_hpai_of bound c) (record c { transport = true })

abbrev pub endpoint_of : Hpai → Option SocketAddress
endpoint_of h = if is_route_back h then none else some (record { address = h.ip; port = h.port })

unfoldable pub established : ConnectResponse → TunnelClient → Outcome
established response c =
    done (record c {
      channel_id = some response.communication_channel_id;
      assigned_address = response.crd.individual_address;
      data_endpoint = endpoint_of response.data_endpoint;
      seq_out = 0;
      seq_in = 0;
    })
    ▷ start_heartbeat
    ▷ set_state connected
    ▷ doing (resolve_call ∷ [])

-- The rest of _sendConnectRequest() and of connect(), when the response is there.
unfoldable pub on_connect_response : ConnectResponse → TunnelClient → Outcome
unfolding established
on_connect_response response c =
    if not (response.status_code == e_no_error)
    then connect_failed (connect_refused response.status_code) c
    else established response c

unfoldable pub request_disconnect : ℕ → TunnelClient → Outcome
request_disconnect channel c =
    await_response disconnect_response c
    ▷ doing (
        send
          (disconnect_request_body
            (record { communication_channel_id = channel; control_endpoint = c.local_hpai }))
          none
        ∷ [])

-- The `finally` of disconnect().
unfoldable pub finish_disconnect : TunnelClient → Outcome
finish_disconnect c =
    drop_transport c
    ▷ (λ d. done (record d { channel_id = none; data_endpoint = none; assigned_address = none }))
    ▷ set_state disconnected
    ▷ (λ d. doing (resolve_call ∷ []) (record d { reconnect_abort = false }))

unfoldable pub close_channel : Bool → Option ℕ → TunnelClient → Outcome
unfolding request_disconnect
close_channel true (some channel) c = request_disconnect channel c
close_channel _ _ c = finish_disconnect c

-- The part of disconnect() behind the wait for the reconnecting loop.
unfoldable pub disconnect_now : TunnelClient → Outcome
unfolding close_channel
disconnect_now c =
    if same_state c.state disconnected
    then doing (resolve_call ∷ []) c
    else set_state disconnecting c
      ▷ stop_heartbeat
      ▷ cancel_invalid_seq_timer
      ▷ reject_pending_ack tunnel_disconnecting
      ▷ reject_pending_response tunnel_disconnecting
      ▷ (λ d. close_channel d.transport d.channel_id d)

-- disconnect(): while a loop is reconnecting it waits, otherwise it goes on at once.
unfoldable pub disconnect : TunnelClient → Outcome
disconnect c =
    if same_state c.state disconnected
    then doing (resolve_call ∷ []) c
    else (if c.reconnect_promise
        then done (record c { reconnect_abort = true })
        else disconnect_now (record c { reconnect_abort = true }))

-- The loop that reconnects has connected.
unfoldable pub reconnected : TunnelClient → Outcome
reconnected c = done (record c { reconnect_promise = false })
