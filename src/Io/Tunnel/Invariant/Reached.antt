-- ===== src/Io/Tunnel/Invariant/Reached.antt =====
-- Sending and the heartbeat keep the invariant, so it holds of each client that can be reached.
use node_red_contrib_eelectr.Base.{
  ℕ, zero, suc, ◌+◌, ◌≡◌, refl, arith, Bool, true, false, Option, none, some, Bytes, Result, ok,
  err, Bool-cases, ◌⊎◌, inl, inr,
}
use node_red_contrib_eelectr.Core.Cemi.{CemiFrame, frame_to_knx}
use node_red_contrib_eelectr.Core.Bodies.ConnectionStateResponse.{ConnectionStateResponse}
use node_red_contrib_eelectr.Core.Frame.{connectionstate_response}
use node_red_contrib_eelectr.Io.Tunnel.{TunnelClient, gave_up, heartbeat_failed}
use node_red_contrib_eelectr.Io.Tunnel.Lost
use node_red_contrib_eelectr.Io.Tunnel.Lifecycle
use node_red_contrib_eelectr.Io.Tunnel.Sending
use node_red_contrib_eelectr.Io.Tunnel.Sending.{Attempt, first, second, after_reconnect}
use node_red_contrib_eelectr.Io.Tunnel.Heartbeat
use node_red_contrib_eelectr.Io.Tunnel.Invariant.{
  IsValid, next_seq_fits, keeps-await_response, keeps-await_ack, keeps-on_tunnel_lost,
}
use node_red_contrib_eelectr.Io.Tunnel.Events.{
  Event, connects, disconnects, reconnect_waited, has_reconnected, reconnect_settled, binds,
  connect_answered, connect_fails, disconnect_done, frame_arrives, sends, attempt_fails, resends,
  acknowledged, ack_times_out, response_times_out, invalid_seq_times_out, heartbeat_fires,
  heartbeat_answered, heartbeat_errs, on_event, Reachable, created, happened,
}
use node_red_contrib_eelectr.Io.Tunnel.{TunnelClientOptions, new_tunnel_client}
use node_red_contrib_eelectr.Io.Tunnel.Invariant.{
  keeps-on_ack_timeout, keeps-on_response_timeout, keeps-connect, keeps-reconnect_attempt,
}
use node_red_contrib_eelectr.Io.Tunnel.Invariant.Handlers.{
  keeps-on_frame, keeps-on_invalid_seq_timeout,
}
use node_red_contrib_eelectr.Io.Tunnel.Invariant.Lifecycles.{
  same-IsValid, keeps-connect_failed, keeps-on_bound, keeps-on_connect_response,
  keeps-finish_disconnect, keeps-disconnect_now,
}

keeps-disconnect : (c : TunnelClient) → IsValid c → IsValid (Lifecycle.disconnect c).client
unfolding Lifecycle.disconnect
keeps-disconnect c v = record {
  in_fits = ground (arith, v.in_fits, now.in_fits);
  out_fits = ground (arith, v.out_fits, now.out_fits);
  ack_fits = ground (arith, v.ack_fits, now.ack_fits);
  awaits = ground (arith, v.awaits, now.awaits);
}
  where
    now : IsValid (Lifecycle.disconnect_now (record c { reconnect_abort = true })).client
    now =
        keeps-disconnect_now (record c { reconnect_abort = true })
          (same-IsValid c (record c { reconnect_abort = true }) v refl refl refl refl)

keeps-request_if :
    (has_transport : Bool) (channel : Option ℕ) (raw_cemi : Bytes) (c : TunnelClient)
    → IsValid c
    → IsValid (Sending.request_if has_transport channel raw_cemi c).client
unfolding Sending.request_if Sending.request_on
keeps-request_if true (some channel) raw_cemi c v =
    keeps-await_ack c v _ (ground (arith, v.out_fits))
keeps-request_if true none raw_cemi c v = v
keeps-request_if false channel raw_cemi c v = v

keeps-once :
    (raw_cemi : Bytes) (c : TunnelClient)
    → IsValid c
    → IsValid (Sending.tunnelling_request_once raw_cemi c).client
unfolding Sending.tunnelling_request_once
keeps-once raw_cemi c v = keeps-request_if c.transport c.channel_id raw_cemi c v

keeps-send_raw :
    (r : Result Bytes) (c : TunnelClient) → IsValid c → IsValid (Sending.send_raw r c).client
unfolding Sending.send_raw
keeps-send_raw (ok raw_cemi) c v = keeps-once raw_cemi c v
keeps-send_raw (err e) c v = v

keeps-send_cemi :
    (cemi : CemiFrame) (c : TunnelClient) → IsValid c → IsValid (Sending.send_cemi cemi c).client
unfolding Sending.send_cemi
keeps-send_cemi cemi c v = record {
  in_fits = ground (arith, v.in_fits, sent.in_fits);
  out_fits = ground (arith, v.out_fits, sent.out_fits);
  ack_fits = ground (arith, v.ack_fits, sent.ack_fits);
  awaits = ground (arith, v.awaits, sent.awaits);
}
  where
    sent : IsValid (Sending.send_raw (frame_to_knx cemi) c).client
    sent = keeps-send_raw (frame_to_knx cemi) c v

keeps-bump_seq_out : (c : TunnelClient) → IsValid c → IsValid (Sending.bump_seq_out c).client
unfolding Sending.bump_seq_out
keeps-bump_seq_out c v = record {
  in_fits = v.in_fits;
  out_fits = next_seq_fits c.seq_out;
  ack_fits = v.ack_fits;
  awaits = v.awaits;
}

keeps-on_acknowledged : (c : TunnelClient) → IsValid c → IsValid (Sending.on_acknowledged c).client
unfolding Sending.on_acknowledged Sending.bump_seq_out
keeps-on_acknowledged c v = record {
  in_fits = ground (arith, v.in_fits);
  out_fits = ground (arith, v.out_fits, next_seq_fits c.seq_out);
  ack_fits = ground (arith, v.ack_fits);
  awaits = ground (arith, v.awaits);
}

keeps-on_attempt_failed :
    (attempt : Attempt) (raw_cemi : Bytes) (c : TunnelClient)
    → IsValid c
    → IsValid (Sending.on_attempt_failed attempt raw_cemi c).client
unfolding Sending.on_attempt_failed
keeps-on_attempt_failed first raw_cemi c v = keeps-once raw_cemi c v
keeps-on_attempt_failed second raw_cemi c v = record {
  in_fits = ground (arith, lost.in_fits);
  out_fits = ground (arith, lost.out_fits);
  ack_fits = ground (arith, lost.ack_fits);
  awaits = ground (arith, lost.awaits);
}
  where
    lost : IsValid (Lost.on_tunnel_lost gave_up (Sending.bump_seq_out c).client).client
    lost = keeps-on_tunnel_lost gave_up (Sending.bump_seq_out c).client (keeps-bump_seq_out c v)
keeps-on_attempt_failed after_reconnect raw_cemi c v = v

keeps-request_state :
    (has_transport : Bool) (channel : Option ℕ) (c : TunnelClient)
    → IsValid c
    → IsValid (Heartbeat.state_request_if has_transport channel c).client
unfolding Heartbeat.state_request_if
keeps-request_state true (some channel) c v = keeps-await_response c v connectionstate_response refl
keeps-request_state true none c v = v
keeps-request_state false channel c v = v

keeps-heartbeat_attempts :
    (left : ℕ) (c : TunnelClient) → IsValid c → IsValid (Heartbeat.heartbeat_attempts left c).client
unfolding Heartbeat.heartbeat_attempts Heartbeat.send_connection_state_request
keeps-heartbeat_attempts zero c v =
    keeps-on_tunnel_lost heartbeat_failed (record c { heartbeats_failed = c.heartbeats_failed + 1 })
      (same-IsValid c (record c { heartbeats_failed = c.heartbeats_failed + 1 }) v refl refl refl
        refl)
keeps-heartbeat_attempts (suc left) c v =
    let once = keeps-request_state c.transport c.channel_id c v in
    let more =
      keeps-heartbeat_attempts left (Heartbeat.state_request_if c.transport c.channel_id c).client
        once in
    split once more (Bool-cases (Heartbeat.gets_to_wait c))
  where
    split :
        IsValid (Heartbeat.state_request_if c.transport c.channel_id c).client
        → IsValid
            (Heartbeat.heartbeat_attempts left
              (Heartbeat.state_request_if c.transport c.channel_id c).client).client
        → ((Heartbeat.gets_to_wait c ≡ true) ⊎ (Heartbeat.gets_to_wait c ≡ false))
        → IsValid (Heartbeat.heartbeat_attempts (suc left) c).client
    split once more (inl h) = rw h once
    split once more (inr h) = rw h more

keeps-on_heartbeat_response :
    (left : ℕ) (response : ConnectionStateResponse) (c : TunnelClient)
    → IsValid c
    → IsValid (Heartbeat.on_heartbeat_response left response c).client
unfolding Heartbeat.on_heartbeat_response
keeps-on_heartbeat_response left response c v = record {
  in_fits = ground (arith, v.in_fits, again.in_fits);
  out_fits = ground (arith, v.out_fits, again.out_fits);
  ack_fits = ground (arith, v.ack_fits, again.ack_fits);
  awaits = ground (arith, v.awaits, again.awaits);
}
  where
    again : IsValid (Heartbeat.heartbeat_attempts left c).client
    again = keeps-heartbeat_attempts left c v

keeps-on_event : (e : Event) (c : TunnelClient) → IsValid c → IsValid (on_event e c).client
unfolding on_event Lifecycle.reconnected Heartbeat.heartbeat Heartbeat.on_heartbeat_error
keeps-on_event connects c v = keeps-connect c v
keeps-on_event disconnects c v = keeps-disconnect c v
keeps-on_event reconnect_waited c v = keeps-reconnect_attempt c v
keeps-on_event has_reconnected c v = same-IsValid c _ v refl refl refl refl
keeps-on_event reconnect_settled c v = keeps-disconnect_now c v
keeps-on_event (binds bound) c v = keeps-on_bound bound c v
keeps-on_event (connect_answered response) c v = keeps-on_connect_response response c v
keeps-on_event (connect_fails reason) c v = keeps-connect_failed reason c v
keeps-on_event disconnect_done c v = keeps-finish_disconnect c v
keeps-on_event (frame_arrives frame) c v = keeps-on_frame c v frame
keeps-on_event (sends cemi) c v = keeps-send_cemi cemi c v
keeps-on_event (attempt_fails attempt raw_cemi) c v = keeps-on_attempt_failed attempt raw_cemi c v
keeps-on_event (resends raw_cemi) c v = keeps-once raw_cemi c v
keeps-on_event acknowledged c v = keeps-on_acknowledged c v
keeps-on_event ack_times_out c v = keeps-on_ack_timeout c v
keeps-on_event response_times_out c v = keeps-on_response_timeout c v
keeps-on_event invalid_seq_times_out c v = keeps-on_invalid_seq_timeout c v
keeps-on_event heartbeat_fires c v = keeps-heartbeat_attempts Heartbeat.heartbeat_max_failures c v
keeps-on_event (heartbeat_answered left response) c v =
    keeps-on_heartbeat_response left response c v
keeps-on_event (heartbeat_errs left) c v = keeps-heartbeat_attempts left c v

-- Whatever events lead to a client, in whatever order: its two sequence counters and the counter that
-- an acknowledgement is awaited for fit a byte, and the response that it waits for, if any, is one of
-- CONNECT_RESPONSE, CONNECTIONSTATE_RESPONSE and DISCONNECT_RESPONSE.
pub Reachable-IsValid :
    (opts : TunnelClientOptions) (c : TunnelClient) → Reachable opts c → IsValid c
unfolding new_tunnel_client
Reachable-IsValid opts c created = record {
  in_fits = omega arith;
  out_fits = omega arith;
  ack_fits = refl;
  awaits = refl;
}
Reachable-IsValid opts c (happened d e r) = keeps-on_event e d (Reachable-IsValid opts d r)
