-- ===== src/Examples/Overlaps.antt =====
-- Clients in the middle of two activities.
use node_red_contrib_eelectr.Base.{◌+◌, ◌≡◌, ◌≢◌, refl, arith, true, false, some, [], ◌∷◌, ◌++◌, ok}
use node_red_contrib_eelectr.Core.Frame.{
  connectionstate_response, connect_response_body, disconnect_response_body, from_body,
}
use node_red_contrib_eelectr.Io.Tunnel.{
  TunnelClient, SocketAddress, new_tunnel_client, connected, connecting, disconnected,
  not_connected, heartbeat_failed, resolve_call, emit_state, open_transport,
}
use node_red_contrib_eelectr.Io.Tunnel.Lost.{reconnect_attempt}
use node_red_contrib_eelectr.Io.Tunnel.Lifecycle.{
  connect_failed, local_hpai_of, disconnect, disconnect_now,
}
use node_red_contrib_eelectr.Io.Tunnel.Inbound.{previous_seq}
use node_red_contrib_eelectr.Io.Tunnel.Inbound.Delivery.{request}
use node_red_contrib_eelectr.Io.Tunnel.Loss.{lost_client, lost_actions}
use node_red_contrib_eelectr.Io.Tunnel.Heartbeat.{heartbeat}
use node_red_contrib_eelectr.Core.Hpai.{route_back, ipv4_udp}
use node_red_contrib_eelectr.Core.Bodies.DisconnectResponse.{DisconnectResponse}
use node_red_contrib_eelectr.Io.Tunnel.Events.{
  connects, disconnects, binds, connect_answered, disconnect_done, frame_arrives,
}
use node_red_contrib_eelectr.Io.Tunnel.LateRequest.{IsIdle, run, run-late_request}
use node_red_contrib_eelectr.Io.Tunnel.Overlap.{
  vain_attempt, heartbeat-pending, disconnect-between_attempts, disconnect-during_attempt,
}
use node_red_contrib_eelectr.Examples.Tunnels.{udp, accepted, ready, telegram_bytes}

-- A client whose heartbeat waits.
abbrev waiting : TunnelClient
waiting = record ready { pending_response = some connectionstate_response }

heartbeat-pending_example :
    let failed = record waiting { heartbeats_failed = waiting.heartbeats_failed + 1 } in
    heartbeat waiting ≡ record {
      client = lost_client failed;
      actions =
          vain_attempt 7 waiting
          ++ (vain_attempt 7 waiting
              ++ (vain_attempt 7 waiting
                  ++ (vain_attempt 7 waiting ++ lost_actions heartbeat_failed failed)));
    }
unfolding new_tunnel_client
heartbeat-pending_example =
    heartbeat-pending 7 connectionstate_response waiting refl refl refl refl refl

-- A client between two attempts to reconnect, and one in an attempt.
abbrev between : TunnelClient
between = record (new_tunnel_client udp) { reconnect_promise = true }

abbrev attempting : TunnelClient
attempting = record (new_tunnel_client udp) { state = connecting; reconnect_promise = true }

disconnect-between_attempts_example :
    (disconnect between ≡ record { client = between; actions = resolve_call ∷ [] })
    × (reconnect_attempt (disconnect between).client ≡ record {
      client = record between { state = connecting };
      actions = emit_state connecting disconnected ∷ open_transport ∷ [];
    })
unfolding new_tunnel_client
disconnect-between_attempts_example = disconnect-between_attempts between refl refl refl

disconnect-during_attempt_example :
    let failed = (connect_failed not_connected (disconnect attempting).client).client in
    disconnect_now (reconnect_attempt failed).client ≡ record {
      client = record attempting {
        state = disconnected;
        transport = false;
        reconnect_promise = false;
        reconnect_abort = true;
      };
      actions = resolve_call ∷ [];
    }
disconnect-during_attempt_example = disconnect-during_attempt not_connected attempting refl refl

abbrev bound : SocketAddress
bound = record { address = []; port = 0 }

abbrev goodbye : DisconnectResponse
goodbye = record { communication_channel_id = 7; status_code = 0 }

ready-IsIdle : IsIdle 7 ready
unfolding new_tunnel_client
ready-IsIdle = record {
  is_connected = refl;
  has_transport = refl;
  on_channel = refl;
  over_udp = refl;
  awaits_no_ack = refl;
  awaits_no_response = refl;
  not_reconnecting = refl;
}

five-late : (5 ≢ ready.seq_in) × (5 ≢ previous_seq ready.seq_in)
unfolding new_tunnel_client previous_seq
five-late = (ground arith, ground arith)

bound-local : local_hpai_of bound ready ≡ ok (route_back ipv4_udp)
unfolding new_tunnel_client local_hpai_of
bound-local = refl

run-late_request_example :
    let again =
      run
        (disconnects
          ∷ frame_arrives (request 7 5 telegram_bytes)
          ∷ frame_arrives (from_body (disconnect_response_body goodbye))
          ∷ disconnect_done
          ∷ connects
          ∷ binds bound
          ∷ frame_arrives (from_body (connect_response_body accepted))
          ∷ connect_answered accepted
          ∷ [])
        ready in
    ((run (disconnects ∷ []) ready).invalid_seq_timer ≡ false)
    × (again.state ≡ connected)
    × (again.invalid_seq_timer ≡ true)
run-late_request_example =
    run-late_request 7 5 telegram_bytes goodbye bound (route_back ipv4_udp) accepted ready
      ready-IsIdle five-late.0 five-late.1 bound-local refl
