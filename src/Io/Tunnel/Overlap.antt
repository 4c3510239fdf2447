-- ===== src/Io/Tunnel/Overlap.antt =====
-- What happens where two activities of a client overlap: a heartbeat and a call that waits, a
-- disconnect() and the loop that reconnects.
use node_red_contrib_eelectr.Base.{ℕ, ◌+◌, ◌≡◌, arith, true, false, none, some, List, [], ◌∷◌, ◌++◌}
use node_red_contrib_eelectr.Core.Frame.{connectionstate_request_body}
use node_red_contrib_eelectr.Io.Tunnel.{
  TunnelClient, disconnected, connecting, disconnecting, Reason, already_pending, heartbeat_failed,
  Action, send, reject_response, resolve_call, emit_state, open_transport,
}
use node_red_contrib_eelectr.Io.Tunnel.Pending.{await_response}
use node_red_contrib_eelectr.Io.Tunnel.Lost.{
  same_state, set_state, drop_transport, connect, reconnect_attempt,
}
use node_red_contrib_eelectr.Io.Tunnel.Loss.{lost_client, lost_actions, on_tunnel_lost_lem}
use node_red_contrib_eelectr.Io.Tunnel.Lifecycle.{connect_failed, disconnect_now, disconnect}
use node_red_contrib_eelectr.Io.Tunnel.Heartbeat.{
  state_request_if, send_connection_state_request, heartbeat_attempts, heartbeat,
}

-- One attempt of a heartbeat that cannot wait.
abbrev pub vain_attempt : ℕ → TunnelClient → List Action
vain_attempt channel c =
    reject_response already_pending
    ∷ send
        (connectionstate_request_body
          (record { communication_channel_id = channel; control_endpoint = c.local_hpai }))
        none
    ∷ []

vain_attempt_lem :
    (channel ty : ℕ) (c : TunnelClient)
    → c.transport ≡ true
    → c.channel_id ≡ some channel
    → c.pending_response ≡ some ty
    → send_connection_state_request c ≡ record { client = c; actions = vain_attempt channel c }
unfolding send_connection_state_request state_request_if await_response
vain_attempt_lem channel ty c ht hc hp = ground (arith, ht, hc, hp)

-- A heartbeat that fires while a call waits for a response does not wait for one of its own. Its four
-- attempts are over at once, each with a request to the gateway, and the client takes the tunnel for
-- lost, which rejects the call that waited.
pub heartbeat-pending :
    (channel ty : ℕ) (c : TunnelClient)
    → c.transport ≡ true
    → c.channel_id ≡ some channel
    → c.pending_response ≡ some ty
    → same_state c.state disconnected ≡ false
    → same_state c.state disconnecting ≡ false
    → let failed = record c { heartbeats_failed = c.heartbeats_failed + 1 } in
      heartbeat c ≡ record {
        client = lost_client failed;
        actions =
            vain_attempt channel c
            ++ (vain_attempt channel c
                ++ (vain_attempt channel c
                    ++ (vain_attempt channel c ++ lost_actions heartbeat_failed failed)));
      }
unfolding heartbeat heartbeat_attempts
heartbeat-pending channel ty c ht hc hp hd hg =
    let failed = record c { heartbeats_failed = c.heartbeats_failed + 1 } in
    ground (
      arith,
      hp,
      vain_attempt_lem channel ty c ht hc hp,
      on_tunnel_lost_lem heartbeat_failed failed hd hg,
    )

-- A disconnect() between two attempts of the loop that reconnects succeeds and changes nothing: the next
-- attempt connects all the same.
pub disconnect-between_attempts :
    (c : TunnelClient)
    → c.state ≡ disconnected
    → c.reconnect_promise ≡ true
    → c.reconnect_abort ≡ false
    → (disconnect c ≡ record { client = c; actions = resolve_call ∷ [] })
      × (reconnect_attempt (disconnect c).client ≡ record {
        client = record c { state = connecting };
        actions = emit_state connecting disconnected ∷ open_transport ∷ [];
      })
unfolding disconnect reconnect_attempt connect set_state
disconnect-between_attempts c hs hp ha = (ground (arith, hs, hp, ha), ground (arith, hs, hp, ha))

-- A disconnect() during an attempt of that loop which then fails ends the loop, but leaves the client
-- with the flag that forbids to reconnect.
pub disconnect-during_attempt :
    (reason : Reason) (c : TunnelClient)
    → c.state ≡ connecting
    → c.reconnect_promise ≡ true
    → let waiting = (disconnect c).client in
      let failed = (connect_failed reason waiting).client in
      let ended = (reconnect_attempt failed).client in
      disconnect_now ended ≡ record {
        client = record c {
          state = disconnected;
          transport = false;
          reconnect_promise = false;
          reconnect_abort = true;
        };
        actions = resolve_call ∷ [];
      }
unfolding disconnect connect_failed drop_transport set_state reconnect_attempt disconnect_now
disconnect-during_attempt reason c hs hp = ground (arith, hs, hp)
