-- ===== src/Io/Tunnel/Heartbeat.antt =====
-- The heartbeat, cut at its awaits.
use node_red_contrib_eelectr.Base.{
  ℕ, zero, suc, ◌+◌, Bool, true, false, ◌==◌, if◌then◌else◌, Option, none, some, [], ◌∷◌,
}
use node_red_contrib_eelectr.Core.Bodies.ConnectionStateResponse.{ConnectionStateResponse}
use node_red_contrib_eelectr.Core.Frame.{connectionstate_request_body, connectionstate_response}
use node_red_contrib_eelectr.Io.Tunnel.{
  heartbeat_failed, not_connected, TunnelClient, send, reject_response, Outcome, done, doing, ◌▷◌,
}
use node_red_contrib_eelectr.Io.Tunnel.Pending.{await_response}
use node_red_contrib_eelectr.Io.Tunnel.Lost.{on_tunnel_lost}
use node_red_contrib_eelectr.Io.Tunnel.Inbound.{e_no_error}

abbrev pub heartbeat_max_failures : ℕ
heartbeat_max_failures = 4

unfoldable pub state_request_if : Bool → Option ℕ → TunnelClient → Outcome
state_request_if true (some channel) c =
    await_response connectionstate_response c
    ▷ doing (
        send
          (connectionstate_request_body
            (record { communication_channel_id = channel; control_endpoint = c.local_hpai }))
          none
        ∷ [])
state_request_if _ _ c = doing (reject_response not_connected ∷ []) c

unfoldable pub send_connection_state_request : TunnelClient → Outcome
unfolding state_request_if
send_connection_state_request c = state_request_if c.transport c.channel_id c

-- Whether the attempt gets to wait for its response, or is rejected by itself.
abbrev pub gets_to_wait : TunnelClient → Bool
gets_to_wait c = elim c.pending_response [ none ↦ waits c.transport c.channel_id | some ty ↦ false ]
  where
    waits : Bool → Option ℕ → Bool
    waits true (some channel) = true
    waits _ _ = false

-- The loop with the number of attempts that are left, up to its first wait.
unfoldable pub heartbeat_attempts : ℕ → TunnelClient → Outcome
heartbeat_attempts zero c =
    done (record c { heartbeats_failed = c.heartbeats_failed + 1 })
    ▷ on_tunnel_lost heartbeat_failed
heartbeat_attempts (suc left) c =
    if gets_to_wait c
    then send_connection_state_request c
    else send_connection_state_request c ▷ heartbeat_attempts left

-- The interval timer fires.
unfoldable pub heartbeat : TunnelClient → Outcome
heartbeat c = heartbeat_attempts heartbeat_max_failures c

-- The response of an attempt, or its timeout, with the number of attempts that are left.
unfoldable pub on_heartbeat_response : ℕ → ConnectionStateResponse → TunnelClient → Outcome
on_heartbeat_response left response c =
    if response.status_code == e_no_error
    then done (record c { heartbeats_ok = c.heartbeats_ok + 1 })
    else heartbeat_attempts left c

unfoldable pub on_heartbeat_error : ℕ → TunnelClient → Outcome
on_heartbeat_error left c = heartbeat_attempts left c
