-- ===== src/Io/Tunnel/Lost.antt =====
-- The state, the timers, and what happens when the tunnel is lost. The loop that reconnects begins with
-- connect(), so its first part is here.
use node_red_contrib_eelectr.Base.{◌+◌, Bool, true, false, not, ◌||◌, if◌then◌else◌, none, [], ◌∷◌}
use node_red_contrib_eelectr.Io.Tunnel.{
  TunnelState, disconnected, connecting, connected, disconnecting, Reason, out_of_order,
  TunnelClient, emit_state, emit_warning, emit_error, close_transport, open_transport, resolve_call,
  reject_call, wrong_state, Outcome, done, doing, ◌▷◌,
}
use node_red_contrib_eelectr.Io.Tunnel.Pending.{reject_pending_ack, reject_pending_response}

abbrev pub same_state : TunnelState → TunnelState → Bool
same_state disconnected disconnected = true
same_state connecting connecting = true
same_state connected connected = true
same_state disconnecting disconnecting = true
same_state _ _ = false

unfoldable pub set_state : TunnelState → TunnelClient → Outcome
set_state next c =
    if same_state next c.state
    then done c
    else doing (emit_state next c.state ∷ []) (record c { state = next })

unfoldable pub stop_heartbeat : TunnelClient → Outcome
stop_heartbeat c = done (record c { heartbeat_timer = false })

unfoldable pub start_heartbeat : TunnelClient → Outcome
start_heartbeat c = done (record c { heartbeat_timer = c.opts.heartbeats })

unfoldable pub arm_invalid_seq_timer : TunnelClient → Outcome
arm_invalid_seq_timer c =
    if c.invalid_seq_timer || c.reconnect_promise
    then done c
    else done (record c { invalid_seq_timer = true })

unfoldable pub cancel_invalid_seq_timer : TunnelClient → Outcome
cancel_invalid_seq_timer c = done (record c { invalid_seq_timer = false })

-- The transport loses its listeners and is closed; both forget it.
unfoldable pub drop_transport : TunnelClient → Outcome
drop_transport c =
    if c.transport then doing (close_transport ∷ []) (record c { transport = false }) else done c

-- connect(), up to its first `await`: the transport is opened.
unfoldable pub connect : TunnelClient → Outcome
connect c =
    if same_state c.state connected
    then doing (resolve_call ∷ []) c
    else (if not (same_state c.state disconnected)
        then doing (reject_call (wrong_state c.state) ∷ []) c
        else set_state connecting c ▷ doing (open_transport ∷ []))

-- The top of the loop that reconnects, which ends it when it is aborted.
unfoldable pub reconnect_attempt : TunnelClient → Outcome
reconnect_attempt c =
    if c.reconnect_abort then done (record c { reconnect_promise = false }) else connect c

-- The loop that reconnects, unless it runs already. Its first attempt begins at once.
unfoldable pub begin_reconnecting : TunnelClient → Outcome
begin_reconnecting c =
    if c.reconnect_promise
    then done c
    else reconnect_attempt (record c { reconnect_promise = true })

unfoldable pub count_loss : Reason → TunnelClient → Outcome
count_loss reason c = doing (emit_warning reason ∷ []) (record c { reconnects = c.reconnects + 1 })

unfoldable pub forget_channel : TunnelClient → Outcome
forget_channel c = done (record c { channel_id = none; data_endpoint = none })

unfoldable pub reconnect_or_fail : Reason → TunnelClient → Outcome
unfolding begin_reconnecting
reconnect_or_fail reason c =
    if not c.opts.auto_reconnect || c.reconnect_abort
    then doing (emit_error reason ∷ []) c
    else begin_reconnecting c

unfoldable pub lose : Reason → TunnelClient → Outcome
unfolding reconnect_or_fail count_loss forget_channel
lose reason c =
    count_loss reason c
    ▷ stop_heartbeat
    ▷ cancel_invalid_seq_timer
    ▷ reject_pending_ack reason
    ▷ reject_pending_response reason
    ▷ drop_transport
    ▷ forget_channel
    ▷ set_state disconnected
    ▷ reconnect_or_fail reason

unfoldable pub on_tunnel_lost : Reason → TunnelClient → Outcome
unfolding lose
on_tunnel_lost reason c =
    if same_state c.state disconnected || same_state c.state disconnecting
    then done c
    else lose reason c

-- The timer fires: `this._invalidSeqTimer = null`, then the tunnel is lost.
unfoldable pub on_invalid_seq_timeout : TunnelClient → Outcome
on_invalid_seq_timeout c =
    done (record c { invalid_seq_timer = false }) ▷ on_tunnel_lost out_of_order
