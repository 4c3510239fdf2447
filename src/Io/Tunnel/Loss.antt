-- ===== src/Io/Tunnel/Loss.antt =====
-- What a lost tunnel leaves behind.
use node_red_contrib_eelectr.Base.{
  ◌+◌, ◌≡◌, arith, Bool, false, not, ◌&&◌, ◌||◌, if◌then◌else◌, none, some, List, [], ◌∷◌, ◌++◌,
}
use node_red_contrib_eelectr.Io.Tunnel.{
  TunnelClient, disconnected, connecting, disconnecting, Reason, Action, emit_state, emit_warning,
  emit_error, reject_ack, reject_response, open_transport, close_transport, Outcome, ◌▷◌,
}
use node_red_contrib_eelectr.Io.Tunnel.Pending.{reject_pending_ack, reject_pending_response}
use node_red_contrib_eelectr.Io.Tunnel.Lost.{
  same_state, set_state, stop_heartbeat, cancel_invalid_seq_timer, drop_transport, connect,
  reconnect_attempt, begin_reconnecting, count_loss, forget_channel, reconnect_or_fail, lose,
  on_tunnel_lost,
}

-- Whether the loop that reconnects is begun.
abbrev pub begins_reconnecting : TunnelClient → Bool
begins_reconnecting c =
    not (not c.opts.auto_reconnect || c.reconnect_abort) && not c.reconnect_promise

-- The client that a lost tunnel leaves behind.
abbrev pub lost_client : TunnelClient → TunnelClient
lost_client c = record c {
  state = if begins_reconnecting c then connecting else disconnected;
  transport = false;
  channel_id = none;
  data_endpoint = none;
  pending_ack = none;
  pending_response = none;
  heartbeat_timer = false;
  invalid_seq_timer = false;
  reconnect_promise = c.reconnect_promise || begins_reconnecting c;
  reconnects = c.reconnects + 1;
}

abbrev pub rejected_calls : Reason → TunnelClient → List Action
rejected_calls reason c =
    elim c.pending_ack [ none ↦ [] | some seq ↦ reject_ack reason ∷ [] ]
    ++ elim c.pending_response [ none ↦ [] | some ty ↦ reject_response reason ∷ [] ]

-- What the listeners and the waiting calls are told of a lost tunnel.
abbrev pub lost_actions : Reason → TunnelClient → List Action
lost_actions reason c =
    emit_warning reason
    ∷ (rejected_calls reason c
        ++ ((if c.transport then close_transport ∷ [] else [])
            ++ emit_state disconnected c.state
              ∷ (if not c.opts.auto_reconnect || c.reconnect_abort
                  then emit_error reason ∷ []
                  else (if c.reconnect_promise
                      then []
                      else emit_state connecting disconnected ∷ open_transport ∷ []))))

torn_down : Reason → TunnelClient → Outcome
torn_down reason c =
    count_loss reason c
    ▷ stop_heartbeat
    ▷ cancel_invalid_seq_timer
    ▷ reject_pending_ack reason
    ▷ reject_pending_response reason

torn_down_lem :
    (reason : Reason) (c : TunnelClient)
    → torn_down reason c ≡ record {
      client = record c {
        pending_ack = none;
        pending_response = none;
        heartbeat_timer = false;
        invalid_seq_timer = false;
        reconnects = c.reconnects + 1;
      };
      actions = emit_warning reason ∷ rejected_calls reason c;
    }
unfolding torn_down count_loss stop_heartbeat cancel_invalid_seq_timer reject_pending_ack
    reject_pending_response
torn_down_lem reason c = ground arith

-- The tunnel of a connecting or connected client is lost. The client has no transport, channel or timer
-- any more, each call that waited is rejected with the reason, and the listeners hear of the loss. It
-- begins to connect again if it may and no loop does so already, and otherwise, unless there is such
-- a loop, it reports the error.
pub on_tunnel_lost_lem :
    (reason : Reason) (c : TunnelClient)
    → same_state c.state disconnected ≡ false
    → same_state c.state disconnecting ≡ false
    → on_tunnel_lost reason c ≡ record { client = lost_client c; actions = lost_actions reason c }
unfolding on_tunnel_lost lose drop_transport forget_channel set_state reconnect_or_fail
    begin_reconnecting reconnect_attempt connect torn_down
on_tunnel_lost_lem reason c hd hg = ground (arith, hd, hg, torn_down_lem reason c)
