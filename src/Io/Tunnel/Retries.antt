-- ===== src/Io/Tunnel/Retries.antt =====
-- One request and its acknowledgement, and what becomes of a request that is not acknowledged.
use node_red_contrib_eelectr.Base.{
  ℕ, ◌≡◌, refl, arith, true, false, not, ◌==◌, if◌then◌else◌, none, some, List, [], ◌∷◌, ◌++◌,
  Bytes,
}
use node_red_contrib_eelectr.Core.Bodies.TunnellingAck.{TunnellingAck}
use node_red_contrib_eelectr.Core.Bodies.TunnellingRequest.{new_tunnelling_request}
use node_red_contrib_eelectr.Core.Frame.{
  tunnelling_ack_body, tunnelling_request_body, tunnelling_ack, from_body, service_type_of,
}
use node_red_contrib_eelectr.Io.Tunnel.{
  TunnelClient, disconnected, disconnecting, ack_error, ack_timeout, gave_up, not_connected, Action,
  send, resolve_ack, reject_ack, reject_call, next_seq,
}
use node_red_contrib_eelectr.Io.Tunnel.Pending.{await_ack, on_ack_timeout}
use node_red_contrib_eelectr.Io.Tunnel.Lost.{same_state}
use node_red_contrib_eelectr.Io.Tunnel.Loss.{lost_client, lost_actions, on_tunnel_lost_lem}
use node_red_contrib_eelectr.Io.Tunnel.Inbound.{
  is_expected, dispatch, handle_ack, on_frame, e_no_error,
}
use node_red_contrib_eelectr.Io.Tunnel.Sending.{
  tunnelling_request_once, request_if, request_on, bump_seq_out, first, second, on_attempt_failed,
}

-- A client that can make an attempt: it has a transport and a channel, and waits for no acknowledgement.
pub record IsReady (channel : ℕ) (c : TunnelClient) : Type 0 where
  pub has_transport : c.transport ≡ true
  pub on_channel : c.channel_id ≡ some channel
  pub awaits_none : c.pending_ack ≡ none
  pub not_awaited : is_expected c.pending_response tunnelling_ack ≡ false

-- The sequence counter of an attempt.
abbrev pub attempt_seq : TunnelClient → ℕ
attempt_seq c = if c.opts.over_tcp then 0 else c.seq_out

abbrev pub attempt_request : ℕ → Bytes → TunnelClient → Action
attempt_request channel raw_cemi c =
    send (tunnelling_request_body (new_tunnelling_request channel (attempt_seq c) raw_cemi))
      c.data_endpoint

pub once_lem :
    (channel : ℕ) (raw_cemi : Bytes) (c : TunnelClient)
    → IsReady channel c
    → tunnelling_request_once raw_cemi c ≡ record {
      client = record c { pending_ack = some (attempt_seq c) };
      actions = attempt_request channel raw_cemi c ∷ [];
    }
unfolding tunnelling_request_once request_if request_on await_ack
once_lem channel raw_cemi c v = ground (arith, v.has_transport, v.on_channel, v.awaits_none)

-- What the frame of an acknowledgement means to a client that waits for a sequence counter.
abbrev pub answer_to : ℕ → TunnellingAck → List Action
answer_to seq ack =
    if not (ack.sequence_counter == seq)
    then []
    else (if ack.status_code == e_no_error
        then resolve_ack ∷ []
        else reject_ack (ack_error ack.status_code) ∷ [])

-- A client that can make an attempt makes it, and then gets the frame of an acknowledgement. Under
-- another sequence counter than that of the attempt, it is ignored and the client goes on waiting;
-- otherwise the client stops waiting, and the attempt succeeds or fails by the status.
pub on_frame-once :
    (channel : ℕ) (raw_cemi : Bytes) (ack : TunnellingAck) (c : TunnelClient)
    → IsReady channel c
    → on_frame (from_body (tunnelling_ack_body ack)) (tunnelling_request_once raw_cemi c).client
      ≡ record {
        client =
            if ack.sequence_counter == attempt_seq c
            then c
            else record c { pending_ack = some (attempt_seq c) };
        actions = answer_to (attempt_seq c) ack;
      }
unfolding on_frame dispatch handle_ack from_body service_type_of
on_frame-once channel raw_cemi ack c v =
    ground (arith, once_lem channel raw_cemi c v, v.not_awaited, v.awaits_none)

-- An attempt that is not acknowledged in time is made again with the same frame for the same address,
-- sequence counter included, and by a client that is as it was before. If that is not acknowledged
-- either, the client counts on and takes the tunnel for lost. The call fails at once if the option to
-- reconnect is off. If it is on, a third attempt follows; made before the tunnel is connected
-- again, also where no loop is reconnecting, it sends nothing, changes nothing and is rejected.
pub on_attempt_failed_lem :
    (channel : ℕ) (raw_cemi : Bytes) (c : TunnelClient)
    → IsReady channel c
    → same_state c.state disconnected ≡ false
    → same_state c.state disconnecting ≡ false
    → let once = tunnelling_request_once raw_cemi c in
      let late = on_ack_timeout once.client in
      let bumped = record c { seq_out = next_seq c.seq_out } in
      (late ≡ record { client = c; actions = reject_ack ack_timeout ∷ [] })
      × (on_attempt_failed first raw_cemi late.client ≡ once)
      × (on_attempt_failed second raw_cemi late.client ≡ record {
        client = lost_client bumped;
        actions =
            lost_actions gave_up bumped
            ++ (if not c.opts.auto_reconnect then reject_call gave_up ∷ [] else []);
      })
      × (tunnelling_request_once raw_cemi (lost_client bumped)
          ≡ record { client = lost_client bumped; actions = reject_ack not_connected ∷ [] })
unfolding on_ack_timeout on_attempt_failed bump_seq_out tunnelling_request_once request_if
on_attempt_failed_lem channel raw_cemi c v hd hg =
    let once = once_lem channel raw_cemi c v in
    (
      ground (arith, once, v.awaits_none),
      ground (arith, once, v.awaits_none),
      ground (
        arith,
        once,
        v.awaits_none,
        on_tunnel_lost_lem gave_up (record c { seq_out = next_seq c.seq_out }) hd hg,
      ),
      refl,
    )
