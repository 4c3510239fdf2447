-- ===== src/Io/Tunnel/Sending.antt =====
-- sendCemi() and the attempts that it makes, cut at their awaits.
use node_red_contrib_eelectr.Base.{
  ℕ, ◌+◌, Bool, true, not, if◌then◌else◌, Option, some, [], ◌∷◌, Bytes, Result, ok, err,
}
use node_red_contrib_eelectr.Core.Cemi.{CemiFrame, frame_to_knx}
use node_red_contrib_eelectr.Core.Bodies.TunnellingRequest.{new_tunnelling_request}
use node_red_contrib_eelectr.Core.Frame.{tunnelling_request_body}
use node_red_contrib_eelectr.Io.Tunnel.{
  connected, gave_up, not_connected, wrong_state, thrown, TunnelClient, send, reject_ack,
  reject_call, resolve_call, Outcome, done, doing, ◌▷◌, next_seq,
}
use node_red_contrib_eelectr.Io.Tunnel.Pending.{await_ack}
use node_red_contrib_eelectr.Io.Tunnel.Lost.{same_state, on_tunnel_lost}

unfoldable pub bump_seq_out : TunnelClient → Outcome
bump_seq_out c = done (record c { seq_out = next_seq c.seq_out })

unfoldable pub request_on : ℕ → ℕ → Bytes → TunnelClient → Outcome
request_on channel seq raw_cemi c =
    await_ack seq c
    ▷ doing (
        send (tunnelling_request_body (new_tunnelling_request channel seq raw_cemi)) c.data_endpoint
        ∷ [])

unfoldable pub request_if : Bool → Option ℕ → Bytes → TunnelClient → Outcome
unfolding request_on
request_if true (some channel) raw_cemi c =
    request_on channel (if c.opts.over_tcp then 0 else c.seq_out) raw_cemi c
request_if _ _ raw_cemi c = doing (reject_ack not_connected ∷ []) c

-- One attempt, up to the wait for the acknowledgement.
unfoldable pub tunnelling_request_once : Bytes → TunnelClient → Outcome
unfolding request_if
tunnelling_request_once raw_cemi c = request_if c.transport c.channel_id raw_cemi c

-- The acknowledgement is there: the attempt and the call end.
unfoldable pub on_acknowledged : TunnelClient → Outcome
on_acknowledged c =
    done (record c { tx_telegrams = c.tx_telegrams + 1 })
    ▷ (λ d. if d.opts.over_tcp then done d else bump_seq_out d)
    ▷ doing (resolve_call ∷ [])

unfoldable pub send_raw : Result Bytes → TunnelClient → Outcome
send_raw (ok raw_cemi) c = tunnelling_request_once raw_cemi c
send_raw (err e) c = doing (reject_call (thrown e) ∷ []) c

-- The call, when the queue has come to it and no loop is reconnecting.
unfoldable pub send_cemi : CemiFrame → TunnelClient → Outcome
unfolding send_raw
send_cemi cemi c =
    if not (same_state c.state connected)
    then doing (reject_call (wrong_state c.state) ∷ []) c
    else send_raw (frame_to_knx cemi) c

pub data Attempt : Type 0 where
  first second after_reconnect : Attempt

-- An attempt fails. After the second one the call waits for the loop that reconnects, if there is one,
-- and makes the third attempt behind it by `tunnelling_request_once`.
unfoldable pub on_attempt_failed : Attempt → Bytes → TunnelClient → Outcome
on_attempt_failed first raw_cemi c = tunnelling_request_once raw_cemi c
on_attempt_failed second raw_cemi c =
    bump_seq_out c
    ▷ on_tunnel_lost gave_up
    ▷ (λ d. if not d.opts.auto_reconnect then doing (reject_call gave_up ∷ []) d else done d)
on_attempt_failed after_reconnect raw_cemi c = doing (reject_call gave_up ∷ []) c
