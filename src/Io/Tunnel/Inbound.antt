-- ===== src/Io/Tunnel/Inbound.antt =====
-- The dispatch of inbound frames.
pub mod Refused
pub mod ExactlyOnce
pub mod Delivery
use node_red_contrib_eelectr.Base.{
  ℕ, ◌+◌, ◌-◌, Bool, true, false, not, ◌&&◌, ◌==◌, if◌then◌else◌, Option, none, some, List, [], ◌∷◌,
  bit_and, Bytes, Result, ok, err,
}
use node_red_contrib_eelectr.Core.Cemi.{CemiFrame, frame_from_knx}
use node_red_contrib_eelectr.Core.Bodies.TunnellingRequest.{TunnellingRequest}
use node_red_contrib_eelectr.Core.Bodies.TunnellingAck.{TunnellingAck, new_tunnelling_ack}
use node_red_contrib_eelectr.Core.Bodies.DisconnectRequest.{DisconnectRequest}
use node_red_contrib_eelectr.Core.Bodies.DisconnectResponse.{DisconnectResponse}
use node_red_contrib_eelectr.Core.Header.{KnxipHeader}
use node_red_contrib_eelectr.Core.Frame.{
  KnxipBody, tunnelling_ack_body, tunnelling_request_body, disconnect_request_body,
  disconnect_response_body, KnxipFrame,
}
use node_red_contrib_eelectr.Io.Tunnel.{
  Reason, ack_error, gateway_disconnected, TunnelClient, Action, send, emit_cemi, resolve_ack,
  reject_ack, resolve_response, Outcome, done, doing, ◌▷◌, next_seq,
}
use node_red_contrib_eelectr.Io.Tunnel.Lost.{
  on_tunnel_lost, arm_invalid_seq_timer, cancel_invalid_seq_timer,
}

-- `(expected - 1) & 0xff`, where 0 - 1 has all bits set.
unfoldable pub previous_seq : ℕ → ℕ
previous_seq n = if n == 0 then 0xff else bit_and (n - 1) 0xff

abbrev pub e_no_error : ℕ
e_no_error = 0x00

settle_ack : TunnellingAck → ℕ → TunnelClient → Outcome
settle_ack ack sequence c =
    if not (ack.sequence_counter == sequence)
    then done c
    else (if not (ack.status_code == e_no_error)
        then doing (reject_ack (ack_error ack.status_code) ∷ []) (record c { pending_ack = none })
        else doing (resolve_ack ∷ []) (record c { pending_ack = none }))

match_ack : TunnellingAck → Option ℕ → TunnelClient → Outcome
unfolding settle_ack
match_ack ack none c = done c
match_ack ack (some sequence) c = settle_ack ack sequence c

unfoldable pub handle_ack : TunnellingAck → TunnelClient → Outcome
unfolding match_ack
handle_ack ack c = match_ack ack c.pending_ack c

deliver : Result (CemiFrame × ℕ) → TunnelClient → Outcome
deliver (ok (frame, n)) c =
    doing (emit_cemi frame ∷ []) (record c { rx_telegrams = c.rx_telegrams + 1 })
deliver (err e) c = done c

unfoldable pub process_incoming_cemi : Bytes → TunnelClient → Outcome
unfolding deliver
process_incoming_cemi raw_cemi c = deliver (frame_from_knx raw_cemi) c

unfoldable pub send_ack : TunnellingRequest → TunnelClient → Outcome
send_ack req c =
    if not c.transport
    then done c
    else doing
        (send
            (tunnelling_ack_body
              (new_tunnelling_ack req.communication_channel_id req.sequence_counter e_no_error))
            c.data_endpoint
          ∷ [])
        c

-- `this._channelId !== null && id !== this._channelId`.
abbrev pub is_foreign : Option ℕ → ℕ → Bool
is_foreign none id = false
is_foreign (some mine) id = not (id == mine)

unfoldable pub in_sequence : TunnellingRequest → TunnelClient → Outcome
in_sequence req c =
    if req.sequence_counter == c.seq_in
    then done (record c { seq_in = next_seq c.seq_in })
      ▷ cancel_invalid_seq_timer
      ▷ send_ack req
      ▷ process_incoming_cemi req.raw_cemi
    else (if req.sequence_counter == previous_seq c.seq_in
        then send_ack req c
        else arm_invalid_seq_timer c)

unfoldable pub handle_inbound_tunnelling : TunnellingRequest → TunnelClient → Outcome
unfolding in_sequence
handle_inbound_tunnelling req c =
    if is_foreign c.channel_id req.communication_channel_id
    then done c
    else (if c.opts.over_tcp
        then send_ack req c ▷ process_incoming_cemi req.raw_cemi
        else in_sequence req c)

-- `this._channelId !== null && id === this._channelId`.
abbrev pub is_mine : Option ℕ → ℕ → Bool
is_mine none id = false
is_mine (some mine) id = id == mine

unfoldable pub handle_inbound_disconnect : DisconnectRequest → TunnelClient → Outcome
handle_inbound_disconnect req c =
    if c.transport && is_mine c.channel_id req.communication_channel_id
    then doing
        (send
            (disconnect_response_body (record {
              communication_channel_id = req.communication_channel_id;
              status_code = e_no_error;
            }))
            none
          ∷ [])
        (record c { channel_id = none })
      ▷ on_tunnel_lost gateway_disconnected
    else done c

-- `this._pendingResponse?.expectedServiceType === serviceType`.
abbrev pub is_expected : Option ℕ → ℕ → Bool
is_expected none service_type = false
is_expected (some expected) service_type = expected == service_type

unfoldable pub dispatch : KnxipBody → TunnelClient → Outcome
dispatch (tunnelling_ack_body ack) c = handle_ack ack c
dispatch (tunnelling_request_body req) c = handle_inbound_tunnelling req c
dispatch (disconnect_request_body req) c = handle_inbound_disconnect req c
dispatch _ c = done c

unfoldable pub on_frame : KnxipFrame → TunnelClient → Outcome
unfolding dispatch
on_frame frame c =
    if is_expected c.pending_response frame.header.service_type
    then doing (resolve_response frame.body ∷ []) (record c { pending_response = none })
    else dispatch frame.body c

-- Frames that arrive one after the other.
abbrev pub on_frames : List KnxipFrame → TunnelClient → Outcome
on_frames [] c = done c
on_frames (frame ∷ frames) c = on_frame frame c ▷ on_frames frames
