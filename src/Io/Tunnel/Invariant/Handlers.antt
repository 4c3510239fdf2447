-- ===== src/Io/Tunnel/Invariant/Handlers.antt =====
-- Each method of the client keeps the invariant.
use node_red_contrib_eelectr.Base.{
  ◌≡◌, refl, arith, true, false, ◌&&◌, none, Bool-cases, ◌⊎◌, inl, inr,
}
use node_red_contrib_eelectr.Core.Bodies.TunnellingRequest.{TunnellingRequest}
use node_red_contrib_eelectr.Core.Bodies.TunnellingAck.{TunnellingAck}
use node_red_contrib_eelectr.Core.Bodies.DisconnectRequest.{DisconnectRequest}
use node_red_contrib_eelectr.Core.Frame.{
  KnxipBody, tunnelling_ack_body, tunnelling_request_body, disconnect_request_body, KnxipFrame,
}
use node_red_contrib_eelectr.Io.Tunnel.{TunnelClient, gateway_disconnected, out_of_order}
use node_red_contrib_eelectr.Io.Tunnel.Lost
use node_red_contrib_eelectr.Io.Tunnel.Inbound
use node_red_contrib_eelectr.Io.Tunnel.Invariant.{IsValid, next_seq_fits, keeps-on_tunnel_lost}

module _ (c : TunnelClient) (v : IsValid c) where
  pub keeps-handle_ack : (ack : TunnellingAck) → IsValid (Inbound.handle_ack ack c).client
  unfolding Inbound.handle_ack
  keeps-handle_ack ack = record {
    in_fits = ground (arith, v.in_fits);
    out_fits = ground (arith, v.out_fits);
    ack_fits = ground (arith, v.ack_fits);
    awaits = ground (arith, v.awaits);
  }

  pub keeps-handle_inbound_tunnelling :
      (req : TunnellingRequest) → IsValid (Inbound.handle_inbound_tunnelling req c).client
  unfolding Inbound.handle_inbound_tunnelling Inbound.in_sequence Inbound.send_ack
      Inbound.process_incoming_cemi Lost.cancel_invalid_seq_timer Lost.arm_invalid_seq_timer
  keeps-handle_inbound_tunnelling req = record {
    in_fits = ground (arith, v.in_fits, next_seq_fits c.seq_in);
    out_fits = ground (arith, v.out_fits, next_seq_fits c.seq_in);
    ack_fits = ground (arith, v.ack_fits, next_seq_fits c.seq_in);
    awaits = ground (arith, v.awaits, next_seq_fits c.seq_in);
  }

  pub keeps-handle_inbound_disconnect :
      (req : DisconnectRequest) → IsValid (Inbound.handle_inbound_disconnect req c).client
  unfolding Inbound.handle_inbound_disconnect
  keeps-handle_inbound_disconnect req =
      split (Bool-cases (c.transport && Inbound.is_mine c.channel_id req.communication_channel_id))
    where
      split :
          (b : ((c.transport && Inbound.is_mine c.channel_id req.communication_channel_id) ≡ true)
            ⊎ ((c.transport && Inbound.is_mine c.channel_id req.communication_channel_id) ≡ false))
          → IsValid (Inbound.handle_inbound_disconnect req c).client
      split (inl h) = rw h (
          keeps-on_tunnel_lost gateway_disconnected (record c { channel_id = none })
            (record {
              in_fits = v.in_fits;
              out_fits = v.out_fits;
              ack_fits = v.ack_fits;
              awaits = v.awaits;
            }))
      split (inr h) = rw h v

  keeps-dispatch : (body : KnxipBody) → IsValid (Inbound.dispatch body c).client
  unfolding Inbound.dispatch
  keeps-dispatch (tunnelling_ack_body ack) = keeps-handle_ack ack
  keeps-dispatch (tunnelling_request_body req) = keeps-handle_inbound_tunnelling req
  keeps-dispatch (disconnect_request_body req) = keeps-handle_inbound_disconnect req
  keeps-dispatch _ = v

  pub keeps-on_frame : (frame : KnxipFrame) → IsValid (Inbound.on_frame frame c).client
  unfolding Inbound.on_frame
  keeps-on_frame frame =
      split (Bool-cases (Inbound.is_expected c.pending_response frame.header.service_type))
    where
      split :
          (b : (Inbound.is_expected c.pending_response frame.header.service_type ≡ true)
            ⊎ (Inbound.is_expected c.pending_response frame.header.service_type ≡ false))
          → IsValid (Inbound.on_frame frame c).client
      split (inl h) = rw h (record {
        in_fits = v.in_fits;
        out_fits = v.out_fits;
        ack_fits = v.ack_fits;
        awaits = refl;
      })
      split (inr h) = rw h (keeps-dispatch frame.body)

  pub keeps-on_invalid_seq_timeout : IsValid (Lost.on_invalid_seq_timeout c).client
  unfolding Lost.on_invalid_seq_timeout
  keeps-on_invalid_seq_timeout =
      keeps-on_tunnel_lost out_of_order (record c { invalid_seq_timer = false })
        (record {
          in_fits = v.in_fits;
          out_fits = v.out_fits;
          ack_fits = v.ack_fits;
          awaits = v.awaits;
        })
