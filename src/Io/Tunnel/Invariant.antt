-- ===== src/Io/Tunnel/Invariant.antt =====
-- What holds of a client whatever happens to it.
pub mod Handlers
pub mod Reached
pub mod Lifecycles
use node_red_contrib_eelectr.Base.{
  ℕ, zero, suc, ◌+◌, ◌%◌, ◌<◌, ◌≡◌, refl, arith, Bool, true, false, ◌&&◌, ◌||◌, ◌==◌, ltb, Option,
  none, some, Bytes, Result, ok, err, Error, Bool-cases, ◌⊎◌, inl, inr,
}
use node_red_contrib_eelectr.Base.Bits.{bit_and-mask}
use node_red_contrib_eelectr.Core.Hpai.{Hpai}
use node_red_contrib_eelectr.Core.Cemi.{CemiFrame, frame_to_knx}
use node_red_contrib_eelectr.Core.Bodies.ConnectResponse.{ConnectResponse}
use node_red_contrib_eelectr.Core.Bodies.ConnectionStateResponse.{ConnectionStateResponse}
use node_red_contrib_eelectr.Core.Frame.{
  KnxipFrame, connect_response, connectionstate_response, disconnect_response,
}
use node_red_contrib_eelectr.Io.Tunnel.{
  TunnelClient, TunnelClientOptions, TunnelState, SocketAddress, disconnected, disconnecting,
  Reason, Outcome, new_tunnel_client, next_seq, ◌▷◌,
}
use node_red_contrib_eelectr.Io.Tunnel.Pending
use node_red_contrib_eelectr.Io.Tunnel.Lost
use node_red_contrib_eelectr.Io.Tunnel.Inbound
use node_red_contrib_eelectr.Io.Tunnel.Lifecycle
use node_red_contrib_eelectr.Io.Tunnel.Sending
use node_red_contrib_eelectr.Io.Tunnel.Heartbeat

abbrev pub fits_byte : Option ℕ → Bool
fits_byte none = true
fits_byte (some n) = ltb n 256

-- The services whose responses a call may wait for.
abbrev pub is_response : Option ℕ → Bool
is_response none = true
is_response (some ty) =
    ty == connect_response || ty == connectionstate_response || ty == disconnect_response

-- The sequence counters, and the one that an acknowledgement is awaited for, fit a byte; a pending
-- response is a response.
pub record IsValid (c : TunnelClient) : Type 0 where
  pub in_fits : c.seq_in < 256
  pub out_fits : c.seq_out < 256
  pub ack_fits : fits_byte c.pending_ack ≡ true
  pub awaits : is_response c.pending_response ≡ true

-- A method that keeps the invariant.
pub Keeps : (TunnelClient → Outcome) → Type 0
Keeps f = (c : TunnelClient) → IsValid c → IsValid (f c).client

pub next_seq_fits : (n : ℕ) → next_seq n < 256
next_seq_fits n = ground (arith, bit_and-mask 8 (n + 1))

module _ (c : TunnelClient) (v : IsValid c) where
  pub keeps-await_response :
      (ty : ℕ) → is_response (some ty) ≡ true → IsValid (Pending.await_response ty c).client
  unfolding Pending.await_response
  keeps-await_response ty h = record {
    in_fits = ground (arith, v.in_fits);
    out_fits = ground (arith, v.out_fits);
    ack_fits = ground (arith, v.ack_fits);
    awaits = ground (arith, v.awaits);
  }

  pub keeps-await_ack : (seq : ℕ) → seq < 256 → IsValid (Pending.await_ack seq c).client
  unfolding Pending.await_ack
  keeps-await_ack seq h = record {
    in_fits = ground (arith, v.in_fits);
    out_fits = ground (arith, v.out_fits);
    ack_fits = ground (arith, v.ack_fits);
    awaits = ground (arith, v.awaits);
  }

  pub keeps-on_ack_timeout : IsValid (Pending.on_ack_timeout c).client
  unfolding Pending.on_ack_timeout
  keeps-on_ack_timeout = record {
    in_fits = ground (arith, v.in_fits);
    out_fits = ground (arith, v.out_fits);
    ack_fits = ground (arith, v.ack_fits);
    awaits = ground (arith, v.awaits);
  }

  pub keeps-on_response_timeout : IsValid (Pending.on_response_timeout c).client
  unfolding Pending.on_response_timeout
  keeps-on_response_timeout = record {
    in_fits = ground (arith, v.in_fits);
    out_fits = ground (arith, v.out_fits);
    ack_fits = ground (arith, v.ack_fits);
    awaits = ground (arith, v.awaits);
  }

  pub keeps-connect : IsValid (Lost.connect c).client
  unfolding Lost.connect Lost.set_state
  keeps-connect = record {
    in_fits = ground (arith, v.in_fits);
    out_fits = ground (arith, v.out_fits);
    ack_fits = ground (arith, v.ack_fits);
    awaits = ground (arith, v.awaits);
  }

  pub keeps-reconnect_attempt : IsValid (Lost.reconnect_attempt c).client
  unfolding Lost.reconnect_attempt Lost.connect Lost.set_state
  keeps-reconnect_attempt = record {
    in_fits = ground (arith, v.in_fits);
    out_fits = ground (arith, v.out_fits);
    ack_fits = ground (arith, v.ack_fits);
    awaits = ground (arith, v.awaits);
  }

  pub keeps-reject_pending_ack :
      (reason : Reason) → IsValid (Pending.reject_pending_ack reason c).client
  unfolding Pending.reject_pending_ack
  keeps-reject_pending_ack reason = record {
    in_fits = ground (arith, v.in_fits);
    out_fits = ground (arith, v.out_fits);
    ack_fits = ground (arith, v.ack_fits);
    awaits = ground (arith, v.awaits);
  }

  pub keeps-reject_pending_response :
      (reason : Reason) → IsValid (Pending.reject_pending_response reason c).client
  unfolding Pending.reject_pending_response
  keeps-reject_pending_response reason = record {
    in_fits = ground (arith, v.in_fits);
    out_fits = ground (arith, v.out_fits);
    ack_fits = ground (arith, v.ack_fits);
    awaits = ground (arith, v.awaits);
  }

  pub keeps-drop_transport : IsValid (Lost.drop_transport c).client
  unfolding Lost.drop_transport
  keeps-drop_transport = record {
    in_fits = ground (arith, v.in_fits);
    out_fits = ground (arith, v.out_fits);
    ack_fits = ground (arith, v.ack_fits);
    awaits = ground (arith, v.awaits);
  }

  pub keeps-set_state : (next : TunnelState) → IsValid (Lost.set_state next c).client
  unfolding Lost.set_state
  keeps-set_state next = record {
    in_fits = ground (arith, v.in_fits);
    out_fits = ground (arith, v.out_fits);
    ack_fits = ground (arith, v.ack_fits);
    awaits = ground (arith, v.awaits);
  }

  keeps-count_loss : (reason : Reason) → IsValid (Lost.count_loss reason c).client
  unfolding Lost.count_loss
  keeps-count_loss reason = record {
    in_fits = ground (arith, v.in_fits);
    out_fits = ground (arith, v.out_fits);
    ack_fits = ground (arith, v.ack_fits);
    awaits = ground (arith, v.awaits);
  }

  pub keeps-cancel_invalid_seq_timer : IsValid (Lost.cancel_invalid_seq_timer c).client
  unfolding Lost.cancel_invalid_seq_timer
  keeps-cancel_invalid_seq_timer = record {
    in_fits = ground (arith, v.in_fits);
    out_fits = ground (arith, v.out_fits);
    ack_fits = ground (arith, v.ack_fits);
    awaits = ground (arith, v.awaits);
  }

  pub keeps-stop_heartbeat : IsValid (Lost.stop_heartbeat c).client
  unfolding Lost.stop_heartbeat
  keeps-stop_heartbeat = record {
    in_fits = ground (arith, v.in_fits);
    out_fits = ground (arith, v.out_fits);
    ack_fits = ground (arith, v.ack_fits);
    awaits = ground (arith, v.awaits);
  }

  keeps-forget_channel : IsValid (Lost.forget_channel c).client
  unfolding Lost.forget_channel
  keeps-forget_channel = record {
    in_fits = ground (arith, v.in_fits);
    out_fits = ground (arith, v.out_fits);
    ack_fits = ground (arith, v.ack_fits);
    awaits = ground (arith, v.awaits);
  }

  keeps-reconnect_or_fail : (reason : Reason) → IsValid (Lost.reconnect_or_fail reason c).client
  unfolding Lost.reconnect_or_fail Lost.begin_reconnecting Lost.reconnect_attempt Lost.connect
      Lost.set_state
  keeps-reconnect_or_fail reason = record {
    in_fits = ground (arith, v.in_fits);
    out_fits = ground (arith, v.out_fits);
    ack_fits = ground (arith, v.ack_fits);
    awaits = ground (arith, v.awaits);
  }

pub keeps-on_tunnel_lost :
    (reason : Reason) (c : TunnelClient) → IsValid c → IsValid (Lost.on_tunnel_lost reason c).client
unfolding Lost.on_tunnel_lost Lost.lose
keeps-on_tunnel_lost reason c v =
    ignored
      (Bool-cases (Lost.same_state c.state disconnected || Lost.same_state c.state disconnecting))
  where
    lost : IsValid (Lost.lose reason c).client
    lost =
        keeps-reconnect_or_fail _
          (keeps-set_state _
            (keeps-forget_channel _ (
              keeps-drop_transport _ (
                keeps-reject_pending_response _
                  (keeps-reject_pending_ack _
                    (keeps-cancel_invalid_seq_timer _
                      (keeps-stop_heartbeat _ (keeps-count_loss c v reason)))
                    reason)
                  reason)))
            disconnected)
          reason

    ignored :
        (b : ((Lost.same_state c.state disconnected || Lost.same_state c.state disconnecting)
            ≡ true)
          ⊎ ((Lost.same_state c.state disconnected || Lost.same_state c.state disconnecting)
              ≡ false))
        → IsValid (Lost.on_tunnel_lost reason c).client
    ignored (inl h) = rw h v
    ignored (inr h) = rw h lost
