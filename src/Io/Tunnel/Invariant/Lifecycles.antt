-- ===== src/Io/Tunnel/Invariant/Lifecycles.antt =====
-- connect() and disconnect() keep the invariant.
use node_red_contrib_eelectr.Base.{
  ℕ, ◌≡◌, refl, arith, Bool, true, false, Option, none, some, Result, ok, err, Bool-cases, ◌⊎◌, inl,
  inr,
}
use node_red_contrib_eelectr.Core.Hpai.{Hpai}
use node_red_contrib_eelectr.Core.Bodies.ConnectResponse.{ConnectResponse}
use node_red_contrib_eelectr.Core.Frame.{connect_response, disconnect_response}
use node_red_contrib_eelectr.Io.Tunnel.{
  TunnelClient, disconnected, disconnecting, SocketAddress, Reason, tunnel_disconnecting, thrown,
  connect_refused, ◌▷◌,
}
use node_red_contrib_eelectr.Io.Tunnel.Pending
use node_red_contrib_eelectr.Io.Tunnel.Lost
use node_red_contrib_eelectr.Io.Tunnel.Lifecycle
use node_red_contrib_eelectr.Io.Tunnel.Invariant.{
  IsValid, keeps-await_response, keeps-reject_pending_ack, keeps-reject_pending_response,
  keeps-drop_transport, keeps-set_state, keeps-cancel_invalid_seq_timer, keeps-stop_heartbeat,
}

-- Only the four fields matter.
pub same-IsValid :
    (c d : TunnelClient)
    → IsValid c
    → d.seq_in ≡ c.seq_in
    → d.seq_out ≡ c.seq_out
    → d.pending_ack ≡ c.pending_ack
    → d.pending_response ≡ c.pending_response
    → IsValid d
same-IsValid c d v hi ho ha hr = record {
  in_fits = ground (arith, v.in_fits, hi);
  out_fits = ground (arith, v.out_fits, ho);
  ack_fits = ground (arith, v.ack_fits, ha);
  awaits = ground (arith, v.awaits, hr);
}

pub keeps-connect_failed :
    (reason : Reason) (c : TunnelClient)
    → IsValid c
    → IsValid (Lifecycle.connect_failed reason c).client
unfolding Lifecycle.connect_failed
keeps-connect_failed reason c v = keeps-set_state _ (keeps-drop_transport c v) disconnected

keeps-with_hpai :
    (r : Result Hpai) (c : TunnelClient) → IsValid c → IsValid (Lifecycle.with_hpai r c).client
unfolding Lifecycle.with_hpai Lifecycle.send_connect_request
keeps-with_hpai (ok hpai) c v =
    keeps-await_response (record c { local_hpai = hpai })
      (same-IsValid c (record c { local_hpai = hpai }) v refl refl refl refl) connect_response refl
keeps-with_hpai (err e) c v = keeps-connect_failed (thrown e) c v

pub keeps-on_bound :
    (bound : SocketAddress) (c : TunnelClient)
    → IsValid c
    → IsValid (Lifecycle.on_bound bound c).client
unfolding Lifecycle.on_bound
keeps-on_bound bound c v =
    keeps-with_hpai (Lifecycle.local_hpai_of bound c) (record c { transport = true })
      (same-IsValid c (record c { transport = true }) v refl refl refl refl)

keeps-established :
    (response : ConnectResponse) (c : TunnelClient)
    → IsValid c
    → IsValid (Lifecycle.established response c).client
unfolding Lifecycle.established Lost.start_heartbeat Lost.set_state
keeps-established response c v = record {
  in_fits = ground arith;
  out_fits = ground arith;
  ack_fits = ground (arith, v.ack_fits);
  awaits = ground (arith, v.awaits);
}

pub keeps-on_connect_response :
    (response : ConnectResponse) (c : TunnelClient)
    → IsValid c
    → IsValid (Lifecycle.on_connect_response response c).client
unfolding Lifecycle.on_connect_response
keeps-on_connect_response response c v = record {
  in_fits = ground (arith, refused.in_fits, accepted.in_fits);
  out_fits = ground (arith, refused.out_fits, accepted.out_fits);
  ack_fits = ground (arith, refused.ack_fits, accepted.ack_fits);
  awaits = ground (arith, refused.awaits, accepted.awaits);
}
  where
    refused : IsValid (Lifecycle.connect_failed (connect_refused response.status_code) c).client
    refused = keeps-connect_failed (connect_refused response.status_code) c v

    accepted : IsValid (Lifecycle.established response c).client
    accepted = keeps-established response c v

pub keeps-finish_disconnect :
    (c : TunnelClient) → IsValid c → IsValid (Lifecycle.finish_disconnect c).client
unfolding Lifecycle.finish_disconnect Lost.drop_transport Lost.set_state
keeps-finish_disconnect c v = record {
  in_fits = ground (arith, v.in_fits);
  out_fits = ground (arith, v.out_fits);
  ack_fits = ground (arith, v.ack_fits);
  awaits = ground (arith, v.awaits);
}

keeps-close_channel :
    (is_open : Bool) (channel : Option ℕ) (c : TunnelClient)
    → IsValid c
    → IsValid (Lifecycle.close_channel is_open channel c).client
unfolding Lifecycle.close_channel Lifecycle.request_disconnect
keeps-close_channel true (some channel) c v = keeps-await_response c v disconnect_response refl
keeps-close_channel true none c v = keeps-finish_disconnect c v
keeps-close_channel false channel c v = keeps-finish_disconnect c v

pub keeps-disconnect_now :
    (c : TunnelClient) → IsValid c → IsValid (Lifecycle.disconnect_now c).client
unfolding Lifecycle.disconnect_now
keeps-disconnect_now c v = split (Bool-cases (Lost.same_state c.state disconnected))
  where
    closing :
        IsValid
          (Lost.set_state disconnecting c
            ▷ Lost.stop_heartbeat
            ▷ Lost.cancel_invalid_seq_timer
            ▷ Pending.reject_pending_ack tunnel_disconnecting
            ▷ Pending.reject_pending_response tunnel_disconnecting
            ▷ (λ d. Lifecycle.close_channel d.transport d.channel_id d)).client
    closing = keeps-close_channel _ _ _ (
        keeps-reject_pending_response _
          (keeps-reject_pending_ack _
            (keeps-cancel_invalid_seq_timer _
              (keeps-stop_heartbeat _ (keeps-set_state c v disconnecting)))
            tunnel_disconnecting)
          tunnel_disconnecting)

    split :
        (b : (Lost.same_state c.state disconnected ≡ true)
          ⊎ (Lost.same_state c.state disconnected ≡ false))
        → IsValid (Lifecycle.disconnect_now c).client
    split (inl h) = rw h v
    split (inr h) = rw h closing
