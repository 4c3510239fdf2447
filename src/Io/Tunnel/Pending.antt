-- ===== src/Io/Tunnel/Pending.antt =====
-- The correlation of responses and acknowledgements with the calls that wait for them.
use node_red_contrib_eelectr.Base.{ℕ, Option, none, some, [], ◌∷◌}
use node_red_contrib_eelectr.Io.Tunnel.{
  Reason, already_pending, response_timeout, ack_timeout, TunnelClient, reject_ack, reject_response,
  Outcome, done, doing,
}

await_response_unless : Option ℕ → ℕ → TunnelClient → Outcome
await_response_unless (some expected) service_type c =
    doing (reject_response already_pending ∷ []) c
await_response_unless none service_type c = done (record c { pending_response = some service_type })

unfoldable pub await_response : ℕ → TunnelClient → Outcome
unfolding await_response_unless
await_response service_type c = await_response_unless c.pending_response service_type c

await_ack_unless : Option ℕ → ℕ → TunnelClient → Outcome
await_ack_unless (some sequence) seq c = doing (reject_ack already_pending ∷ []) c
await_ack_unless none seq c = done (record c { pending_ack = some seq })

unfoldable pub await_ack : ℕ → TunnelClient → Outcome
unfolding await_ack_unless
await_ack seq c = await_ack_unless c.pending_ack seq c

reject_ack_of : Option ℕ → Reason → TunnelClient → Outcome
reject_ack_of none reason c = done c
reject_ack_of (some seq) reason c = doing (reject_ack reason ∷ []) (record c { pending_ack = none })

unfoldable pub reject_pending_ack : Reason → TunnelClient → Outcome
unfolding reject_ack_of
reject_pending_ack reason c = reject_ack_of c.pending_ack reason c

reject_response_of : Option ℕ → Reason → TunnelClient → Outcome
reject_response_of none reason c = done c
reject_response_of (some ty) reason c =
    doing (reject_response reason ∷ []) (record c { pending_response = none })

unfoldable pub reject_pending_response : Reason → TunnelClient → Outcome
unfolding reject_response_of
reject_pending_response reason c = reject_response_of c.pending_response reason c

-- The timers of the two. A timer is cleared with the entry that it belongs to.
unfoldable pub on_ack_timeout : TunnelClient → Outcome
unfolding reject_ack_of
on_ack_timeout c = reject_ack_of c.pending_ack ack_timeout c

unfoldable pub on_response_timeout : TunnelClient → Outcome
unfolding reject_response_of
on_response_timeout c = reject_response_of c.pending_response response_timeout c
