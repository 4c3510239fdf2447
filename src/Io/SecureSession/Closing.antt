-- ===== src/Io/SecureSession/Closing.antt =====
-- The end of a session: close(), the close of the inner transport, and the keepalive timer.
use node_red_contrib_eelectr.Base.{false, ◌||◌, if◌then◌else◌, Option, none, some, [], ◌∷◌, Bytes}
use node_red_contrib_eelectr.Core.Bodies.SessionStatus as Status
use node_red_contrib_eelectr.Secure.Crypto.{NodeCrypto}
use node_red_contrib_eelectr.Io.SecureSession.{
  SecureSession, closing, closed, same, Outcome, done, doing, ◌▷◌, set_state, close_inner,
  emit_close,
}
use node_red_contrib_eelectr.Io.SecureSession.Sending.{send_status}

module _ (node : NodeCrypto) where
  unfoldable pub say_close : Option Bytes → SecureSession → Outcome
  say_close none s = doing (close_inner ∷ []) s
  say_close (some key) s = send_status node Status.close s

  -- The part of close() up to its first `await`.
  unfoldable pub close : SecureSession → Outcome
  unfolding say_close
  close s =
      if same s.state closed || same s.state closing
      then doing (close_inner ∷ []) s
      else set_state closing s
        ▷ (λ s. done (record s { keepalive_timer = false }))
        ▷ (λ s. say_close s.session_key s)

  unfoldable pub on_keepalive : SecureSession → Outcome
  on_keepalive s = if s.keepalive_timer then send_status node Status.keepalive s else done s

-- close() behind its awaits: the status is sent or has failed, and the inner transport has closed.
unfoldable pub close_sent : SecureSession → Outcome
close_sent s = doing (close_inner ∷ []) s

unfoldable pub close_settled : SecureSession → Outcome
close_settled s = set_state closed s

unfoldable pub on_inner_close : SecureSession → Outcome
on_inner_close s = set_state closed (record s { keepalive_timer = false }) ▷ doing (emit_close ∷ [])
