-- ===== src/Io/SecureSession/Abandoned.antt =====
-- An inner transport that closes during the handshake.
use node_red_contrib_eelectr.Base.{◌≡◌, arith, true, false, [], ◌∷◌}
use node_red_contrib_eelectr.Secure.Crypto.{NodeCrypto}
use node_red_contrib_eelectr.Io.SecureSession.{
  SecureSession, closed, same, doing, set_state, emit_state, emit_close, reject_open, emit_error,
  handshake_timeout,
}
use node_red_contrib_eelectr.Io.SecureSession.Opening.{on_handshake_timeout, fail_handshake}
use node_red_contrib_eelectr.Io.SecureSession.Closing.{on_inner_close}
use node_red_contrib_eelectr.Io.SecureSession.Events.{inner_closes, times_out, on_event, run}

-- When the inner transport closes while open() waits, open() is not settled: the session is closed and
-- says so, and only the timer of the handshake rejects open() with a timeout, and emits an error on
-- the closed session.
pub inner_close-pending :
    (node : NodeCrypto) (s : SecureSession)
    → s.pending_handshake ≡ true
    → same closed s.state ≡ false
    → run node (inner_closes ∷ times_out ∷ []) s
      ≡ doing
          (emit_state closed s.state
            ∷ emit_close
            ∷ reject_open handshake_timeout
            ∷ emit_error handshake_timeout
            ∷ [])
          (record s { state = closed; pending_handshake = false; keepalive_timer = false })
unfolding run on_event on_inner_close on_handshake_timeout fail_handshake set_state same
inner_close-pending node s p c = ground (arith, p, c)
