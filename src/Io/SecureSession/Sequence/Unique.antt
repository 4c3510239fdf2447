-- ===== src/Io/SecureSession/Sequence/Unique.antt =====
-- The sequence numbers of a whole history.
use node_red_contrib_eelectr.Base.{
  ℕ, ◌==◌, not, arith, if_both, List, [], ◌∷◌, Bytes, Result, ok, err, Option, none, some,
}
use node_red_contrib_eelectr.Core.Bodies.SecureWrapper.{SecureWrapper}
use node_red_contrib_eelectr.Core.Bodies.SessionStatus as Status
use node_red_contrib_eelectr.Core.Bodies.SessionStatus.{SessionStatus, authentication_success}
use node_red_contrib_eelectr.Core.Frame.{
  KnxipBody, KnxipFrame, from_knx, secure_wrapper_body, session_response_body, session_status_body,
}
use node_red_contrib_eelectr.Secure.Crypto.{NodeCrypto}
use node_red_contrib_eelectr.Secure.Wrapper.{decrypt_secure_wrapper}
use node_red_contrib_eelectr.Io.Tunnel.{SocketAddress}
use node_red_contrib_eelectr.Io.SecureSession.{
  SecureSessionOptions, new_secure_session, Reason, doing, same, authenticating, closed,
  handshake_timeout, set_state, authentication_rejected, gateway_closed, emit_error,
}
use node_red_contrib_eelectr.Io.SecureSession.Opening.{
  open_session, on_handshake_timeout, on_authentication_result, on_plain_session_status,
}
use node_red_contrib_eelectr.Io.SecureSession.Inbound.{
  on_inner_frame, on_inner_error, on_inner_status, deliver_body, deliver, opened, open_with,
  on_secure_wrapper, dispatch, received_info, sealed_of,
}
use node_red_contrib_eelectr.Io.SecureSession.Closing.{
  close, close_sent, close_settled, on_inner_close,
}
use node_red_contrib_eelectr.Io.SecureSession.Events.{
  Event, on_event, run, opens, closes, close_is_sent, close_is_settled, inner_closes, times_out,
  keepalive_fires, sends, frame_arrives, inner_errs, send_fails,
}
use node_red_contrib_eelectr.Io.SecureSession.Sequence.{Advances, Ascends, sequences}
use node_red_contrib_eelectr.Io.SecureSession.Sequence.Steps.{
  Counts, ▷-Counts, set_state-Counts, fail_handshake-Counts, complete_handshake-Counts, send-Counts,
  close-Counts, on_keepalive-Counts, on_session_response-Counts,
}

open_session-Counts : Counts open_session
unfolding open_session set_state
open_session-Counts s = ground arith

on_handshake_timeout-Counts : Counts on_handshake_timeout
unfolding on_handshake_timeout
on_handshake_timeout-Counts s =
    if_both (Advances s.sequence_id) s.pending_handshake _ _
      (fail_handshake-Counts handshake_timeout s) (ground arith)

on_inner_error-Counts : (reason : Reason) → Counts (on_inner_error reason)
unfolding on_inner_error
on_inner_error-Counts reason s =
    if_both (Advances s.sequence_id) s.pending_handshake _ _ (fail_handshake-Counts reason s)
      (ground arith)

on_inner_close-Counts : Counts on_inner_close
unfolding on_inner_close set_state
on_inner_close-Counts s = ground arith

on_authentication_result-Counts : (status : ℕ) → Counts (on_authentication_result status)
unfolding on_authentication_result
on_authentication_result-Counts status s =
    if_both (Advances s.sequence_id) (status == authentication_success) _ _
      (complete_handshake-Counts s) (fail_handshake-Counts (authentication_rejected status) s)

on_plain_session_status-Counts : (body : SessionStatus) → Counts (on_plain_session_status body)
unfolding on_plain_session_status
on_plain_session_status-Counts body s =
    if_both (Advances s.sequence_id) (not (same s.state authenticating)) _ _ (ground arith)
      (on_authentication_result-Counts body.status s)

module _ (node : NodeCrypto) where
  on_inner_status-Counts : (code : ℕ) → Counts (on_inner_status node code)
  unfolding on_inner_status
  on_inner_status-Counts code s =
      if_both (Advances s.sequence_id) (same s.state authenticating) _ _
        (on_authentication_result-Counts code s)
        (if_both (Advances s.sequence_id) (code == Status.close) _ _
          (▷-Counts (doing (emit_error gateway_closed ∷ [])) (close node) (λ s. ground arith)
            (close-Counts node) s)
          (ground arith))

  deliver_body-Counts :
      (b : KnxipBody) (inner : KnxipFrame) (source : SocketAddress)
      → Counts (deliver_body node b inner source)
  unfolding deliver_body
  deliver_body-Counts (session_status_body b) inner source = on_inner_status-Counts b.status
  deliver_body-Counts _ inner source = λ s. ground arith

  deliver-Counts :
      (r : Result (KnxipFrame × ℕ)) (source : SocketAddress) → Counts (deliver node r source)
  unfolding deliver
  deliver-Counts (err e) source = λ s. ground arith
  deliver-Counts (ok (inner, n)) source = deliver_body-Counts inner.body inner source

  opened-Counts : (r : Result Bytes) (source : SocketAddress) → Counts (opened node r source)
  unfolding opened
  opened-Counts (err e) source = λ s. ground arith
  opened-Counts (ok plain) source = deliver-Counts (from_knx plain) source

  open_with-Counts :
      (k : Option Bytes) (body : SecureWrapper) (source : SocketAddress)
      → Counts (open_with node k body source)
  unfolding open_with
  open_with-Counts none body source = λ s. ground arith
  open_with-Counts (some key) body source = λ s.
      if_both (Advances s.sequence_id) (not (body.session_id == s.session_id)) _ _ (ground arith) (
        opened-Counts (decrypt_secure_wrapper node key (received_info body s) (sealed_of body))
          source s)

  dispatch-Counts :
      (b : KnxipBody) (frame : KnxipFrame) (source : SocketAddress)
      → Counts (dispatch node b frame source)
  unfolding dispatch on_secure_wrapper
  dispatch-Counts (session_response_body b) frame source = on_session_response-Counts node b
  dispatch-Counts (secure_wrapper_body b) frame source =
      λ s. open_with-Counts s.session_key b source s
  dispatch-Counts (session_status_body b) frame source = on_plain_session_status-Counts b
  dispatch-Counts _ frame source = λ s. ground arith

  on_event-Counts : (e : Event) → Counts (on_event node e)
  unfolding on_event on_inner_frame close_sent close_settled
  on_event-Counts opens = open_session-Counts
  on_event-Counts closes = close-Counts node
  on_event-Counts close_is_sent = λ s. ground arith
  on_event-Counts close_is_settled = set_state-Counts closed
  on_event-Counts inner_closes = on_inner_close-Counts
  on_event-Counts times_out = on_handshake_timeout-Counts
  on_event-Counts keepalive_fires = on_keepalive-Counts node
  on_event-Counts (sends frame) = send-Counts node frame
  on_event-Counts (frame_arrives frame source) = λ s. dispatch-Counts frame.body frame source s
  on_event-Counts (inner_errs reason) = on_inner_error-Counts reason
  on_event-Counts (send_fails reason) = fail_handshake-Counts reason

  run-Counts : (es : List Event) → Counts (run node es)
  unfolding run
  run-Counts [] = λ s. ground arith
  run-Counts (e ∷ es) = ▷-Counts (on_event node e) (run node es) (on_event-Counts e) (run-Counts es)

-- Whatever happens to a new session, in whatever order, no two of the wrappers that it sends bear the
-- same sequence number: the numbers grow from 0 on, stay below the counter, and fit 48 bits.
pub run-Ascends :
    (node : NodeCrypto) (private_key public_key : Bytes) (opts : SecureSessionOptions)
    (es : List Event)
    → Ascends 0
        (run node es (new_secure_session node private_key public_key opts)).session.sequence_id
        (sequences (run node es (new_secure_session node private_key public_key opts)).actions)
unfolding new_secure_session
run-Ascends node private_key public_key opts es =
    run-Counts node es (new_secure_session node private_key public_key opts)
