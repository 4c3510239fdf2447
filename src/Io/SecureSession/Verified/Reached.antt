-- ===== src/Io/SecureSession/Verified/Reached.antt =====
-- Whatever happens to a session, its key is safe.
use node_red_contrib_eelectr.Base.{
  ℕ, ◌==◌, not, ◌≡◌, refl, arith, if_both, if◌then◌else◌, Bool, true, false, Bool-cases, inl, inr,
  List, [], ◌∷◌, Bytes, Result, ok, err, Option, none, some,
}
use node_red_contrib_eelectr.Core.Bodies.SecureWrapper.{SecureWrapper}
use node_red_contrib_eelectr.Core.Bodies.SessionStatus as Status
use node_red_contrib_eelectr.Core.Bodies.SessionStatus.{SessionStatus, authentication_success}
use node_red_contrib_eelectr.Core.Frame.{
  KnxipBody, KnxipFrame, from_knx, secure_wrapper_body, session_response_body, session_status_body,
}
use node_red_contrib_eelectr.Secure.Crypto.{NodeCrypto}
use node_red_contrib_eelectr.Secure.Wrapper.{decrypt_secure_wrapper}
use node_red_contrib_eelectr.Io.Tunnel.{SocketAddress}
use node_red_contrib_eelectr.Io.SecureSession.{
  SecureSession, SecureSessionOptions, new_secure_session, Outcome, Reason, same, authenticating,
  closed, handshake_timeout, authentication_rejected,
}
use node_red_contrib_eelectr.Io.SecureSession.Opening.{
  on_handshake_timeout, on_authentication_result, on_plain_session_status,
}
use node_red_contrib_eelectr.Io.SecureSession.Inbound.{
  on_inner_frame, on_inner_error, on_inner_status, deliver_body, deliver, opened, open_with,
  on_secure_wrapper, dispatch, received_info, sealed_of,
}
use node_red_contrib_eelectr.Io.SecureSession.Closing.{close_sent, close_settled, on_inner_close}
use node_red_contrib_eelectr.Io.SecureSession.Events.{
  Event, on_event, run, opens, closes, close_is_sent, close_is_settled, inner_closes, times_out,
  keepalive_fires, sends, frame_arrives, inner_errs, send_fails,
}
use node_red_contrib_eelectr.Io.SecureSession.Verified.{IsSafe}
use node_red_contrib_eelectr.Io.SecureSession.Verified.Steps.{
  Keeps, IsSafe-kept, ending-Keeps, fail_handshake-IsSafe, complete_handshake-IsSafe,
  open_session-Keeps, send-Keeps, close-Keeps, on_keepalive-Keeps, on_session_response-Keeps,
}

module _ (node : NodeCrypto) where
  if-IsSafe :
      (b : Bool) (x y : Outcome)
      → IsSafe node x.session
      → IsSafe node y.session
      → IsSafe node (if b then x else y).session
  if-IsSafe b x y = if_both (λ (o : Outcome). IsSafe node o.session) b x y

  on_handshake_timeout-Keeps : Keeps node on_handshake_timeout
  unfolding on_handshake_timeout
  on_handshake_timeout-Keeps s v =
      if-IsSafe s.pending_handshake _ _ (fail_handshake-IsSafe node handshake_timeout s v.verified)
        v

  on_inner_error-Keeps : (reason : Reason) → Keeps node (on_inner_error reason)
  unfolding on_inner_error
  on_inner_error-Keeps reason s v =
      if-IsSafe s.pending_handshake _ _ (fail_handshake-IsSafe node reason s v.verified) v

  on_inner_close-Keeps : Keeps node on_inner_close
  unfolding on_inner_close
  on_inner_close-Keeps s v =
      ending-Keeps node closed (λ k. refl) (record s { keepalive_timer = false })
        (IsSafe-kept node s (record s { keepalive_timer = false }) v (ground arith) v.consistently)

  -- A result counts while the session authenticates only.
  on_authentication_result-IsSafe :
      (status : ℕ) (s : SecureSession)
      → IsSafe node s
      → same s.state authenticating ≡ true
      → IsSafe node (on_authentication_result status s).session
  unfolding on_authentication_result
  on_authentication_result-IsSafe status s v a =
      if-IsSafe (status == authentication_success) _ _ (complete_handshake-IsSafe node s v a)
        (fail_handshake-IsSafe node (authentication_rejected status) s v.verified)

  on_plain_session_status-Keeps : (body : SessionStatus) → Keeps node (on_plain_session_status body)
  unfolding on_plain_session_status
  on_plain_session_status-Keeps body s v = elim (Bool-cases (same s.state authenticating)) [
    | inl a ↦ rw a (on_authentication_result-IsSafe body.status s v a)
    | inr a ↦ rw a v
  ]

  on_inner_status-Keeps : (code : ℕ) → Keeps node (on_inner_status node code)
  unfolding on_inner_status
  on_inner_status-Keeps code s v = elim (Bool-cases (same s.state authenticating)) [
    | inl a ↦ rw a (on_authentication_result-IsSafe code s v a)
    | inr a ↦ rw a (if-IsSafe (code == Status.close) _ _ (close-Keeps node s v) v)
  ]

  deliver_body-Keeps :
      (b : KnxipBody) (inner : KnxipFrame) (source : SocketAddress)
      → Keeps node (deliver_body node b inner source)
  unfolding deliver_body
  deliver_body-Keeps (session_status_body b) inner source s v = on_inner_status-Keeps b.status s v
  deliver_body-Keeps _ inner source s v = v

  deliver-Keeps :
      (r : Result (KnxipFrame × ℕ)) (source : SocketAddress) → Keeps node (deliver node r source)
  unfolding deliver
  deliver-Keeps (err e) source s v = v
  deliver-Keeps (ok (inner, n)) source s v = deliver_body-Keeps inner.body inner source s v

  opened-Keeps : (r : Result Bytes) (source : SocketAddress) → Keeps node (opened node r source)
  unfolding opened
  opened-Keeps (err e) source s v = v
  opened-Keeps (ok plain) source s v = deliver-Keeps (from_knx plain) source s v

  open_with-Keeps :
      (k : Option Bytes) (body : SecureWrapper) (source : SocketAddress)
      → Keeps node (open_with node k body source)
  unfolding open_with
  open_with-Keeps none body source s v = v
  open_with-Keeps (some key) body source s v =
      if-IsSafe (not (body.session_id == s.session_id)) _ _ v (
        opened-Keeps (decrypt_secure_wrapper node key (received_info body s) (sealed_of body))
          source s v)

  dispatch-Keeps :
      (b : KnxipBody) (frame : KnxipFrame) (source : SocketAddress)
      → Keeps node (dispatch node b frame source)
  unfolding dispatch on_secure_wrapper
  dispatch-Keeps (session_response_body b) frame source s v = on_session_response-Keeps node b s v
  dispatch-Keeps (secure_wrapper_body b) frame source s v =
      open_with-Keeps s.session_key b source s v
  dispatch-Keeps (session_status_body b) frame source s v = on_plain_session_status-Keeps b s v
  dispatch-Keeps _ frame source s v = v

  on_event-Keeps : (e : Event) → Keeps node (on_event node e)
  unfolding on_event on_inner_frame close_sent close_settled
  on_event-Keeps opens s v = open_session-Keeps node s v
  on_event-Keeps closes s v = close-Keeps node s v
  on_event-Keeps close_is_sent s v = v
  on_event-Keeps close_is_settled s v = ending-Keeps node closed (λ k. refl) s v
  on_event-Keeps inner_closes s v = on_inner_close-Keeps s v
  on_event-Keeps times_out s v = on_handshake_timeout-Keeps s v
  on_event-Keeps keepalive_fires s v = on_keepalive-Keeps node s v
  on_event-Keeps (sends frame) s v = send-Keeps node frame s v
  on_event-Keeps (frame_arrives frame source) s v = dispatch-Keeps frame.body frame source s v
  on_event-Keeps (inner_errs reason) s v = on_inner_error-Keeps reason s v
  on_event-Keeps (send_fails reason) s v = fail_handshake-IsSafe node reason s v.verified

  run-Keeps : (es : List Event) → Keeps node (run node es)
  unfolding run
  run-Keeps [] s v = v
  run-Keeps (e ∷ es) s v = run-Keeps es (on_event node e s).session (on_event-Keeps e s v)

-- Whatever happens to a new session, in whatever order: it has a key exactly in the states behind the
-- server's response, and a key is the one agreed with the public key of a response whose MAC
-- verified, where a device password is set, and whose identifier the session uses.
pub run-IsSafe :
    (node : NodeCrypto) (private_key public_key : Bytes) (opts : SecureSessionOptions)
    (es : List Event)
    → IsSafe node (run node es (new_secure_session node private_key public_key opts)).session
unfolding new_secure_session
run-IsSafe node private_key public_key opts es =
    run-Keeps node es (new_secure_session node private_key public_key opts)
      (record { consistently = refl; verified = λ key h. cc })
