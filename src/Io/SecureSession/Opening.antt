-- ===== src/Io/SecureSession/Opening.antt =====
-- The handshake: open(), its end, and the SESSION_RESPONSE in its middle.
use node_red_contrib_eelectr.Base.{
  ℕ, Bool, true, false, not, ◌==◌, list_eq, if◌then◌else◌, Option, none, some, [], ◌∷◌, Bytes,
  Result, ok, err, ◌>>=◌,
}
use node_red_contrib_eelectr.Core.Bodies.SessionRequest.{SessionRequest, new_session_request}
use node_red_contrib_eelectr.Core.Bodies.SessionResponse.{SessionResponse}
use node_red_contrib_eelectr.Core.Bodies.SessionAuthenticate.{
  SessionAuthenticate, new_session_authenticate,
}
use node_red_contrib_eelectr.Core.Bodies.SessionStatus.{SessionStatus, authentication_success}
use node_red_contrib_eelectr.Core.Frame.{
  KnxipBody, session_request_body, session_authenticate_body, from_body, to_knx,
}
use node_red_contrib_eelectr.Secure.Crypto.{NodeCrypto}
use node_red_contrib_eelectr.Secure.Keys.{derive_session_key}
use node_red_contrib_eelectr.Secure.Handshake.{
  compute_session_response_mac, compute_authenticate_mac,
}
use node_red_contrib_eelectr.Io.SecureSession.{
  SecureSession, idle, requesting, authenticating, authenticated, closed, same, Outcome, done,
  doing, ◌▷◌, set_state, send_inner, resolve_open, reject_open, emit_error, Reason, wrong_state,
  handshake_timeout, mac_mismatch, authentication_rejected, thrown,
}
use node_red_contrib_eelectr.Io.SecureSession.Sending.{wrap, bump}

unfoldable pub fail_handshake : Reason → SecureSession → Outcome
fail_handshake reason s =
    (if s.pending_handshake
      then doing (reject_open reason ∷ []) (record s { pending_handshake = false })
      else done s)
    ▷ set_state closed
    ▷ doing (emit_error reason ∷ [])

unfoldable pub complete_handshake : SecureSession → Outcome
complete_handshake s =
    (if s.pending_handshake
      then doing (resolve_open ∷ []) (record s { pending_handshake = false })
      else done s)
    ▷ set_state authenticated
    ▷ (λ s. done (if s.keepalives then record s { keepalive_timer = true } else s))

unfoldable pub requested : Result SessionRequest → SecureSession → Outcome
requested (err e) s = doing (reject_open (thrown e) ∷ []) s
requested (ok body) s = doing (send_inner (session_request_body body) ∷ []) s

unfoldable pub open_session : SecureSession → Outcome
unfolding requested
open_session s =
    if not (same s.state idle)
    then doing (reject_open (wrong_state s.state) ∷ []) s
    else set_state requesting (record s { pending_handshake = true })
      ▷ (λ s. requested (new_session_request none s.client_pub) s)

-- The timer is cleared with the promise that it belongs to.
unfoldable pub on_handshake_timeout : SecureSession → Outcome
on_handshake_timeout s = if s.pending_handshake then fail_handshake handshake_timeout s else done s

module _ (node : NodeCrypto) where
  -- Whether the MAC of the response is the expected one. With no device code there is no check.
  unfoldable pub verify_response : Option Bytes → SessionResponse → SecureSession → Result Bool
  verify_response none body s = ok true
  verify_response (some code) body s = do
    expected_mac ←
        compute_session_response_mac node code body.session_id s.client_pub body.public_key
    ok (list_eq expected_mac body.mac)

  unfoldable pub session_key_of : Bytes → SecureSession → Result Bytes
  session_key_of server_pub s = do
    shared ← node.x25519 s.client_priv server_pub
    ok (derive_session_key node shared)

  unfoldable pub authenticate_body : Bytes → SecureSession → Result SessionAuthenticate
  authenticate_body server_pub s = do
    auth_mac ← compute_authenticate_mac node s.user_password_key s.user_id s.client_pub server_pub
    new_session_authenticate s.user_id auth_mac

  -- An error that the handler throws fails the handshake.
  unfoldable pub wrapped : Result KnxipBody → SecureSession → Outcome
  wrapped (err e) s = fail_handshake (thrown e) s
  wrapped (ok wrapper) s = doing (send_inner wrapper ∷ []) s

  unfoldable pub framed : Result Bytes → Bytes → SecureSession → Outcome
  unfolding wrapped
  framed (err e) key s = fail_handshake (thrown e) s
  framed (ok inner_frame) key s = wrapped (wrap node key s.sequence_id inner_frame s) (bump s)

  unfoldable pub authenticate : Result SessionAuthenticate → Bytes → SecureSession → Outcome
  unfolding framed
  authenticate (err e) key s = fail_handshake (thrown e) s
  authenticate (ok body) key s =
      set_state authenticating s
      ▷ (λ s. framed (to_knx (from_body (session_authenticate_body body))) key s)

  unfoldable pub keyed : Result Bytes → Bytes → SecureSession → Outcome
  unfolding authenticate
  keyed (err e) server_pub s = fail_handshake (thrown e) s
  keyed (ok key) server_pub s =
      authenticate (authenticate_body server_pub s) key (record s { session_key = some key })

  unfoldable pub verified : Result Bool → Bytes → SecureSession → Outcome
  unfolding keyed
  verified (err e) server_pub s = fail_handshake (thrown e) s
  verified (ok false) server_pub s = fail_handshake mac_mismatch s
  verified (ok true) server_pub s = keyed (session_key_of server_pub s) server_pub s

  unfoldable pub on_session_response : SessionResponse → SecureSession → Outcome
  unfolding verified
  on_session_response body s =
      if not (same s.state requesting)
      then done s
      else verified (verify_response s.device_auth_code body s) body.public_key
          (record s { session_id = body.session_id; server_pub = some body.public_key })

-- A SESSION_STATUS that ends the handshake.
unfoldable pub on_authentication_result : ℕ → SecureSession → Outcome
on_authentication_result status s =
    if status == authentication_success
    then complete_handshake s
    else fail_handshake (authentication_rejected status) s

unfoldable pub on_plain_session_status : SessionStatus → SecureSession → Outcome
on_plain_session_status body s =
    if not (same s.state authenticating) then done s else on_authentication_result body.status s
