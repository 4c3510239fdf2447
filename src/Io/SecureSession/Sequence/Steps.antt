-- ===== src/Io/SecureSession/Sequence/Steps.antt =====
-- Every method of the session takes its sequence numbers from the counter.
use node_red_contrib_eelectr.Base.{
  ℕ, arith, not, if_both, Bool, true, false, Bytes, Result, ok, err, ◌>>=◌, Result-cases,
  Option-cases, Option, none, some, inl, inr, ◌||◌,
}
use node_red_contrib_eelectr.Core.Bodies.SessionResponse.{SessionResponse}
use node_red_contrib_eelectr.Core.Bodies.SessionAuthenticate.{SessionAuthenticate}
use node_red_contrib_eelectr.Core.Bodies.SessionStatus as Status
use node_red_contrib_eelectr.Core.Frame.{
  KnxipFrame, from_body, to_knx, session_status_body, session_authenticate_body,
}
use node_red_contrib_eelectr.Secure.Crypto.{NodeCrypto}
use node_red_contrib_eelectr.Io.SecureSession.{
  SecureSession, Reason, Outcome, ◌▷◌, done, set_state, SecureSessionState, same, closed, closing,
  authenticating, requesting, thrown, mac_mismatch,
}
use node_red_contrib_eelectr.Io.SecureSession.Sending.{wrap, bump, send, send_status}
use node_red_contrib_eelectr.Io.SecureSession.Opening.{
  fail_handshake, complete_handshake, on_session_response, framed, authenticate, keyed, verified,
  verify_response, session_key_of, authenticate_body,
}
use node_red_contrib_eelectr.Io.SecureSession.Closing.{close, say_close, on_keepalive}
use node_red_contrib_eelectr.Io.SecureSession.Sequence.{
  Advances, ▷-Advances, wrap-sequence, framed-sequence,
}

-- A method whose numbers start at the counter.
abbrev pub Counts : (SecureSession → Outcome) → Type 0
Counts f = (s : SecureSession) → Advances s.sequence_id (f s)

pub set_state-Counts : (next : SecureSessionState) → Counts (set_state next)
unfolding set_state
set_state-Counts next s = ground arith

pub fail_handshake-Counts : (reason : Reason) → Counts (fail_handshake reason)
unfolding fail_handshake set_state
fail_handshake-Counts reason s = ground arith

pub complete_handshake-Counts : Counts complete_handshake
unfolding complete_handshake set_state
complete_handshake-Counts s = ground arith

pub ▷-Counts : (f g : SecureSession → Outcome) → Counts f → Counts g → Counts (λ s. f s ▷ g)
▷-Counts f g h k s = ▷-Advances s.sequence_id (f s) g (h s) (k (f s).session)

module _ (node : NodeCrypto) where
  send_status-Counts : (code : ℕ) → Counts (send_status node code)
  unfolding send_status
  send_status-Counts code s = elim (Option-cases s.session_key) [
    | inl k ↦ ground (arith, k)
    | inr (key, k) ↦
        let m = to_knx (from_body (session_status_body (record { status = code }))) in
        elim (Result-cases (m >>= λ plain. wrap node key s.sequence_id plain s)) [
          | inl (e, h) ↦ ground (arith, k, h)
          | inr (w, h) ↦ ground (arith, k, h, framed-sequence node key m s.sequence_id s h)
        ]
  ]

  pub send-Counts : (frame : KnxipFrame) → Counts (send node frame)
  unfolding send
  send-Counts frame s = elim (Option-cases s.session_key) [
    | inl k ↦ ground (arith, k)
    | inr (key, k) ↦
        elim (Result-cases (to_knx frame >>= λ plain. wrap node key s.sequence_id plain s)) [
          | inl (e, h) ↦ ground (arith, k, h)
          | inr (w, h) ↦
              ground (arith, k, h, framed-sequence node key (to_knx frame) s.sequence_id s h)
        ]
  ]

  say_close-Counts : (k : Option Bytes) → Counts (say_close node k)
  unfolding say_close
  say_close-Counts none s = ground arith
  say_close-Counts (some key) s = send_status-Counts Status.close s

  pub close-Counts : Counts (close node)
  unfolding close
  close-Counts s =
      if_both (Advances s.sequence_id) (same s.state closed || same s.state closing) _ _
        (ground arith)
        (▷-Counts (λ s. set_state closing s ▷ (λ s. done (record s { keepalive_timer = false })))
          (λ s. say_close node s.session_key s)
          (▷-Counts (set_state closing) (λ s. done (record s { keepalive_timer = false }))
            (set_state-Counts closing) (λ s. ground arith))
          (λ s. say_close-Counts s.session_key s) s)

  pub on_keepalive-Counts : Counts (on_keepalive node)
  unfolding on_keepalive
  on_keepalive-Counts s =
      if_both (Advances s.sequence_id) s.keepalive_timer _ _ (send_status-Counts Status.keepalive s)
        (ground arith)

  framed-Counts : (r : Result Bytes) (key : Bytes) → Counts (framed node r key)
  unfolding framed
  framed-Counts (err e) key s = fail_handshake-Counts (thrown e) s
  framed-Counts (ok plain) key s = elim (Result-cases (wrap node key s.sequence_id plain s)) [
    | inl (e, h) ↦ rw h (
        ▷-Counts (λ s. done (bump s)) (fail_handshake (thrown e)) (λ s. ground arith)
          (fail_handshake-Counts (thrown e)) s)
    | inr (w, h) ↦ rw h (ground (arith, wrap-sequence node key plain s.sequence_id s h))
  ]

  authenticate-Counts :
      (r : Result SessionAuthenticate) (key : Bytes) → Counts (authenticate node r key)
  unfolding authenticate
  authenticate-Counts (err e) key = fail_handshake-Counts (thrown e)
  authenticate-Counts (ok body) key =
      ▷-Counts (set_state authenticating)
        (framed node (to_knx (from_body (session_authenticate_body body))) key)
        (set_state-Counts authenticating)
        (framed-Counts (to_knx (from_body (session_authenticate_body body))) key)

  keyed-Counts : (r : Result Bytes) (server_pub : Bytes) → Counts (keyed node r server_pub)
  unfolding keyed
  keyed-Counts (err e) server_pub s = fail_handshake-Counts (thrown e) s
  keyed-Counts (ok key) server_pub s =
      authenticate-Counts (authenticate_body node server_pub s) key
        (record s { session_key = some key })

  verified-Counts : (r : Result Bool) (server_pub : Bytes) → Counts (verified node r server_pub)
  unfolding verified
  verified-Counts (err e) server_pub s = fail_handshake-Counts (thrown e) s
  verified-Counts (ok false) server_pub s = fail_handshake-Counts mac_mismatch s
  verified-Counts (ok true) server_pub s =
      keyed-Counts (session_key_of node server_pub s) server_pub s

  pub on_session_response-Counts : (body : SessionResponse) → Counts (on_session_response node body)
  unfolding on_session_response
  on_session_response-Counts body s =
      if_both (Advances s.sequence_id) (not (same s.state requesting)) _ _ (ground arith) (
        verified-Counts (verify_response node s.device_auth_code body s) body.public_key
          (record s { session_id = body.session_id; server_pub = some body.public_key }))
