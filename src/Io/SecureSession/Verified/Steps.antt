-- ===== src/Io/SecureSession/Verified/Steps.antt =====
-- Each method of the session keeps the key as safe as it was.
use node_red_contrib_eelectr.Base.{
  ℕ, ◌≡◌, refl, arith, ◌||◌, if_both, Bool, true, false, Bool-cases, inl, inr, Option, none, some,
  Bytes, Result, ok, err,
}
use node_red_contrib_eelectr.Core.Bodies.SessionAuthenticate.{SessionAuthenticate}
use node_red_contrib_eelectr.Core.Bodies.SessionResponse.{SessionResponse}
use node_red_contrib_eelectr.Core.Bodies.SessionStatus as Status
use node_red_contrib_eelectr.Core.Frame.{
  KnxipBody, KnxipFrame, session_authenticate_body, from_body, to_knx,
}
use node_red_contrib_eelectr.Secure.Crypto.{NodeCrypto}
use node_red_contrib_eelectr.Io.SecureSession.{
  SecureSession, SecureSessionState, requesting, authenticating, closing, closed, same, Outcome,
  Reason, mac_mismatch, thrown, set_state,
}
use node_red_contrib_eelectr.Io.SecureSession.Sending.{send, send_status, wrap, bump}
use node_red_contrib_eelectr.Io.SecureSession.Opening.{
  verify_response, session_key_of, authenticate_body, fail_handshake, complete_handshake,
  open_session, wrapped, framed, authenticate, keyed, verified, on_session_response,
}
use node_red_contrib_eelectr.Io.SecureSession.Closing.{close, say_close, on_keepalive}
use node_red_contrib_eelectr.Io.SecureSession.Verified.{
  consistent, KeyVerified, IsSafe, SameKey, SameKey-KeyVerified,
}

module _ (node : NodeCrypto) where
  -- A method that keeps the key safe.
  abbrev pub Keeps : (SecureSession → Outcome) → Type 0
  Keeps f = (s : SecureSession) → IsSafe node s → IsSafe node (f s).session

  pub IsSafe-kept :
      (s t : SecureSession)
      → IsSafe node s
      → SameKey s t
      → consistent t.state t.session_key ≡ true
      → IsSafe node t
  IsSafe-kept s t v k c = record {
    consistently = c;
    verified = SameKey-KeyVerified node s t k v.verified;
  }

  -- A session that ends needs no key.
  fail_handshake-SameKey :
      (reason : Reason) (s : SecureSession) → SameKey s (fail_handshake reason s).session
  unfolding fail_handshake set_state
  fail_handshake-SameKey reason s = ground arith

  fail_handshake-consistent :
      (reason : Reason) (s : SecureSession)
      → consistent
          (fail_handshake reason s).session.state
          (fail_handshake reason s).session.session_key
        ≡ true
  unfolding fail_handshake set_state
  fail_handshake-consistent reason s = ground arith

  pub fail_handshake-IsSafe :
      (reason : Reason) (s : SecureSession)
      → KeyVerified node s
      → IsSafe node (fail_handshake reason s).session
  fail_handshake-IsSafe reason s v = record {
    consistently = fail_handshake-consistent reason s;
    verified =
        SameKey-KeyVerified node s (fail_handshake reason s).session
          (fail_handshake-SameKey reason s) v;
  }

  pub complete_handshake-IsSafe :
      (s : SecureSession)
      → IsSafe node s
      → same s.state authenticating ≡ true
      → IsSafe node (complete_handshake s).session
  unfolding complete_handshake set_state
  complete_handshake-IsSafe s v a =
      IsSafe-kept s (complete_handshake s).session v (ground arith)
        (ground (arith, a, v.consistently))

  pub open_session-Keeps : Keeps open_session
  unfolding open_session set_state
  open_session-Keeps s v =
      IsSafe-kept s (open_session s).session v (ground arith) (ground (arith, v.consistently))

  send_status-Keeps : (code : ℕ) → Keeps (send_status node code)
  unfolding send_status
  send_status-Keeps code s v =
      IsSafe-kept s (send_status node code s).session v (ground arith)
        (ground (arith, v.consistently))

  pub send-Keeps : (frame : KnxipFrame) → Keeps (send node frame)
  unfolding send
  send-Keeps frame s v =
      IsSafe-kept s (send node frame s).session v (ground arith) (ground (arith, v.consistently))

  say_close-IsSafe :
      (k : Option Bytes) (s : SecureSession)
      → IsSafe node s
      → IsSafe node (say_close node k s).session
  unfolding say_close
  say_close-IsSafe none s v = v
  say_close-IsSafe (some key) s v = send_status-Keeps Status.close s v

  pub ending-Keeps :
      (end : SecureSessionState)
      → ((k : Option Bytes) → consistent end k ≡ true)
      → Keeps (set_state end)
  unfolding set_state
  ending-Keeps end c s v =
      IsSafe-kept s (set_state end s).session v (ground arith)
        (ground (arith, v.consistently, c s.session_key))

  pub close-Keeps : Keeps (close node)
  unfolding close
  close-Keeps s v =
      if_both {A = Outcome} (λ o. IsSafe node o.session)
        (same s.state closed || same s.state closing) _ _ v
        (let t = (set_state closing s).session in
          let t' = record t { keepalive_timer = false } in
          say_close-IsSafe t'.session_key t' (
            IsSafe-kept t t' (ending-Keeps closing (λ k. refl) s v) (ground arith)
              (ending-Keeps closing (λ k. refl) s v).consistently))

  pub on_keepalive-Keeps : Keeps (on_keepalive node)
  unfolding on_keepalive
  on_keepalive-Keeps s v =
      if_both {A = Outcome} (λ o. IsSafe node o.session) s.keepalive_timer _ _
        (send_status-Keeps Status.keepalive s v) v

  -- The response sets the key, once it has verified.
  wrapped-IsSafe :
      (r : Result KnxipBody) (s : SecureSession)
      → IsSafe node s
      → IsSafe node (wrapped node r s).session
  unfolding wrapped
  wrapped-IsSafe (err e) s v = fail_handshake-IsSafe (thrown e) s v.verified
  wrapped-IsSafe (ok w) s v = v

  framed-IsSafe :
      (r : Result Bytes) (key : Bytes) (s : SecureSession)
      → IsSafe node s
      → IsSafe node (framed node r key s).session
  unfolding framed
  framed-IsSafe (err e) key s v = fail_handshake-IsSafe (thrown e) s v.verified
  framed-IsSafe (ok plain) key s v =
      wrapped-IsSafe (wrap node key s.sequence_id plain s) (bump s)
        (IsSafe-kept s (bump s) v (ground arith) v.consistently)

  authenticating-IsSafe :
      (key : Bytes) (s : SecureSession)
      → KeyVerified node s
      → s.session_key ≡ some key
      → IsSafe node (set_state authenticating s).session
  unfolding set_state
  authenticating-IsSafe key s v k = record {
    consistently = ground (arith, k);
    verified = SameKey-KeyVerified node s (set_state authenticating s).session (ground arith) v;
  }

  authenticate-IsSafe :
      (r : Result SessionAuthenticate) (key : Bytes) (s : SecureSession)
      → KeyVerified node s
      → s.session_key ≡ some key
      → IsSafe node (authenticate node r key s).session
  unfolding authenticate
  authenticate-IsSafe (err e) key s v k = fail_handshake-IsSafe (thrown e) s v
  authenticate-IsSafe (ok body) key s v k =
      framed-IsSafe (to_knx (from_body (session_authenticate_body body))) key
        (set_state authenticating s).session (authenticating-IsSafe key s v k)

  no_key : (s : SecureSession) → s.session_key ≡ none → KeyVerified node s
  no_key s n key h = cc

  agreed_key :
      (key : Bytes) (response : SessionResponse) (s : SecureSession)
      → session_key_of node response.public_key s ≡ ok key
      → s.server_pub ≡ some response.public_key
      → s.session_id ≡ response.session_id
      → verify_response node s.device_auth_code response s ≡ ok true
      → KeyVerified node (record s { session_key = some key })
  unfolding session_key_of verify_response
  agreed_key key response s a p i g key' h = record {
    response = response;
    from_server = p;
    identified = i;
    genuine = ground (arith, g);
    agreed = ground (arith, a, h);
  }

  keyed-IsSafe :
      (r : Result Bytes) (response : SessionResponse) (s : SecureSession)
      → session_key_of node response.public_key s ≡ r
      → s.session_key ≡ none
      → s.server_pub ≡ some response.public_key
      → s.session_id ≡ response.session_id
      → verify_response node s.device_auth_code response s ≡ ok true
      → IsSafe node (keyed node r response.public_key s).session
  unfolding keyed
  keyed-IsSafe (err e) response s r n p i g = fail_handshake-IsSafe (thrown e) s (no_key s n)
  keyed-IsSafe (ok key) response s r n p i g =
      let t = record s { session_key = some key } in
      authenticate-IsSafe (authenticate_body node response.public_key s) key t
        (agreed_key key response s r p i g) refl

  verified-IsSafe :
      (r : Result Bool) (response : SessionResponse) (s : SecureSession)
      → verify_response node s.device_auth_code response s ≡ r
      → s.session_key ≡ none
      → s.server_pub ≡ some response.public_key
      → s.session_id ≡ response.session_id
      → IsSafe node (verified node r response.public_key s).session
  unfolding verified
  verified-IsSafe (err e) response s g n p i = fail_handshake-IsSafe (thrown e) s (no_key s n)
  verified-IsSafe (ok false) response s g n p i = fail_handshake-IsSafe mac_mismatch s (no_key s n)
  verified-IsSafe (ok true) response s g n p i =
      keyed-IsSafe (session_key_of node response.public_key s) response s refl n p i g

  verify_response-told :
      (response : SessionResponse) (s : SecureSession)
      → verify_response node s.device_auth_code response
          (record s { session_id = response.session_id; server_pub = some response.public_key })
        ≡ verify_response node s.device_auth_code response s
  unfolding verify_response
  verify_response-told response s = ground arith

  asked_no_key :
      (s : SecureSession) → IsSafe node s → same s.state requesting ≡ true → s.session_key ≡ none
  unfolding same
  asked_no_key s v h = ground (arith, v.consistently, h)

  pub on_session_response-Keeps :
      (response : SessionResponse) → Keeps (on_session_response node response)
  unfolding on_session_response
  on_session_response-Keeps response s v = elim (Bool-cases (same s.state requesting)) [
    | inl asked ↦
        let t = record s {
          session_id = response.session_id;
          server_pub = some response.public_key;
        } in
        rw asked (
          verified-IsSafe (verify_response node s.device_auth_code response s) response t
            (verify_response-told response s) (asked_no_key s v asked) refl refl)
    | inr other ↦ rw other v
  ]
