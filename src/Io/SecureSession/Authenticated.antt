-- ===== src/Io/SecureSession/Authenticated.antt =====
-- The handshake with a server that answers as it should.
use node_red_contrib_eelectr.Base.{
  ◌+◌, ◌^◌, ◌<◌, ◌≤◌, ◌≡◌, refl, arith, true, false, if◌then◌else◌, some, [], ◌∷◌, Bytes, length,
  length-take, ok,
}
use node_red_contrib_eelectr.Core.Hpai.{route_back, ipv4_tcp}
use node_red_contrib_eelectr.Core.Bodies.SessionRequest.{new_session_request}
use node_red_contrib_eelectr.Core.Bodies.SessionResponse.{SessionResponse}
use node_red_contrib_eelectr.Core.Bodies.SessionAuthenticate as SessionAuthenticateBody
use node_red_contrib_eelectr.Core.Bodies.SessionAuthenticate.{
  SessionAuthenticate, new_session_authenticate,
}
use node_red_contrib_eelectr.Core.Frame.{
  secure_wrapper_body, session_request_body, session_response_body, session_status_body,
  session_authenticate_body, from_body, to_knx, body_calculated_length,
}
use node_red_contrib_eelectr.Core.Frame.BodyTrips.{IsWireBody}
use node_red_contrib_eelectr.Core.Frame.RoundTrip.{from_knx-to_knx_frame}
use node_red_contrib_eelectr.Secure.Crypto.{NodeCrypto, IsCipher}
use node_red_contrib_eelectr.Secure.Keys.{derive_session_key}
use node_red_contrib_eelectr.Secure.Handshake.{
  compute_authenticate_mac, compute_authenticate_mac-returns,
}
use node_red_contrib_eelectr.Secure.Wrapper.{Sealed, encrypt_secure_wrapper}
use node_red_contrib_eelectr.Secure.Wrapper.Opened.{encrypt-returns}
use node_red_contrib_eelectr.Io.Tunnel.{SocketAddress}
use node_red_contrib_eelectr.Io.SecureSession.{
  SecureSession, idle, requesting, authenticating, authenticated, doing, set_state, send_inner,
  resolve_open, emit_state,
}
use node_red_contrib_eelectr.Io.SecureSession.Sending.{info_of}
use node_red_contrib_eelectr.Io.SecureSession.Opening.{
  open_session, verify_response, session_key_of, authenticate_body, on_session_response, verified,
  keyed, authenticate, framed, wrapped, complete_handshake, on_authentication_result,
  on_plain_session_status,
}
use node_red_contrib_eelectr.Io.SecureSession.Inbound.{on_inner_frame, dispatch}
use node_red_contrib_eelectr.Io.SecureSession.Events.{opens, frame_arrives, on_event, run}
use node_red_contrib_eelectr.Io.SecureSession.Delivery.{wrapper_of, wrap-returns}

-- What the server's answer and the settings have to be.
pub record Answers (node : NodeCrypto) (s : SecureSession) (response : SessionResponse)
    (shared : Bytes) : Type 0 where
  pub client_key : length s.client_pub ≡ 32
  pub server_key : length response.public_key ≡ 32
  pub user_lo : 1 ≤ s.user_id
  pub user_hi : s.user_id ≤ 127
  pub password_key : length s.user_password_key ≡ 16
  pub genuine : verify_response node s.device_auth_code response s ≡ ok true
  pub agreed : node.x25519 s.client_priv response.public_key ≡ ok shared
  pub hashed : length (node.sha256 shared) ≡ 32
  pub session_fits : response.session_id < 2 ^ 16
  pub sequence_fits : s.sequence_id < 2 ^ 48
  pub serial_fits : s.serial_number < 2 ^ 48
  pub tag_fits : s.message_tag < 2 ^ 16

-- The session while it waits for the response, and behind it.
abbrev pub asking : SecureSession → SecureSession
asking s = record s { state = requesting; pending_handshake = true }

abbrev pub answered : NodeCrypto → SecureSession → SessionResponse → Bytes → SecureSession
answered node s response shared = record s {
  state = authenticating;
  pending_handshake = true;
  session_id = response.session_id;
  server_pub = some response.public_key;
  session_key = some (derive_session_key node shared);
  sequence_id = s.sequence_id + 1;
}

abbrev pub entered : NodeCrypto → SecureSession → SessionResponse → Bytes → SecureSession
entered node s response shared = record (answered node s response shared) {
  state = authenticated;
  pending_handshake = false;
  keepalive_timer = if s.keepalives then true else s.keepalive_timer;
}

open_session-idle :
    (s : SecureSession)
    → s.state ≡ idle
    → length s.client_pub ≡ 32
    → open_session s
      ≡ doing
          (emit_state requesting idle
            ∷ send_inner (
                session_request_body
                  (record { control_endpoint = route_back ipv4_tcp; public_key = s.client_pub }))
            ∷ [])
          (asking s)
unfolding open_session set_state new_session_request
open_session-idle s i l = ground (arith, i, l)

complete-authenticating :
    (s : SecureSession)
    → s.state ≡ authenticating
    → s.pending_handshake ≡ true
    → on_plain_session_status (record { status = 0 }) s
      ≡ doing (resolve_open ∷ emit_state authenticated authenticating ∷ []) (record s {
        state = authenticated;
        pending_handshake = false;
        keepalive_timer = if s.keepalives then true else s.keepalive_timer;
      })
unfolding on_plain_session_status on_authentication_result complete_handshake set_state
complete-authenticating s a p = ground (arith, a, p)

module _ (node : NodeCrypto) (v : IsCipher node) (s : SecureSession) (response : SessionResponse)
    (shared : Bytes) (w : Answers node s response shared) where
  -- The parts of the handler that do not fail.
  authenticates :
      (mac : Bytes) × (raw : Bytes) × (sealed : Sealed) × (authenticate_body node
          response.public_key s
        ≡ ok (record { user_id = s.user_id; mac = mac }))
      × (compute_authenticate_mac node s.user_password_key s.user_id s.client_pub
            response.public_key
          ≡ ok mac)
      × (to_knx (from_body (session_authenticate_body (record { user_id = s.user_id; mac = mac })))
          ≡ ok raw)
      × (encrypt_secure_wrapper node
            (derive_session_key node shared)
            (info_of (answered node s response shared) s.sequence_id)
            raw
          ≡ ok sealed)
      × (length sealed.mac ≡ 16)
  unfolding authenticate_body new_session_authenticate body_calculated_length
      SessionAuthenticateBody.calculated_length IsWireBody derive_session_key
  authenticates =
      let (mac, m, lm) =
        compute_authenticate_mac-returns node v s.user_password_key s.user_id s.client_pub
          response.public_key w.password_key w.client_key w.server_key w.user_lo w.user_hi in
      let body : SessionAuthenticate = record { user_id = s.user_id; mac = mac } in
      let fits : SessionAuthenticateBody.IsWire body = record {
        user_fits = (w.user_lo, w.user_hi);
        mac_fits = lm;
      } in
      let t = from_knx-to_knx_frame (session_authenticate_body body) fits (omega arith) in
      let (sealed, e, ls, lf) =
        encrypt-returns node v (derive_session_key node shared) t.raw
          (info_of (answered node s response shared) s.sequence_id)
          (omega (arith, length-take 16 (node.sha256 shared), w.hashed))
          (record {
            session_fits = w.session_fits;
            sequence_fits = w.sequence_fits;
            serial_fits = w.serial_fits;
            tag_fits = w.tag_fits;
          })
          (omega (arith, t.counted)) in
      (mac, t.raw, sealed, ground (arith, m, lm, w.user_lo, w.user_hi), m, t.written, e, ls)

  on_session_response-genuine :
      (mac raw : Bytes) (sealed : Sealed)
      → authenticate_body node response.public_key s
        ≡ ok (record { user_id = s.user_id; mac = mac })
      → to_knx (from_body (session_authenticate_body (record { user_id = s.user_id; mac = mac })))
        ≡ ok raw
      → encrypt_secure_wrapper node
          (derive_session_key node shared)
          (info_of (answered node s response shared) s.sequence_id)
          raw
        ≡ ok sealed
      → length sealed.mac ≡ 16
      → on_session_response node response (asking s)
        ≡ doing
            (emit_state authenticating requesting
              ∷ send_inner (
                  secure_wrapper_body
                    (wrapper_of (answered node s response shared) s.sequence_id sealed))
              ∷ [])
            (answered node s response shared)
  unfolding on_session_response verify_response session_key_of authenticate_body verified keyed
      authenticate framed wrapped set_state
  on_session_response-genuine mac raw sealed a r e l = ground (
    arith,
    w.genuine,
    w.agreed,
    a,
    r,
    wrap-returns node (derive_session_key node shared) raw s.sequence_id
        (record (answered node s response shared) { sequence_id = s.sequence_id }) sealed e l,
  )

-- The handshake of an idle session reaches its end when the server answers: it sends the request; on a
-- response whose MAC verifies it sends, encrypted with the agreed key, the SESSION_AUTHENTICATE with
-- the MAC of the user's password; and on the status 0 open() resolves and the session is
-- authenticated with that key and the server's identifier. Keys have their lengths, the user is in
-- range, and the numbers fit their fields.
pub run-handshake :
    (node : NodeCrypto) (v : IsCipher node) (s : SecureSession) (response : SessionResponse)
    (shared : Bytes) (source : SocketAddress)
    → s.state ≡ idle
    → Answers node s response shared
    → (mac raw : Bytes) × (sealed : Sealed) × (compute_authenticate_mac node s.user_password_key
          s.user_id s.client_pub response.public_key
        ≡ ok mac)
      × (to_knx (from_body (session_authenticate_body (record { user_id = s.user_id; mac = mac })))
          ≡ ok raw)
      × (encrypt_secure_wrapper node
            (derive_session_key node shared)
            (info_of (answered node s response shared) s.sequence_id)
            raw
          ≡ ok sealed)
      × (run node
            (opens
              ∷ frame_arrives (from_body (session_response_body response)) source
              ∷ frame_arrives (from_body (session_status_body (record { status = 0 }))) source
              ∷ [])
            s
          ≡ doing
              (emit_state requesting idle
                ∷ send_inner (
                    session_request_body (record {
                      control_endpoint = route_back ipv4_tcp;
                      public_key = s.client_pub;
                    }))
                ∷ emit_state authenticating requesting
                ∷ send_inner (
                    secure_wrapper_body
                      (wrapper_of (answered node s response shared) s.sequence_id sealed))
                ∷ resolve_open
                ∷ emit_state authenticated authenticating
                ∷ [])
              (entered node s response shared))
unfolding run on_event on_inner_frame dispatch from_body
run-handshake node v s response shared source i w =
    let (mac, raw, sealed, a, m, r, e, l) = authenticates node v s response shared w in
    (
      mac,
      raw,
      sealed,
      m,
      r,
      e,
      ground (
        arith,
        open_session-idle s i w.client_key,
        on_session_response-genuine node v s response shared w mac raw sealed a r e l,
        complete-authenticating (answered node s response shared) refl refl,
      ),
    )
