-- ===== src/Io/SecureSession/Delivery.antt =====
-- What one session sends and another one receives.
use node_red_contrib_eelectr.Base.{
  ℕ, ◌+◌, ◌^◌, ◌<◌, ◌≡◌, refl, arith, Bool, true, false, some, [], ◌∷◌, Bytes, length, ok,
  RoundTrip,
}
use node_red_contrib_eelectr.Core.Bodies.SecureWrapper as SecureWrapperBody
use node_red_contrib_eelectr.Core.Bodies.SecureWrapper.{SecureWrapper, new_secure_wrapper}
use node_red_contrib_eelectr.Core.Header.{header_length}
use node_red_contrib_eelectr.Core.Frame.{
  KnxipBody, KnxipFrame, secure_wrapper_body, session_status_body, body_calculated_length,
  from_body, from_knx, to_knx, connect_request_body, connect_response_body,
}
use node_red_contrib_eelectr.Core.Frame.BodyTrips.{IsWireBody}
use node_red_contrib_eelectr.Core.Frame.RoundTrip.{from_knx-to_knx_frame}
use node_red_contrib_eelectr.Secure.Crypto.{NodeCrypto, IsCipher}
use node_red_contrib_eelectr.Secure.Wrapper.{Sealed, encrypt_secure_wrapper}
use node_red_contrib_eelectr.Secure.Wrapper.Opened.{Fits, encrypt-returns, decrypt-iff-encrypt}
use node_red_contrib_eelectr.Io.Tunnel.{SocketAddress}
use node_red_contrib_eelectr.Io.SecureSession.{
  SecureSession, authenticated, same, doing, send_inner, emit_message,
}
use node_red_contrib_eelectr.Io.SecureSession.Sending.{info_of, wrap, bump, send}
use node_red_contrib_eelectr.Io.SecureSession.Inbound.{
  on_inner_frame, on_secure_wrapper, deliver_body, deliver, opened, open_with, dispatch,
}

abbrev pub is_status : KnxipBody → Bool
is_status (session_status_body b) = true
is_status _ = false

-- The wrapper that a session makes of a plain frame under a number.
abbrev pub wrapper_of : SecureSession → ℕ → Sealed → SecureWrapper
wrapper_of s seq sealed = record {
  session_id = s.session_id;
  sequence_id = seq;
  serial_number = s.serial_number;
  message_tag = s.message_tag;
  encrypted_frame = sealed.encrypted_frame;
  mac = sealed.mac;
}

pub wrap-returns :
    (node : NodeCrypto) (key plain : Bytes) (seq : ℕ) (s : SecureSession) (sealed : Sealed)
    → encrypt_secure_wrapper node key (info_of s seq) plain ≡ ok sealed
    → length sealed.mac ≡ 16
    → wrap node key seq plain s ≡ ok (secure_wrapper_body (wrapper_of s seq sealed))
unfolding wrap new_secure_wrapper
wrap-returns node key plain seq s sealed e l = ground (arith, e, l)

deliver_body-message :
    (node : NodeCrypto) (b : KnxipBody) (inner : KnxipFrame) (source : SocketAddress)
    (s : SecureSession)
    → is_status b ≡ false
    → deliver_body node b inner source s ≡ doing (emit_message inner source ∷ []) s
unfolding deliver_body
deliver_body-message node (session_status_body b) inner source s h = cc
deliver_body-message node (connect_request_body b) inner source s h = refl
deliver_body-message node (connect_response_body b) inner source s h = refl
deliver_body-message node _ inner source s h = refl

-- A session opens what another session with its key and its identifier has wrapped.
pub opened_by :
    (node : NodeCrypto) (v : IsCipher node) (key plain : Bytes) (seq n : ℕ) (s r : SecureSession)
    (source : SocketAddress) (sealed : Sealed) (inner : KnxipFrame)
    → r.session_key ≡ some key
    → r.session_id ≡ s.session_id
    → encrypt_secure_wrapper node key (info_of s seq) plain ≡ ok sealed
    → from_knx plain ≡ ok (inner, n)
    → is_status inner.body ≡ false
    → on_secure_wrapper node (wrapper_of s seq sealed) source r
      ≡ doing (emit_message inner source ∷ []) r
unfolding on_secure_wrapper open_with opened deliver
opened_by node v key plain seq n s r source sealed inner k i e p h = ground (
  arith,
  k,
  i,
  (decrypt-iff-encrypt node v key (info_of s seq) plain sealed).1 e,
  p,
  deliver_body-message node inner.body inner source r h,
)

wrapper_trip :
    (w : SecureWrapper)
    → SecureWrapperBody.IsWire w
    → header_length + (32 + length w.encrypted_frame) < 2 ^ 16
    → RoundTrip to_knx from_knx
        (header_length + body_calculated_length (secure_wrapper_body w))
        (from_body (secure_wrapper_body w))
unfolding IsWireBody body_calculated_length SecureWrapperBody.calculated_length
wrapper_trip w fits h = from_knx-to_knx_frame (secure_wrapper_body w) fits h

module _ (node : NodeCrypto) (v : IsCipher node) (key : Bytes) (s r : SecureSession)
    (source : SocketAddress) (b : KnxipBody) where
  sends_wrapper :
      (plain : Bytes) (sealed : Sealed)
      → same s.state authenticated ≡ true
      → s.session_key ≡ some key
      → s.sequence_id + 1 < 2 ^ 48
      → to_knx (from_body b) ≡ ok plain
      → wrap node key s.sequence_id plain s
        ≡ ok (secure_wrapper_body (wrapper_of s s.sequence_id sealed))
      → send node (from_body b) s
        ≡ doing (send_inner (secure_wrapper_body (wrapper_of s s.sequence_id sealed)) ∷ []) (bump s)
  unfolding send
  sends_wrapper plain sealed a k q p w = ground (arith, a, k, q, p, w)

  -- An authenticated session with room in its counter sends a frame as one wrapper and counts. Another
  -- session with the same key and identifier that reads this wrapper off the wire hands on the very
  -- frame, and does nothing else. The frame is around a body that fits its wire format, that is no
  -- SESSION_STATUS, and that is short enough for a wrapper.
  pub on_inner_frame-send :
      same s.state authenticated ≡ true
      → s.session_key ≡ some key
      → length key ≡ 16
      → Fits (info_of s s.sequence_id)
      → s.sequence_id + 1 < 2 ^ 48
      → r.session_key ≡ some key
      → r.session_id ≡ s.session_id
      → IsWireBody b
      → is_status b ≡ false
      → header_length + body_calculated_length b + 38 < 2 ^ 16
      → (w : KnxipBody) × (raw : Bytes) × (send node (from_body b) s
          ≡ doing (send_inner w ∷ []) (bump s))
        × (to_knx (from_body w) ≡ ok raw)
        × (from_knx raw ≡ ok (from_body w, length raw))
        × (on_inner_frame node (from_body w) source r
            ≡ doing (emit_message (from_body b) source ∷ []) r)
  unfolding on_inner_frame dispatch from_body
  on_inner_frame-send a k l f q rk ri wire plain_body size =
      let p = from_knx-to_knx_frame b wire (omega arith) in
      let (sealed, e, lm, lf) =
        encrypt-returns node v key p.raw (info_of s s.sequence_id) l f (omega (arith, p.counted)) in
      let wrapper = wrapper_of s s.sequence_id sealed in
      let fits : SecureWrapperBody.IsWire wrapper = record {
        session_fits = f.session_fits;
        sequence_fits = f.sequence_fits;
        serial_fits = f.serial_fits;
        tag_fits = f.tag_fits;
        mac_fits = lm;
      } in
      let t = wrapper_trip wrapper fits (omega (arith, p.counted, lf)) in
      (
        secure_wrapper_body wrapper,
        t.raw,
        sends_wrapper p.raw sealed a k q p.written
            (wrap-returns node key p.raw s.sequence_id s sealed e lm),
        t.written,
        ground (arith, t.parsed, t.counted),
        opened_by node v key p.raw s.sequence_id (header_length + body_calculated_length b) s r
            source sealed (from_body b) rk ri e p.parsed plain_body,
      )
