-- ===== src/Io/SecureSession/Inbound.antt =====
-- What comes in from the inner transport.
use node_red_contrib_eelectr.Base.{
  ℕ, not, ◌==◌, if◌then◌else◌, Option, none, some, [], ◌∷◌, Bytes, Result, ok, err,
}
use node_red_contrib_eelectr.Core.Bodies.SecureWrapper.{SecureWrapper}
use node_red_contrib_eelectr.Core.Bodies.SessionStatus as Status
use node_red_contrib_eelectr.Core.Frame.{
  KnxipBody, KnxipFrame, session_response_body, secure_wrapper_body, session_status_body, from_knx,
}
use node_red_contrib_eelectr.Secure.Crypto.{NodeCrypto}
use node_red_contrib_eelectr.Secure.Wrapper.{WrapperInfo, Sealed, decrypt_secure_wrapper}
use node_red_contrib_eelectr.Io.Tunnel.{SocketAddress}
use node_red_contrib_eelectr.Io.SecureSession.{
  SecureSession, authenticating, same, Reason, gateway_closed, Outcome, done, doing, ◌▷◌,
  emit_error, emit_message, emit_plain_message,
}
use node_red_contrib_eelectr.Io.SecureSession.Opening.{
  fail_handshake, on_session_response, on_authentication_result, on_plain_session_status,
}
use node_red_contrib_eelectr.Io.SecureSession.Closing.{close}

-- What the decryption of a wrapper takes from the wrapper and from the session.
abbrev pub received_info : SecureWrapper → SecureSession → WrapperInfo
received_info body s = record {
  session_id = s.session_id;
  sequence_id = body.sequence_id;
  serial_number = body.serial_number;
  message_tag = body.message_tag;
}

abbrev pub sealed_of : SecureWrapper → Sealed
sealed_of body = record { encrypted_frame = body.encrypted_frame; mac = body.mac }

unfoldable pub on_inner_error : Reason → SecureSession → Outcome
on_inner_error reason s =
    if s.pending_handshake then fail_handshake reason s else doing (emit_error reason ∷ []) s

module _ (node : NodeCrypto) where
  unfoldable pub on_inner_status : ℕ → SecureSession → Outcome
  on_inner_status code s =
      if same s.state authenticating
      then on_authentication_result code s
      else if code == Status.close
      then doing (emit_error gateway_closed ∷ []) s ▷ close node
      else done s

  unfoldable pub deliver_body : KnxipBody → KnxipFrame → SocketAddress → SecureSession → Outcome
  unfolding on_inner_status
  deliver_body (session_status_body status) inner source s = on_inner_status status.status s
  deliver_body _ inner source s = doing (emit_message inner source ∷ []) s

  unfoldable pub deliver : Result (KnxipFrame × ℕ) → SocketAddress → SecureSession → Outcome
  unfolding deliver_body
  deliver (err e) source s = done s
  deliver (ok (inner, n)) source s = deliver_body inner.body inner source s

  unfoldable pub opened : Result Bytes → SocketAddress → SecureSession → Outcome
  unfolding deliver
  opened (err e) source s = done s
  opened (ok plain) source s = deliver (from_knx plain) source s

  unfoldable pub open_with : Option Bytes → SecureWrapper → SocketAddress → SecureSession → Outcome
  unfolding opened
  open_with none body source s = done s
  open_with (some key) body source s =
      if not (body.session_id == s.session_id)
      then done s
      else opened (decrypt_secure_wrapper node key (received_info body s) (sealed_of body)) source s

  unfoldable pub on_secure_wrapper : SecureWrapper → SocketAddress → SecureSession → Outcome
  unfolding open_with
  on_secure_wrapper body source s = open_with s.session_key body source s

  unfoldable pub dispatch : KnxipBody → KnxipFrame → SocketAddress → SecureSession → Outcome
  dispatch (session_response_body body) frame source s = on_session_response node body s
  dispatch (secure_wrapper_body body) frame source s = on_secure_wrapper body source s
  dispatch (session_status_body body) frame source s = on_plain_session_status body s
  dispatch _ frame source s = doing (emit_plain_message frame source ∷ []) s

  unfoldable pub on_inner_frame : KnxipFrame → SocketAddress → SecureSession → Outcome
  unfolding dispatch
  on_inner_frame frame source s = dispatch frame.body frame source s
