-- ===== src/Io/SecureSession/Sending.antt =====
-- Wrapping and sending: send() and _sendStatus().
use node_red_contrib_eelectr.Base.{
  ℕ, ◌+◌, not, ltb, if◌then◌else◌, Option, none, some, [], ◌∷◌, Bytes, Result, ok, err, ◌>>=◌,
}
use node_red_contrib_eelectr.Core.Bodies.SecureWrapper.{new_secure_wrapper}
use node_red_contrib_eelectr.Core.Frame.{
  KnxipBody, KnxipFrame, secure_wrapper_body, session_status_body, from_body, to_knx,
}
use node_red_contrib_eelectr.Secure.Crypto.{NodeCrypto}
use node_red_contrib_eelectr.Secure.Wrapper.{WrapperInfo, encrypt_secure_wrapper}
use node_red_contrib_eelectr.Io.SecureSession.{
  SecureSession, authenticated, same, Outcome, done, doing, send_inner, reject_send, wrong_state,
  no_session_key, sequence_exhausted, thrown,
}

-- What the session puts into the wrapper of this sequence number.
abbrev pub info_of : SecureSession → ℕ → WrapperInfo
info_of s seq = record {
  session_id = s.session_id;
  sequence_id = seq;
  serial_number = s.serial_number;
  message_tag = s.message_tag;
}

-- `this._sequenceId += 1`.
abbrev pub bump : SecureSession → SecureSession
bump s = record s { sequence_id = s.sequence_id + 1 }

module _ (node : NodeCrypto) where
  -- encryptSecureWrapper() and the wrapper around its result.
  unfoldable pub wrap : Bytes → ℕ → Bytes → SecureSession → Result KnxipBody
  wrap key seq plain s = do
    sealed ← encrypt_secure_wrapper node key (info_of s seq) plain
    wrapper ←
        new_secure_wrapper s.session_id seq s.serial_number s.message_tag sealed.encrypted_frame
          sealed.mac
    ok (secure_wrapper_body wrapper)

  sent : Result KnxipBody → SecureSession → Outcome
  sent (err e) s = doing (reject_send (thrown e) ∷ []) s
  sent (ok wrapper) s = doing (send_inner wrapper ∷ []) s

  send_with : Option Bytes → KnxipFrame → SecureSession → Outcome
  unfolding sent
  send_with none frame s = doing (reject_send no_session_key ∷ []) s
  send_with (some key) frame s =
      if ltb 0xffff_ffff_ffff (s.sequence_id + 1)
      then doing (reject_send sequence_exhausted ∷ []) (bump s)
      else sent (do plain ← to_knx frame; wrap key s.sequence_id plain s) (bump s)

  unfoldable pub send : KnxipFrame → SecureSession → Outcome
  unfolding send_with
  send frame s =
      if not (same s.state authenticated)
      then doing (reject_send (wrong_state s.state) ∷ []) s
      else send_with s.session_key frame s

  -- The callers of _sendStatus drop its errors.
  status_sent : Result KnxipBody → SecureSession → Outcome
  status_sent (err e) s = done s
  status_sent (ok wrapper) s = doing (send_inner wrapper ∷ []) s

  status_with : Option Bytes → ℕ → SecureSession → Outcome
  unfolding status_sent
  status_with none code s = done s
  status_with (some key) code s =
      status_sent
        (do
          plain ← to_knx (from_body (session_status_body (record { status = code })))
          wrap key s.sequence_id plain s)
        (bump s)

  unfoldable pub send_status : ℕ → SecureSession → Outcome
  unfolding status_with
  send_status code s = status_with s.session_key code s
