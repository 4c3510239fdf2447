-- ===== src/Examples/Sessions.antt =====
-- Secure sessions with the toy cipher.
use node_red_contrib_eelectr.Base.{
  ◌≡◌, ◌↔◌, refl, arith, true, false, none, some, [], ◌∷◌, map, Bytes, length, ok, Option,
}
use node_red_contrib_eelectr.Core.Header.{header_from_knx}
use node_red_contrib_eelectr.Core.Bodies.SessionResponse.{SessionResponse}
use node_red_contrib_eelectr.Core.Frame.{
  KnxipBody, from_body, from_knx, to_knx, body_calculated_length, secure_wrapper_body,
  session_response_body, session_status_body, tunnelling_ack_body, parse_body, service_type_of,
  session_authenticate_body, session_request_body,
}
use node_red_contrib_eelectr.Secure.Crypto.{zeros, aes_cbc_mac, aes_ctr_xor}
use node_red_contrib_eelectr.Core.Hpai.{route_back, ipv4_tcp}
use node_red_contrib_eelectr.Io.SecureSession.Opening.{verify_response}
use node_red_contrib_eelectr.Secure.Handshake.{compute_authenticate_mac}
use node_red_contrib_eelectr.Secure.Keys.{derive_session_key}
use node_red_contrib_eelectr.Secure.Wrapper.{
  Sealed, build_blocks, encrypt_secure_wrapper, decrypt_secure_wrapper,
}
use node_red_contrib_eelectr.Secure.Wrapper.Opened.{decrypt-iff-encrypt}
use node_red_contrib_eelectr.Examples.Ciphers.{toy, toy-IsCipher, toy_key}
use node_red_contrib_eelectr.Io.Tunnel.{SocketAddress}
use node_red_contrib_eelectr.Io.SecureSession.{
  SecureSession, SecureSessionOptions, SecureSessionState, new_secure_session, authenticated,
  requesting, idle, same, doing, send_inner, emit_message, emit_state, emit_close, closed,
  reject_open, emit_error, handshake_timeout, resolve_open, authenticating,
}
use node_red_contrib_eelectr.Core.Frame.BodyTrips.{IsWireBody}
use node_red_contrib_eelectr.Core.Bodies.TunnellingAck
use node_red_contrib_eelectr.Io.SecureSession.Sending.{send, bump, info_of}
use node_red_contrib_eelectr.Io.SecureSession.Inbound.{on_inner_frame}
use node_red_contrib_eelectr.Io.SecureSession.Events.{
  run, opens, times_out, inner_closes, frame_arrives,
}
use node_red_contrib_eelectr.Io.SecureSession.Delivery.{is_status, on_inner_frame-send, wrapper_of}
use node_red_contrib_eelectr.Io.SecureSession.Sequence.{Ascends, sequences}
use node_red_contrib_eelectr.Io.SecureSession.Sequence.Unique.{run-Ascends}
use node_red_contrib_eelectr.Io.SecureSession.Verified.{IsSafe}
use node_red_contrib_eelectr.Io.SecureSession.Verified.Reached.{run-IsSafe}
use node_red_contrib_eelectr.Io.SecureSession.Replay.{Wrapped, arrival, message, run-arrivals}
use node_red_contrib_eelectr.Io.SecureSession.Abandoned.{inner_close-pending}
use node_red_contrib_eelectr.Io.SecureSession.Authenticated.{
  run-handshake, Answers, answered, entered,
}

decrypt-iff-encrypt_example :
    (decrypt_secure_wrapper toy toy_key
        (record { session_id = 1; sequence_id = 7; serial_number = 9; message_tag = 0 })
        (record { encrypted_frame = 5 ∷ 6 ∷ []; mac = toy_key })
      ≡ ok (6 ∷ 5 ∷ []))
    ↔ (encrypt_secure_wrapper toy toy_key
          (record { session_id = 1; sequence_id = 7; serial_number = 9; message_tag = 0 })
          (6 ∷ 5 ∷ [])
        ≡ ok (record { encrypted_frame = 5 ∷ 6 ∷ []; mac = toy_key }))
decrypt-iff-encrypt_example =
    decrypt-iff-encrypt toy toy-IsCipher toy_key
      (record { session_id = 1; sequence_id = 7; serial_number = 9; message_tag = 0 }) (6 ∷ 5 ∷ [])
      (record { encrypted_frame = 5 ∷ 6 ∷ []; mac = toy_key })

abbrev gateway : SocketAddress
gateway = record { address = []; port = 3671 }

abbrev opts : SecureSessionOptions
opts = record {
  user_id = 2;
  device_auth_password = some (b'a' ∷ []);
  user_password = b'b' ∷ [];
  serial_number = none;
  message_tag = none;
  keepalive_ms = none;
}

abbrev session_of : SecureSessionState → Option Bytes → SecureSession
session_of state key = record {
  user_id = 2;
  serial_number = 9;
  message_tag = 0;
  keepalives = true;
  client_priv = [];
  client_pub = zeros 32;
  device_auth_code = none;
  user_password_key = toy_key;
  state = state;
  session_id = 1;
  server_pub = none;
  session_key = key;
  sequence_id = 7;
  keepalive_timer = false;
  pending_handshake = false;
}

abbrev ack : KnxipBody
ack =
    tunnelling_ack_body
      (record { communication_channel_id = 1; sequence_counter = 2; status_code = 0 })

on_inner_frame-send_example :
    (w : KnxipBody) × (raw : Bytes) × (send toy
        (from_body ack)
        (session_of authenticated (some toy_key))
      ≡ doing (send_inner w ∷ []) (bump (session_of authenticated (some toy_key))))
    × (to_knx (from_body w) ≡ ok raw)
    × (from_knx raw ≡ ok (from_body w, length raw))
    × (on_inner_frame toy (from_body w) gateway (session_of authenticated (some toy_key))
        ≡ doing
            (emit_message (from_body ack) gateway ∷ [])
            (session_of authenticated (some toy_key)))
unfolding same IsWireBody body_calculated_length TunnellingAck.calculated_length
on_inner_frame-send_example =
    on_inner_frame-send toy toy-IsCipher toy_key (session_of authenticated (some toy_key))
      (session_of authenticated (some toy_key)) gateway ack refl refl refl
      (record {
        session_fits = omega arith;
        sequence_fits = omega arith;
        serial_fits = omega arith;
        tag_fits = omega arith;
      })
      (omega arith) refl refl
      (record {
        channel_fits = omega arith;
        sequence_fits = omega arith;
        status_fits = omega arith;
      })
      refl (omega arith)

run-Ascends_example :
    Ascends 0
      (run toy (opens ∷ times_out ∷ []) (new_secure_session toy [] [] opts)).session.sequence_id
      (sequences (run toy (opens ∷ times_out ∷ []) (new_secure_session toy [] [] opts)).actions)
run-Ascends_example = run-Ascends toy [] [] opts (opens ∷ times_out ∷ [])

run-IsSafe_example :
    IsSafe toy (run toy (opens ∷ times_out ∷ []) (new_secure_session toy [] [] opts)).session
run-IsSafe_example = run-IsSafe toy [] [] opts (opens ∷ times_out ∷ [])

abbrev ack_bytes : Bytes
ack_bytes = 0x06 ∷ 0x10 ∷ 0x04 ∷ 0x21 ∷ 0x00 ∷ 0x0a ∷ 0x04 ∷ 0x01 ∷ 0x02 ∷ 0x00 ∷ []

ack_parses : from_knx ack_bytes ≡ ok (from_body ack, 10)
unfolding from_knx from_body header_from_knx parse_body TunnellingAck.from_knx service_type_of
    body_calculated_length TunnellingAck.calculated_length
ack_parses = refl

abbrev seal : Sealed
seal = record {
  encrypted_frame = 16 ∷ 6 ∷ 33 ∷ 4 ∷ 10 ∷ 0 ∷ 1 ∷ 4 ∷ 0 ∷ 2 ∷ [];
  mac = 1 ∷ 4 ∷ 0 ∷ 2 ∷ 0 ∷ 0 ∷ 0 ∷ 0 ∷ 0 ∷ 0 ∷ 0 ∷ 0 ∷ 0 ∷ 0 ∷ 0 ∷ 0 ∷ [];
}

ack_encrypted :
    encrypt_secure_wrapper toy toy_key
      (info_of (session_of authenticated (some toy_key)) 3)
      ack_bytes
    ≡ ok seal
unfolding encrypt_secure_wrapper build_blocks aes_cbc_mac aes_ctr_xor
ack_encrypted = refl

ack_no_status : is_status (from_body ack).body ≡ false
unfolding from_body
ack_no_status = refl

-- A wrapper with an earlier number than the counter of the session.
abbrev recorded : Wrapped toy toy_key (session_of authenticated (some toy_key))
recorded = record {
  sequence = 3;
  plain = ack_bytes;
  sealed = seal;
  inner = from_body ack;
  bytes_read = 10;
  encrypted = ack_encrypted;
  parses = ack_parses;
  no_status = ack_no_status;
}

run-arrivals_example :
    run toy
      (map
        (arrival toy toy_key (session_of authenticated (some toy_key)) gateway)
        (recorded ∷ recorded ∷ []))
      (session_of authenticated (some toy_key))
    ≡ doing
        (map
          (message toy toy_key (session_of authenticated (some toy_key)) gateway)
          (recorded ∷ recorded ∷ []))
        (session_of authenticated (some toy_key))
run-arrivals_example =
    run-arrivals toy toy-IsCipher toy_key (session_of authenticated (some toy_key))
      (session_of authenticated (some toy_key)) gateway (recorded ∷ recorded ∷ []) refl refl

abbrev waiting : SecureSession
waiting = record (session_of requesting none) { pending_handshake = true }

inner_close-pending_example :
    run toy (inner_closes ∷ times_out ∷ []) waiting
    ≡ doing
        (emit_state closed requesting
          ∷ emit_close
          ∷ reject_open handshake_timeout
          ∷ emit_error handshake_timeout
          ∷ [])
        (record waiting { state = closed; pending_handshake = false; keepalive_timer = false })
unfolding same
inner_close-pending_example = inner_close-pending toy waiting refl refl

abbrev answer : SessionResponse
answer = record { session_id = 1; public_key = zeros 32; mac = toy_key }

answer-Answers : Answers toy (session_of idle none) answer (zeros 32)
unfolding verify_response
answer-Answers = record {
  client_key = refl;
  server_key = refl;
  user_lo = omega arith;
  user_hi = omega arith;
  password_key = refl;
  genuine = refl;
  agreed = refl;
  hashed = refl;
  session_fits = omega arith;
  sequence_fits = omega arith;
  serial_fits = omega arith;
  tag_fits = omega arith;
}

run-handshake_example :
    (mac raw : Bytes) × (sealed : Sealed) × (compute_authenticate_mac toy toy_key 2
        (zeros 32)
        (zeros 32)
      ≡ ok mac)
    × (to_knx (from_body (session_authenticate_body (record { user_id = 2; mac = mac }))) ≡ ok raw)
    × (encrypt_secure_wrapper toy
          (derive_session_key toy (zeros 32))
          (info_of (answered toy (session_of idle none) answer (zeros 32)) 7)
          raw
        ≡ ok sealed)
    × (run toy
          (opens
            ∷ frame_arrives (from_body (session_response_body answer)) gateway
            ∷ frame_arrives (from_body (session_status_body (record { status = 0 }))) gateway
            ∷ [])
          (session_of idle none)
        ≡ doing
            (emit_state requesting idle
              ∷ send_inner (
                  session_request_body
                    (record { control_endpoint = route_back ipv4_tcp; public_key = zeros 32 }))
              ∷ emit_state authenticating requesting
              ∷ send_inner (
                  secure_wrapper_body
                    (wrapper_of (answered toy (session_of idle none) answer (zeros 32)) 7 sealed))
              ∷ resolve_open
              ∷ emit_state authenticated authenticating
              ∷ [])
            (entered toy (session_of idle none) answer (zeros 32)))
run-handshake_example =
    run-handshake toy toy-IsCipher (session_of idle none) answer (zeros 32) gateway refl
      answer-Answers
