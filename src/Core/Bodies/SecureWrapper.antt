-- ===== src/Core/Bodies/SecureWrapper.antt =====
-- src/core/bodies/secureWrapper.ts: the SECURE_WRAPPER body. It takes all the bytes that are left, the
-- last 16 of them as the MAC.
use node_red_contrib_eelectr.Base.{
  ℕ, ◌+◌, ◌-◌, ◌^◌, ◌<◌, ◌≡◌, arith, not, ◌==◌, ltb, ◌++◌, Bytes, length, length-append, read_u16,
  read_u48, u16_be, u48_be, take, drop, take-all, take-length_append, drop-length_append, Result,
  ok, ◌>>=◌, ◌>>◌, throw_if, could_not_parse_knxip, range_error, RoundTrip,
}

abbrev pub secure_wrapper_header_len : ℕ
secure_wrapper_header_len = 16

abbrev pub secure_wrapper_mac_len : ℕ
secure_wrapper_mac_len = 16

abbrev pub secure_wrapper_overhead : ℕ
secure_wrapper_overhead = 32

pub record SecureWrapper : Type 0 where
  pub session_id : ℕ
  pub sequence_id : ℕ
  pub serial_number : ℕ
  pub message_tag : ℕ
  pub encrypted_frame : Bytes
  pub mac : Bytes

-- The constructor.
unfoldable pub new_secure_wrapper : ℕ → ℕ → ℕ → ℕ → Bytes → Bytes → Result SecureWrapper
new_secure_wrapper session_id sequence_id serial_number message_tag encrypted_frame mac = do
  throw_if (not (length mac == secure_wrapper_mac_len)) range_error
  ok (record {
    session_id = session_id;
    sequence_id = sequence_id;
    serial_number = serial_number;
    message_tag = message_tag;
    encrypted_frame = encrypted_frame;
    mac = mac;
  })

unfoldable pub calculated_length : SecureWrapper → ℕ
calculated_length b = secure_wrapper_overhead + length b.encrypted_frame

unfoldable pub from_knx : Bytes → Result (SecureWrapper × ℕ)
from_knx raw = do
  throw_if (ltb (length raw) secure_wrapper_overhead) could_not_parse_knxip
  let inner_len = length raw - secure_wrapper_overhead
  b ←
      new_secure_wrapper (read_u16 raw 0) (read_u48 raw 2) (read_u48 raw 8) (read_u16 raw 14)
        (take inner_len (drop secure_wrapper_header_len raw))
        (take secure_wrapper_mac_len (drop inner_len (drop secure_wrapper_header_len raw)))
  ok (b, secure_wrapper_overhead + inner_len)

unfoldable pub to_knx : SecureWrapper → Result Bytes
to_knx b = do
  throw_if (ltb 0xffff b.session_id) range_error
  throw_if (ltb 0xffff_ffff_ffff b.sequence_id) range_error
  throw_if (ltb 0xffff_ffff_ffff b.serial_number) range_error
  throw_if (ltb 0xffff b.message_tag) range_error
  ok (
      u16_be b.session_id
      ++ (u48_be b.sequence_id
          ++ (u48_be b.serial_number ++ (u16_be b.message_tag ++ (b.encrypted_frame ++ b.mac)))))

pub record IsWire (b : SecureWrapper) : Type 0 where
  pub session_fits : b.session_id < 2 ^ 16
  pub sequence_fits : b.sequence_id < 2 ^ 48
  pub serial_fits : b.serial_number < 2 ^ 48
  pub tag_fits : b.message_tag < 2 ^ 16
  pub mac_fits : length b.mac ≡ secure_wrapper_mac_len

pub round_trip : (b : SecureWrapper) → IsWire b → RoundTrip to_knx from_knx (calculated_length b) b
unfolding to_knx from_knx calculated_length new_secure_wrapper
round_trip b v = record {
  raw =
      u16_be b.session_id
      ++ (u48_be b.sequence_id
          ++ (u48_be b.serial_number ++ (u16_be b.message_tag ++ (b.encrypted_frame ++ b.mac))));
  written = ground (arith, v.session_fits, v.sequence_fits, v.serial_fits, v.tag_fits);
  counted = ground (arith, v.mac_fits, length-append b.encrypted_frame b.mac);
  parsed = ground (
    arith,
    v.session_fits,
    v.sequence_fits,
    v.serial_fits,
    v.tag_fits,
    v.mac_fits,
    length-append b.encrypted_frame b.mac,
    take-length_append b.encrypted_frame b.mac,
    drop-length_append b.encrypted_frame b.mac,
    take-all secure_wrapper_mac_len b.mac,
  );
}
