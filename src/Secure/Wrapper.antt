-- ===== src/Secure/Wrapper.antt =====
-- src/secure/wrapper.ts: encryption and decryption of the frame in a SECURE_WRAPPER.
pub mod Opened
use node_red_contrib_eelectr.Base.{
  ℕ, ◌+◌, not, ◌==◌, ltb, [], ◌∷◌, ◌++◌, Bytes, length, take, drop, u48_be, list_eq, Result, ok,
  ◌>>=◌, ◌>>◌, throw_if, range_error, plain_error,
}
use node_red_contrib_eelectr.Secure.Crypto.{NodeCrypto, write_u16, aes_cbc_mac, aes_ctr_xor}

abbrev pub wrapper_header_prefix : Bytes
wrapper_header_prefix = 0x06 ∷ 0x10 ∷ 0x09 ∷ 0x50 ∷ []

abbrev pub wrapper_fixed_overhead : ℕ
wrapper_fixed_overhead = 38

abbrev pub uint48_to_be : ℕ → Result Bytes
uint48_to_be v = do throw_if (ltb 0xffff_ffff_ffff v) range_error; ok (u48_be v)

-- What both directions know of a wrapper besides the key and the frame.
pub record WrapperInfo : Type 0 where
  pub session_id : ℕ
  pub sequence_id : ℕ
  pub serial_number : ℕ
  pub message_tag : ℕ

pub record WrapperBlocks : Type 0 where
  pub block0 : Bytes
  pub counter0 : Bytes
  pub additional_data : Bytes

unfoldable pub build_blocks : WrapperInfo → ℕ → Result WrapperBlocks
build_blocks info payload_length = do
  seq ← uint48_to_be info.sequence_id
  serial ← uint48_to_be info.serial_number
  tag ← write_u16 info.message_tag
  len ← write_u16 payload_length
  total ← write_u16 (wrapper_fixed_overhead + payload_length)
  session ← write_u16 info.session_id
  ok (record {
    block0 = seq ++ (serial ++ (tag ++ len));
    counter0 = seq ++ (serial ++ (tag ++ (0xff ∷ 0x00 ∷ [])));
    additional_data = (wrapper_header_prefix ++ total) ++ session;
  })

pub record Sealed : Type 0 where
  pub encrypted_frame : Bytes
  pub mac : Bytes

unfoldable pub encrypt_secure_wrapper : NodeCrypto → Bytes → WrapperInfo → Bytes → Result Sealed
encrypt_secure_wrapper node session_key info plain_frame = do
  blocks ← build_blocks info (length plain_frame)
  mac_cbc ← aes_cbc_mac node session_key blocks.additional_data plain_frame blocks.block0
  stream ← aes_ctr_xor node session_key blocks.counter0 (mac_cbc ++ plain_frame)
  ok (record { encrypted_frame = drop 16 stream; mac = take 16 stream })

unfoldable pub decrypt_secure_wrapper : NodeCrypto → Bytes → WrapperInfo → Sealed → Result Bytes
decrypt_secure_wrapper node session_key info sealed = do
  throw_if (not (length sealed.mac == 16)) range_error
  blocks ← build_blocks info (length sealed.encrypted_frame)
  stream ← aes_ctr_xor node session_key blocks.counter0 (sealed.mac ++ sealed.encrypted_frame)
  let plain_frame = drop 16 stream
  expected_mac ← aes_cbc_mac node session_key blocks.additional_data plain_frame blocks.block0
  throw_if (not (list_eq (take 16 stream) expected_mac)) plain_error
  ok plain_frame
