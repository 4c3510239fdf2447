-- ===== src/Core/Apci.antt =====
-- src/core/apci.ts: the application-layer services that travel in an APDU.
pub mod Coding
use node_red_contrib_eelectr.Base.{
  ℕ, ◌+◌, ◌-◌, ◌==◌, ltb, if◌then◌else◌, Option, none, some, [], ◌∷◌, bit_and, bit_or, Bytes,
  length, byte_at, drop, Result, ok, ◌>>◌, throw_if, conversion_error,
}
use node_red_contrib_eelectr.Base.Bits.{shl, shr}

abbrev pub group_read : ℕ
group_read = 0x0000

abbrev pub group_response : ℕ
group_response = 0x0040

abbrev pub group_write : ℕ
group_write = 0x0080

abbrev pub apci_service_mask_10 : ℕ
apci_service_mask_10 = 0x03ff

abbrev pub apci_service_group_mask : ℕ
apci_service_group_mask = 0x03c0

abbrev pub apci_small_payload_mask : ℕ
apci_small_payload_mask = 0x3f

pub data ApduValue : Type 0 where
  small : ℕ → ApduValue
  bytes : Bytes → ApduValue

pub data Apci : Type 0 where
  group_value_read : Apci
  group_value_write group_value_response : ApduValue → Apci
  unknown : (service : ℕ) → (raw : Bytes) → Apci

-- `smallValue`.
unfoldable pub small_value : ℕ → Result ApduValue
small_value value = do
  throw_if (ltb apci_small_payload_mask value) conversion_error
  ok (small value)

value_npdu_length : ApduValue → ℕ
value_npdu_length (small v) = 1
value_npdu_length (bytes b) = 1 + length b

max_one : ℕ → ℕ
max_one n = if ltb n 1 then 1 else n

unfoldable pub apci_npdu_length : Apci → ℕ
unfolding value_npdu_length max_one
apci_npdu_length group_value_read = 1
apci_npdu_length (group_value_write v) = value_npdu_length v
apci_npdu_length (group_value_response v) = value_npdu_length v
apci_npdu_length (unknown service raw) = max_one (length raw - 1)

encode_cmd_and_payload : ℕ → Option ApduValue → Bytes
encode_cmd_and_payload service none = bit_and (shr service 8) 3 ∷ bit_and service 0xff ∷ []
encode_cmd_and_payload service (some (small v)) =
    bit_and (shr service 8) 3
    ∷ bit_or (bit_and service 0xff) (bit_and v apci_small_payload_mask)
    ∷ []
encode_cmd_and_payload service (some (bytes b)) =
    bit_and (shr service 8) 3 ∷ bit_and service 0xff ∷ b

unfoldable pub encode_apci : Apci → Bytes
unfolding encode_cmd_and_payload
encode_apci group_value_read = encode_cmd_and_payload group_read none
encode_apci (group_value_write v) = encode_cmd_and_payload group_write (some v)
encode_apci (group_value_response v) = encode_cmd_and_payload group_response (some v)
encode_apci (unknown service raw) = raw

extract_data : Bytes → ApduValue
extract_data apdu =
    if length apdu == 2
    then small (bit_and (byte_at apdu 1) apci_small_payload_mask)
    else bytes (drop 2 apdu)

unfoldable pub decode_apci : Bytes → Result Apci
unfolding extract_data
decode_apci apdu = do
  throw_if (ltb (length apdu) 2) conversion_error
  let apci_code = bit_and (bit_or (shl (byte_at apdu 0) 8) (byte_at apdu 1)) apci_service_mask_10
  let service = bit_and apci_code apci_service_group_mask
  ok (
      if service == group_read
      then group_value_read
      else if service == group_write
      then group_value_write (extract_data apdu)
      else if service == group_response
      then group_value_response (extract_data apdu)
      else unknown apci_code apdu)
