-- ===== src/Core/Bodies/SearchResponse.antt =====
-- src/core/bodies/searchResponse.ts: the SEARCH_RESPONSE body with its device-info block (DIB).
pub mod DeviceInfo
pub mod RoundTrips
use node_red_contrib_eelectr.Base.{
  ℕ, zero, suc, ◌+◌, ◌-◌, ◌%◌, Bool, ◌&&◌, ◌==◌, not, ltb, leb, if◌then◌else◌, Option, none, some,
  List, [], ◌∷◌, ◌++◌, map, Bytes, length, byte_at, read_u16, u16_be, take, drop, Result, ok, err,
  ◌>>=◌, ◌>>◌, throw_if, could_not_parse_knxip, range_error,
}
use node_red_contrib_eelectr.Core.Text.{Text, split_on}
use node_red_contrib_eelectr.Core.Text.ParseInt.{parse_int_radix, byte_of}
use node_red_contrib_eelectr.Core.Text.ParseInt.Hex.{hex_byte, to_hex, from_hex}
use node_red_contrib_eelectr.Core.Address.{IndividualAddress}
use node_red_contrib_eelectr.Core.Address.Individual
use node_red_contrib_eelectr.Core.Hpai.{Hpai, hpai_length, bytes_to_ipv4}
use node_red_contrib_eelectr.Core.Hpai
use node_red_contrib_eelectr.Core.Cemi.{copy_padded}

pub record DeviceInfoDib : Type 0 where
  pub knx_medium : ℕ
  pub device_status : ℕ
  pub individual_address : IndividualAddress
  pub project_installation : ℕ
  pub serial : Text
  pub multicast_address : Text
  pub mac_address : Text
  pub friendly_name : Text

abbrev pub dib_device_info_len : ℕ
dib_device_info_len = 54

abbrev pub dib_type_device_info : ℕ
dib_type_device_info = 0x01

-- The pairs of digits joined by colons.
abbrev pub join_mac : Bytes → Text
join_mac [] = []
join_mac (b ∷ []) = hex_byte b
join_mac (b ∷ c ∷ bs) = hex_byte b ++ b':' ∷ join_mac (c ∷ bs)

-- The name ends at the first zero byte.
abbrev pub until_zero : Bytes → Text
until_zero [] = []
until_zero (b ∷ bs) = if b == 0 then [] else b ∷ until_zero bs

unfoldable pub parse_device_info : Bytes → Result DeviceInfoDib
parse_device_info dib = do
  throw_if (ltb (length dib) dib_device_info_len) could_not_parse_knxip
  throw_if (not (byte_at dib 0 == dib_device_info_len && byte_at dib 1 == dib_type_device_info))
      could_not_parse_knxip
  address ← Individual.from_knx (drop 4 dib)
  ok (record {
    knx_medium = byte_at dib 2;
    device_status = byte_at dib 3;
    individual_address = address;
    project_installation = read_u16 dib 6;
    serial = to_hex (take 6 (drop 8 dib));
    multicast_address = bytes_to_ipv4 (drop 14 dib);
    mac_address = join_mac (take 6 (drop 18 dib));
    friendly_name = until_zero (take 30 (drop 24 dib));
  })

pub record SearchResponse : Type 0 where
  pub control_endpoint : Hpai
  pub device_info : Option DeviceInfoDib
  pub trailing_dibs : Bytes

info_length : Option DeviceInfoDib → ℕ
info_length none = 0
info_length (some d) = dib_device_info_len

unfoldable pub calculated_length : SearchResponse → ℕ
unfolding info_length
calculated_length b = hpai_length + info_length b.device_info + length b.trailing_dibs

caught : Result DeviceInfoDib → Option DeviceInfoDib
caught (ok d) = some d
caught (err e) = none

-- The device info at the front, if there is one; an error in it is caught.
unfoldable pub leading_info : Bytes → Option DeviceInfoDib
unfolding caught
leading_info raw =
    if leb dib_device_info_len (length raw)
      && byte_at raw 1 == dib_type_device_info
      && byte_at raw 0 == dib_device_info_len
    then caught (parse_device_info (take (byte_at raw 0) raw))
    else none

unfoldable pub from_knx : Bytes → Result (SearchResponse × ℕ)
unfolding leading_info caught info_length
from_knx raw = do
  (hpai, hpai_len) ← Hpai.from_knx raw
  let device_info = leading_info (drop hpai_len raw)
  let trailing = drop (info_length device_info) (drop hpai_len raw)
  ok (
    record { control_endpoint = hpai; device_info = device_info; trailing_dibs = trailing },
    hpai_len + info_length device_info + length trailing,
  )

-- `mc[i] ?? 0` stored in a byte, for the first `n` segments.
stored_segments : ℕ → ℕ → List Text → Bytes
stored_segments radix zero ss = []
stored_segments radix (suc n) [] = 0 ∷ stored_segments radix n []
stored_segments radix (suc n) (s ∷ ss) =
    byte_of (parse_int_radix radix s) ∷ stored_segments radix n ss

unfoldable pub encode_device_info : DeviceInfoDib → Result Bytes
unfolding stored_segments
encode_device_info d = do
  throw_if (ltb 0xffff d.project_installation) range_error
  ok (
      dib_device_info_len
      ∷ dib_type_device_info
      ∷ d.knx_medium % 256
      ∷ d.device_status % 256
      ∷ (Individual.to_knx d.individual_address
          ++ (u16_be d.project_installation
              ++ (copy_padded 6 (from_hex d.serial)
                  ++ (stored_segments 10 4 (split_on b'.' d.multicast_address)
                      ++ (stored_segments 16 6 (split_on b':' d.mac_address)
                          ++ copy_padded 30 (map (λ c. c % 256) d.friendly_name)))))))

info_to_knx : Option DeviceInfoDib → Result Bytes
info_to_knx none = ok []
info_to_knx (some d) = encode_device_info d

unfoldable pub to_knx : SearchResponse → Result Bytes
unfolding info_to_knx
to_knx b = do
  endpoint ← Hpai.to_knx b.control_endpoint
  info ← info_to_knx b.device_info
  ok (endpoint ++ (info ++ b.trailing_dibs))
