-- ===== src/Core/Header.antt =====
-- src/core/knxipHeader.ts: the fixed six bytes in front of each KNX/IP frame.
use node_red_contrib_eelectr.Base.{
  ℕ, ◌/◌, ◌%◌, ◌^◌, ◌<◌, refl, arith, not, ◌==◌, ltb, [], ◌∷◌, ◌++◌, Bytes, length, byte_at,
  read_u16, u16_be, Result, ok, ◌>>◌, throw_if, range_error, could_not_parse_knxip,
  incomplete_knxip_frame, PrefixRoundTrip,
}

pub record KnxipHeader : Type 0 where
  pub service_type : ℕ
  pub total_length : ℕ

abbrev pub header_length : ℕ
header_length = 0x06

abbrev pub knxnetip_version_10 : ℕ
knxnetip_version_10 = 0x10

unfoldable pub header_from_knx : Bytes → Result (KnxipHeader × ℕ)
header_from_knx raw = do
  throw_if (ltb (length raw) header_length) incomplete_knxip_frame
  throw_if (not (byte_at raw 0 == header_length)) could_not_parse_knxip
  throw_if (not (byte_at raw 1 == knxnetip_version_10)) could_not_parse_knxip
  ok (record { service_type = read_u16 raw 2; total_length = read_u16 raw 4 }, header_length)

-- `writeUInt16BE` throws on a value that does not fit.
unfoldable pub header_to_knx : KnxipHeader → Result Bytes
header_to_knx h = do
  throw_if (ltb 0xffff h.service_type) range_error
  throw_if (ltb 0xffff h.total_length) range_error
  ok (header_length ∷ knxnetip_version_10 ∷ (u16_be h.service_type ++ u16_be h.total_length))

pub header_round_trip :
    (h : KnxipHeader)
    → h.service_type < 2 ^ 16
    → h.total_length < 2 ^ 16
    → PrefixRoundTrip header_to_knx header_from_knx header_length h
unfolding header_to_knx header_from_knx
header_round_trip h hs hl = record {
  raw =
      header_length
      ∷ knxnetip_version_10
      ∷ h.service_type / 256
      ∷ h.service_type % 256
      ∷ h.total_length / 256
      ∷ h.total_length % 256
      ∷ [];
  written = ground arith;
  counted = refl;
  parsed = λ rest. ground arith;
}
