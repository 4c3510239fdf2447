-- ===== src/Core/Bodies/TunnellingRequest.antt =====
-- src/core/bodies/tunnellingRequest.ts: the TUNNELLING_REQUEST body, a cEMI frame with its channel
-- and sequence counter. The body takes all the bytes that are left.
use node_red_contrib_eelectr.Base.{
  ℕ, ◌+◌, ◌%◌, ◌<◌, arith, not, ◌==◌, ltb, ◌∷◌, Bytes, length, byte_at, drop, Result, ok, ◌>>◌,
  throw_if, could_not_parse_knxip, RoundTrip,
}

pub record TunnellingRequest : Type 0 where
  pub communication_channel_id : ℕ
  pub sequence_counter : ℕ
  pub raw_cemi : Bytes

abbrev pub struct_length : ℕ
struct_length = 0x04

-- The constructor keeps eight bits of the counter.
unfoldable pub new_tunnelling_request : ℕ → ℕ → Bytes → TunnellingRequest
new_tunnelling_request channel seq cemi = record {
  communication_channel_id = channel;
  sequence_counter = seq % 256;
  raw_cemi = cemi;
}

unfoldable pub calculated_length : TunnellingRequest → ℕ
calculated_length b = struct_length + length b.raw_cemi

unfoldable pub from_knx : Bytes → Result (TunnellingRequest × ℕ)
unfolding new_tunnelling_request
from_knx raw = do
  throw_if (ltb (length raw) struct_length) could_not_parse_knxip
  let struct_len = byte_at raw 0
  throw_if (not (struct_len == struct_length)) could_not_parse_knxip
  let raw_cemi = drop struct_len raw
  ok (new_tunnelling_request (byte_at raw 1) (byte_at raw 2) raw_cemi, struct_len + length raw_cemi)

unfoldable pub to_knx : TunnellingRequest → Result Bytes
to_knx b = ok (
    struct_length ∷ b.communication_channel_id % 256 ∷ b.sequence_counter % 256 ∷ 0x00 ∷ b.raw_cemi)

pub record IsWire (b : TunnellingRequest) : Type 0 where
  pub channel_fits : b.communication_channel_id < 256
  pub sequence_fits : b.sequence_counter < 256

pub round_trip :
    (b : TunnellingRequest) → IsWire b → RoundTrip to_knx from_knx (calculated_length b) b
unfolding to_knx from_knx calculated_length
round_trip b v = record {
  raw = struct_length ∷ b.communication_channel_id ∷ b.sequence_counter ∷ 0x00 ∷ b.raw_cemi;
  written = ground (arith, v.channel_fits, v.sequence_fits);
  counted = ground arith;
  parsed = ground (arith, v.sequence_fits);
}
