-- ===== src/Core/Bodies/TunnellingAck.antt =====
-- src/core/bodies/tunnellingAck.ts: the TUNNELLING_ACK body.
use node_red_contrib_eelectr.Base.{
  ℕ, ◌%◌, ◌<◌, refl, arith, not, ◌==◌, ltb, [], ◌∷◌, Bytes, length, byte_at, Result, ok, ◌>>◌,
  throw_if, could_not_parse_knxip, PrefixRoundTrip,
}

pub record TunnellingAck : Type 0 where
  pub communication_channel_id : ℕ
  pub sequence_counter : ℕ
  pub status_code : ℕ

abbrev pub struct_length : ℕ
struct_length = 0x04

-- The constructor keeps eight bits of the counter.
unfoldable pub new_tunnelling_ack : ℕ → ℕ → ℕ → TunnellingAck
new_tunnelling_ack channel seq status = record {
  communication_channel_id = channel;
  sequence_counter = seq % 256;
  status_code = status;
}

unfoldable pub calculated_length : TunnellingAck → ℕ
calculated_length b = struct_length

unfoldable pub from_knx : Bytes → Result (TunnellingAck × ℕ)
unfolding new_tunnelling_ack
from_knx raw = do
  throw_if (ltb (length raw) struct_length) could_not_parse_knxip
  throw_if (not (byte_at raw 0 == struct_length)) could_not_parse_knxip
  ok (new_tunnelling_ack (byte_at raw 1) (byte_at raw 2) (byte_at raw 3), struct_length)

unfoldable pub to_knx : TunnellingAck → Result Bytes
to_knx b = ok (
    struct_length
    ∷ b.communication_channel_id % 256
    ∷ b.sequence_counter % 256
    ∷ b.status_code % 256
    ∷ [])

pub record IsWire (b : TunnellingAck) : Type 0 where
  pub channel_fits : b.communication_channel_id < 256
  pub sequence_fits : b.sequence_counter < 256
  pub status_fits : b.status_code < 256

pub round_trip :
    (b : TunnellingAck) → IsWire b → PrefixRoundTrip to_knx from_knx (calculated_length b) b
unfolding to_knx from_knx calculated_length
round_trip b v = record {
  raw = struct_length ∷ b.communication_channel_id ∷ b.sequence_counter ∷ b.status_code ∷ [];
  written = ground (arith, v.channel_fits, v.sequence_fits, v.status_fits);
  counted = refl;
  parsed = λ rest. ground (arith, v.sequence_fits);
}
