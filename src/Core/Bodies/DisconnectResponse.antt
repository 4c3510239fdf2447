-- ===== src/Core/Bodies/DisconnectResponse.antt =====
-- src/core/bodies/disconnectResponse.ts: the DISCONNECT_RESPONSE body, a channel and a status.
use node_red_contrib_eelectr.Base.{
  ℕ, ◌%◌, ◌<◌, refl, arith, ltb, [], ◌∷◌, Bytes, length, byte_at, Result, ok, ◌>>◌, throw_if,
  could_not_parse_knxip, PrefixRoundTrip,
}

pub record DisconnectResponse : Type 0 where
  pub communication_channel_id : ℕ
  pub status_code : ℕ

unfoldable pub calculated_length : DisconnectResponse → ℕ
calculated_length b = 2

unfoldable pub from_knx : Bytes → Result (DisconnectResponse × ℕ)
from_knx raw = do
  throw_if (ltb (length raw) 2) could_not_parse_knxip
  ok (record { communication_channel_id = byte_at raw 0; status_code = byte_at raw 1 }, 2)

unfoldable pub to_knx : DisconnectResponse → Result Bytes
to_knx b = ok (b.communication_channel_id % 256 ∷ b.status_code % 256 ∷ [])

pub record IsWire (b : DisconnectResponse) : Type 0 where
  pub channel_fits : b.communication_channel_id < 256
  pub status_fits : b.status_code < 256

pub round_trip :
    (b : DisconnectResponse) → IsWire b → PrefixRoundTrip to_knx from_knx (calculated_length b) b
unfolding to_knx from_knx calculated_length
round_trip b v = record {
  raw = b.communication_channel_id ∷ b.status_code ∷ [];
  written = ground (arith, v.channel_fits, v.status_fits);
  counted = refl;
  parsed = λ rest. ground arith;
}
