-- ===== src/Core/Bodies/ConnectionStateRequest.antt =====
-- src/core/bodies/connectionStateRequest.ts: the CONNECTIONSTATE_REQUEST body.
use node_red_contrib_eelectr.Base.{
  ℕ, ◌+◌, ◌%◌, ◌<◌, arith, ltb, ◌∷◌, Bytes, length, length-append, byte_at, drop, Result, ok, ◌>>=◌,
  ◌>>◌, throw_if, could_not_parse_knxip, PrefixRoundTrip,
}
use node_red_contrib_eelectr.Core.Hpai.{Hpai, hpai_length, route_back, ipv4_udp, ipv4_tcp}
use node_red_contrib_eelectr.Core.Hpai
use node_red_contrib_eelectr.Core.Hpai.RoundTrips as HpaiRoundTrips
use node_red_contrib_eelectr.Core.Hpai.RoundTrips.{hpai_round_trip}

pub record ConnectionStateRequest : Type 0 where
  pub communication_channel_id : ℕ
  pub control_endpoint : Hpai

unfoldable pub calculated_length : ConnectionStateRequest → ℕ
calculated_length b = 2 + hpai_length

unfoldable pub from_knx : Bytes → Result (ConnectionStateRequest × ℕ)
from_knx raw = do
  throw_if (ltb (length raw) (2 + hpai_length)) could_not_parse_knxip
  (hpai, bytes_read) ← Hpai.from_knx (drop 2 raw)
  ok (record { communication_channel_id = byte_at raw 0; control_endpoint = hpai }, 2 + bytes_read)

unfoldable pub to_knx : ConnectionStateRequest → Result Bytes
to_knx b = do
  endpoint ← Hpai.to_knx b.control_endpoint
  ok (b.communication_channel_id % 256 ∷ 0x00 ∷ endpoint)

pub record IsWire (b : ConnectionStateRequest) : Type 0 where
  pub channel_fits : b.communication_channel_id < 256
  pub endpoint_fits : HpaiRoundTrips.IsWire b.control_endpoint

pub round_trip :
    (b : ConnectionStateRequest)
    → IsWire b
    → PrefixRoundTrip to_knx from_knx (calculated_length b) b
unfolding to_knx from_knx calculated_length
round_trip b v =
    let h = hpai_round_trip b.control_endpoint v.endpoint_fits in
    record {
      raw = b.communication_channel_id ∷ 0x00 ∷ h.raw;
      written = ground (arith, h.written, v.channel_fits);
      counted = ground (arith, h.counted);
      parsed = λ rest. ground (arith, h.parsed rest, h.counted, length-append h.raw rest);
    }
