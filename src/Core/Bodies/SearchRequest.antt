-- ===== src/Core/Bodies/SearchRequest.antt =====
-- src/core/bodies/searchRequest.ts: the SEARCH_REQUEST body.
use node_red_contrib_eelectr.Base.{ℕ, arith, Bytes, Result, ok, ◌>>=◌, PrefixRoundTrip}
use node_red_contrib_eelectr.Core.Hpai.{Hpai, hpai_length, route_back, ipv4_udp, ipv4_tcp}
use node_red_contrib_eelectr.Core.Hpai
use node_red_contrib_eelectr.Core.Hpai.RoundTrips as HpaiRoundTrips
use node_red_contrib_eelectr.Core.Hpai.RoundTrips.{hpai_round_trip}

pub record SearchRequest : Type 0 where
  pub control_endpoint : Hpai

unfoldable pub calculated_length : SearchRequest → ℕ
calculated_length b = hpai_length

unfoldable pub from_knx : Bytes → Result (SearchRequest × ℕ)
from_knx raw = do
  (hpai, bytes_read) ← Hpai.from_knx raw
  ok (record { control_endpoint = hpai }, bytes_read)

unfoldable pub to_knx : SearchRequest → Result Bytes
to_knx b = Hpai.to_knx b.control_endpoint

pub record IsWire (b : SearchRequest) : Type 0 where
  pub endpoint_fits : HpaiRoundTrips.IsWire b.control_endpoint

pub round_trip :
    (b : SearchRequest) → IsWire b → PrefixRoundTrip to_knx from_knx (calculated_length b) b
unfolding to_knx from_knx calculated_length
round_trip b v =
    let h = hpai_round_trip b.control_endpoint v.endpoint_fits in
    record {
      raw = h.raw;
      written = h.written;
      counted = h.counted;
      parsed = λ rest. ground (arith, h.parsed rest);
    }
