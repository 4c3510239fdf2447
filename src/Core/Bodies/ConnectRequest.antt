-- ===== src/Core/Bodies/ConnectRequest.antt =====
-- src/core/bodies/connectRequest.ts: the CONNECT_REQUEST body.
use node_red_contrib_eelectr.Base.{
  ℕ, ◌+◌, arith, ◌++◌, append_assoc, Bytes, length-append, drop, drop-exact, Result, ok, ◌>>=◌,
  PrefixRoundTrip,
}
use node_red_contrib_eelectr.Core.Hpai.{Hpai, hpai_length, route_back, ipv4_udp, ipv4_tcp}
use node_red_contrib_eelectr.Core.Hpai
use node_red_contrib_eelectr.Core.Hpai.RoundTrips as HpaiRoundTrips
use node_red_contrib_eelectr.Core.Hpai.RoundTrips.{hpai_round_trip}
use node_red_contrib_eelectr.Core.Cri.{Cri, cri_from_knx, cri_to_knx, cri_calculated_length}
use node_red_contrib_eelectr.Core.Cri.RoundTrips.{IsWireCri, cri_round_trip}

pub record ConnectRequest : Type 0 where
  pub control_endpoint : Hpai
  pub data_endpoint : Hpai
  pub cri : Cri

unfoldable pub calculated_length : ConnectRequest → ℕ
calculated_length b = hpai_length + hpai_length + cri_calculated_length b.cri

unfoldable pub from_knx : Bytes → Result (ConnectRequest × ℕ)
from_knx raw = do
  (ctrl, n) ← Hpai.from_knx raw
  (dat, m) ← Hpai.from_knx (drop n raw)
  (cri, k) ← cri_from_knx (drop (n + m) raw)
  ok (record { control_endpoint = ctrl; data_endpoint = dat; cri = cri }, n + m + k)

unfoldable pub to_knx : ConnectRequest → Result Bytes
to_knx b = do
  ctrl ← Hpai.to_knx b.control_endpoint
  dat ← Hpai.to_knx b.data_endpoint
  ok (ctrl ++ (dat ++ cri_to_knx b.cri))

pub record IsWire (b : ConnectRequest) : Type 0 where
  pub control_fits : HpaiRoundTrips.IsWire b.control_endpoint
  pub data_fits : HpaiRoundTrips.IsWire b.data_endpoint
  pub cri_fits : IsWireCri b.cri

pub round_trip :
    (b : ConnectRequest) → IsWire b → PrefixRoundTrip to_knx from_knx (calculated_length b) b
unfolding to_knx from_knx calculated_length
round_trip b v =
    let c = hpai_round_trip b.control_endpoint v.control_fits in
    let d = hpai_round_trip b.data_endpoint v.data_fits in
    let r = cri_round_trip b.cri v.cri_fits in
    record {
      raw = c.raw ++ (d.raw ++ r.raw);
      written = ground (arith, c.written, d.written, r.written);
      counted = ground (
        arith,
        c.counted,
        d.counted,
        r.counted,
        length-append c.raw (d.raw ++ r.raw),
        length-append d.raw r.raw,
      );
      parsed = λ rest. ground (
        arith,
        c.parsed (d.raw ++ (r.raw ++ rest)),
        d.parsed (r.raw ++ rest),
        r.parsed rest,
        append_assoc c.raw (d.raw ++ r.raw) rest,
        append_assoc d.raw r.raw rest,
        drop-exact hpai_length c.raw (d.raw ++ (r.raw ++ rest)) c.counted,
        append_assoc c.raw d.raw (r.raw ++ rest),
        drop-exact (hpai_length + hpai_length) (c.raw ++ d.raw) (r.raw ++ rest)
            (omega (arith, c.counted, d.counted, length-append c.raw d.raw)),
      );
    }
