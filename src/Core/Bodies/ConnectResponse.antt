-- ===== src/Core/Bodies/ConnectResponse.antt =====
-- src/core/bodies/connectResponse.ts: the CONNECT_RESPONSE body, which ends after the status if that
-- is an error.
use node_red_contrib_eelectr.Base.{
  ℕ, ◌+◌, ◌%◌, ◌<◌, ◌≡◌, ◌≢◌, arith, not, ◌==◌, ltb, if◌then◌else◌, [], ◌∷◌, ◌++◌, append_assoc,
  Bytes, length, length-append, byte_at, drop, drop-exact, Result, ok, ◌>>=◌, ◌>>◌, throw_if,
  could_not_parse_knxip, PrefixRoundTrip,
}
use node_red_contrib_eelectr.Core.Hpai.{Hpai, hpai_length, route_back, ipv4_udp, ipv4_tcp}
use node_red_contrib_eelectr.Core.Hpai
use node_red_contrib_eelectr.Core.Hpai.RoundTrips as HpaiRoundTrips
use node_red_contrib_eelectr.Core.Hpai.RoundTrips.{hpai_round_trip}
use node_red_contrib_eelectr.Core.Cri.{
  Crd, default_crd, crd_from_knx, crd_to_knx, crd_calculated_length,
}
use node_red_contrib_eelectr.Core.Cri.RoundTrips.{IsWireCrd, crd_round_trip}

pub record ConnectResponse : Type 0 where
  pub communication_channel_id : ℕ
  pub status_code : ℕ
  pub data_endpoint : Hpai
  pub crd : Crd

unfoldable pub calculated_length : ConnectResponse → ℕ
calculated_length b = 2 + hpai_length + crd_calculated_length b.crd

accepted_from_knx : ℕ → ℕ → Bytes → Result (ConnectResponse × ℕ)
accepted_from_knx channel status raw = do
  (hpai, n) ← Hpai.from_knx (drop 2 raw)
  (crd, m) ← crd_from_knx (drop (2 + n) raw)
  ok (
    record {
      communication_channel_id = channel;
      status_code = status;
      data_endpoint = hpai;
      crd = crd;
    },
    2 + n + m,
  )

unfoldable pub from_knx : Bytes → Result (ConnectResponse × ℕ)
unfolding accepted_from_knx
from_knx raw = do
  throw_if (ltb (length raw) 2) could_not_parse_knxip
  let channel_id = byte_at raw 0
  let status_code = byte_at raw 1
  let refused = ok (
    record {
      communication_channel_id = channel_id;
      status_code = status_code;
      data_endpoint = route_back ipv4_udp;
      crd = default_crd;
    },
    2,
  )
  if not (status_code == 0) then refused else accepted_from_knx channel_id status_code raw

accepted_to_knx : ConnectResponse → Result Bytes
accepted_to_knx b = do
  endpoint ← Hpai.to_knx b.data_endpoint
  ok (b.communication_channel_id % 256 ∷ b.status_code % 256 ∷ (endpoint ++ crd_to_knx b.crd))

unfoldable pub to_knx : ConnectResponse → Result Bytes
unfolding accepted_to_knx
to_knx b =
    if not (b.status_code == 0)
    then ok (b.communication_channel_id % 256 ∷ b.status_code % 256 ∷ [])
    else accepted_to_knx b

pub record IsWire (b : ConnectResponse) : Type 0 where
  pub channel_fits : b.communication_channel_id < 256
  pub accepted : b.status_code ≡ 0
  pub endpoint_fits : HpaiRoundTrips.IsWire b.data_endpoint
  pub crd_fits : IsWireCrd b.crd

pub round_trip :
    (b : ConnectResponse) → IsWire b → PrefixRoundTrip to_knx from_knx (calculated_length b) b
unfolding to_knx from_knx calculated_length
round_trip b v =
    let d = hpai_round_trip b.data_endpoint v.endpoint_fits in
    let r = crd_round_trip b.crd v.crd_fits in
    record {
      raw = b.communication_channel_id ∷ 0 ∷ (d.raw ++ r.raw);
      written = ground (arith, v.accepted, v.channel_fits, d.written, r.written);
      counted = ground (arith, d.counted, r.counted, length-append d.raw r.raw);
      parsed = λ rest. ground (
        arith,
        v.accepted,
        d.parsed (r.raw ++ rest),
        r.parsed rest,
        append_assoc d.raw r.raw rest,
        drop-exact hpai_length d.raw (r.raw ++ rest) d.counted,
      );
    }

-- A refused connection travels as channel and status alone, and comes back with the defaults.
pub refused_round_trip :
    (channel status : ℕ) (rest : Bytes)
    → channel < 256
    → status < 256
    → status ≢ 0
    → let refused : ConnectResponse = record {
      communication_channel_id = channel;
      status_code = status;
      data_endpoint = route_back ipv4_udp;
      crd = default_crd;
    } in
      (to_knx refused ≡ ok (channel ∷ status ∷ []))
      × (from_knx (channel ∷ status ∷ rest) ≡ ok (refused, 2))
unfolding to_knx from_knx
refused_round_trip channel status rest hc hs h = (ground arith, ground arith)
