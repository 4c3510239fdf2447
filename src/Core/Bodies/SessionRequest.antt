-- ===== src/Core/Bodies/SessionRequest.antt =====
-- src/core/bodies/sessionRequest.ts: the SESSION_REQUEST body.
use node_red_contrib_eelectr.Base.{
  ℕ, ◌+◌, ◌≡◌, arith, not, ◌==◌, ltb, Option, none, some, ◌++◌, append_assoc, Bytes, length,
  length-append, take, drop, take-exact, drop-exact, Result, ok, ◌>>=◌, ◌>>◌, throw_if,
  could_not_parse_knxip, range_error, PrefixRoundTrip,
}
use node_red_contrib_eelectr.Core.Hpai.{Hpai, hpai_length, route_back, ipv4_udp, ipv4_tcp}
use node_red_contrib_eelectr.Core.Hpai
use node_red_contrib_eelectr.Core.Hpai.RoundTrips as HpaiRoundTrips
use node_red_contrib_eelectr.Core.Hpai.RoundTrips.{hpai_round_trip}

abbrev pub x25519_public_key_len : ℕ
x25519_public_key_len = 32

pub record SessionRequest : Type 0 where
  pub control_endpoint : Hpai
  pub public_key : Bytes

-- The constructor; a missing endpoint is route-back over TCP.
unfoldable pub new_session_request : Option Hpai → Bytes → Result SessionRequest
new_session_request endpoint public_key = do
  throw_if (not (length public_key == x25519_public_key_len)) range_error
  ok (record {
    control_endpoint = elim endpoint [ none ↦ route_back ipv4_tcp | some h ↦ h ];
    public_key = public_key;
  })

unfoldable pub calculated_length : SessionRequest → ℕ
calculated_length b = hpai_length + x25519_public_key_len

unfoldable pub from_knx : Bytes → Result (SessionRequest × ℕ)
from_knx raw = do
  throw_if (ltb (length raw) (hpai_length + x25519_public_key_len)) could_not_parse_knxip
  (hpai, hpai_bytes) ← Hpai.from_knx raw
  b ← new_session_request (some hpai) (take x25519_public_key_len (drop hpai_bytes raw))
  ok (b, hpai_bytes + x25519_public_key_len)

unfoldable pub to_knx : SessionRequest → Result Bytes
to_knx b = do endpoint ← Hpai.to_knx b.control_endpoint; ok (endpoint ++ b.public_key)

pub record IsWire (b : SessionRequest) : Type 0 where
  pub endpoint_fits : HpaiRoundTrips.IsWire b.control_endpoint
  pub key_fits : length b.public_key ≡ x25519_public_key_len

pub round_trip :
    (b : SessionRequest) → IsWire b → PrefixRoundTrip to_knx from_knx (calculated_length b) b
unfolding to_knx from_knx calculated_length new_session_request
round_trip b v =
    let h = hpai_round_trip b.control_endpoint v.endpoint_fits in
    record {
      raw = h.raw ++ b.public_key;
      written = ground (arith, h.written);
      counted = ground (arith, h.counted, v.key_fits, length-append h.raw b.public_key);
      parsed = λ rest. ground (
        arith,
        h.parsed (b.public_key ++ rest),
        h.counted,
        v.key_fits,
        append_assoc h.raw b.public_key rest,
        length-append h.raw (b.public_key ++ rest),
        length-append b.public_key rest,
        drop-exact hpai_length h.raw (b.public_key ++ rest) h.counted,
        take-exact x25519_public_key_len b.public_key rest v.key_fits,
      );
    }
