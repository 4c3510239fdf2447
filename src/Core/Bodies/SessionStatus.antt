-- ===== src/Core/Bodies/SessionStatus.antt =====
-- src/core/bodies/sessionStatus.ts: the SESSION_STATUS body, one byte.
use node_red_contrib_eelectr.Base.{
  ℕ, ◌%◌, ◌<◌, refl, arith, ltb, [], ◌∷◌, Bytes, length, byte_at, Result, ok, ◌>>◌, throw_if,
  could_not_parse_knxip, PrefixRoundTrip,
}

abbrev pub authentication_success : ℕ
authentication_success = 0x00

abbrev pub keepalive : ℕ
keepalive = 0x04

abbrev pub close : ℕ
close = 0x05

pub record SessionStatus : Type 0 where
  pub status : ℕ

unfoldable pub calculated_length : SessionStatus → ℕ
calculated_length b = 1

unfoldable pub from_knx : Bytes → Result (SessionStatus × ℕ)
from_knx raw = do
  throw_if (ltb (length raw) 1) could_not_parse_knxip
  ok (record { status = byte_at raw 0 }, 1)

unfoldable pub to_knx : SessionStatus → Result Bytes
to_knx b = ok (b.status % 256 ∷ [])

pub record IsWire (b : SessionStatus) : Type 0 where
  pub status_fits : b.status < 256

pub round_trip :
    (b : SessionStatus) → IsWire b → PrefixRoundTrip to_knx from_knx (calculated_length b) b
unfolding to_knx from_knx calculated_length
round_trip b v = record {
  raw = b.status ∷ [];
  written = ground (arith, v.status_fits);
  counted = refl;
  parsed = λ rest. ground arith;
}
