-- ===== src/Core/Bodies/SessionAuthenticate.antt =====
-- src/core/bodies/sessionAuthenticate.ts: the SESSION_AUTHENTICATE body.
use node_red_contrib_eelectr.Base.{
  ℕ, ◌%◌, ◌≤◌, ◌≡◌, arith, not, ◌&&◌, ◌==◌, ltb, leb, ◌∷◌, Bytes, length, length-append, byte_at,
  take, drop, take-exact, Result, ok, ◌>>=◌, ◌>>◌, throw_if, could_not_parse_knxip, range_error,
  PrefixRoundTrip,
}

abbrev pub secure_mac_len : ℕ
secure_mac_len = 16

abbrev pub session_authenticate_length : ℕ
session_authenticate_length = 18

pub record SessionAuthenticate : Type 0 where
  pub user_id : ℕ
  pub mac : Bytes

-- The constructor.
unfoldable pub new_session_authenticate : ℕ → Bytes → Result SessionAuthenticate
new_session_authenticate user_id mac = do
  throw_if (not (leb 1 user_id && leb user_id 127)) range_error
  throw_if (not (length mac == secure_mac_len)) range_error
  ok (record { user_id = user_id; mac = mac })

unfoldable pub calculated_length : SessionAuthenticate → ℕ
calculated_length b = session_authenticate_length

unfoldable pub from_knx : Bytes → Result (SessionAuthenticate × ℕ)
from_knx raw = do
  throw_if (ltb (length raw) session_authenticate_length) could_not_parse_knxip
  b ← new_session_authenticate (byte_at raw 1) (take secure_mac_len (drop 2 raw))
  ok (b, session_authenticate_length)

unfoldable pub to_knx : SessionAuthenticate → Result Bytes
to_knx b = ok (0x00 ∷ b.user_id % 256 ∷ b.mac)

pub record IsWire (b : SessionAuthenticate) : Type 0 where
  pub user_fits : (1 ≤ b.user_id) × (b.user_id ≤ 127)
  pub mac_fits : length b.mac ≡ secure_mac_len

pub round_trip :
    (b : SessionAuthenticate) → IsWire b → PrefixRoundTrip to_knx from_knx (calculated_length b) b
unfolding to_knx from_knx calculated_length new_session_authenticate
round_trip b v = record {
  raw = 0x00 ∷ b.user_id ∷ b.mac;
  written = ground (arith, v.user_fits);
  counted = ground (arith, v.mac_fits);
  parsed = λ rest. ground (
    arith,
    v.user_fits,
    v.mac_fits,
    length-append b.mac rest,
    take-exact secure_mac_len b.mac rest v.mac_fits,
  );
}
