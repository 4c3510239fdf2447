-- ===== src/Core/Bodies/SessionResponse.antt =====
-- src/core/bodies/sessionResponse.ts: the SESSION_RESPONSE body.
use node_red_contrib_eelectr.Base.{
  ℕ, ◌+◌, ◌/◌, ◌%◌, ◌^◌, ◌<◌, ◌≡◌, arith, not, ◌==◌, ltb, ◌∷◌, ◌++◌, append_assoc, Bytes, length,
  length-append, read_u16, u16_be, take, drop, take-exact, drop-exact, Result, ok, ◌>>=◌, ◌>>◌,
  throw_if, could_not_parse_knxip, range_error, PrefixRoundTrip,
}
use node_red_contrib_eelectr.Core.Bodies.SessionRequest.{x25519_public_key_len}
use node_red_contrib_eelectr.Core.Bodies.SessionAuthenticate.{secure_mac_len}

pub record SessionResponse : Type 0 where
  pub session_id : ℕ
  pub public_key : Bytes
  pub mac : Bytes

-- The constructor.
unfoldable pub new_session_response : ℕ → Bytes → Bytes → Result SessionResponse
new_session_response session_id public_key mac = do
  throw_if (not (length public_key == x25519_public_key_len)) range_error
  throw_if (not (length mac == secure_mac_len)) range_error
  ok (record { session_id = session_id; public_key = public_key; mac = mac })

unfoldable pub calculated_length : SessionResponse → ℕ
calculated_length b = 2 + x25519_public_key_len + secure_mac_len

unfoldable pub from_knx : Bytes → Result (SessionResponse × ℕ)
from_knx raw = do
  throw_if (ltb (length raw) (2 + x25519_public_key_len + secure_mac_len)) could_not_parse_knxip
  b ←
      new_session_response (read_u16 raw 0) (take x25519_public_key_len (drop 2 raw))
        (take secure_mac_len (drop (2 + x25519_public_key_len) raw))
  ok (b, 2 + x25519_public_key_len + secure_mac_len)

unfoldable pub to_knx : SessionResponse → Result Bytes
to_knx b = do
  throw_if (ltb 0xffff b.session_id) range_error
  ok (u16_be b.session_id ++ (b.public_key ++ b.mac))

pub record IsWire (b : SessionResponse) : Type 0 where
  pub session_fits : b.session_id < 2 ^ 16
  pub key_fits : length b.public_key ≡ x25519_public_key_len
  pub mac_fits : length b.mac ≡ secure_mac_len

pub round_trip :
    (b : SessionResponse) → IsWire b → PrefixRoundTrip to_knx from_knx (calculated_length b) b
unfolding to_knx from_knx calculated_length new_session_response
round_trip b v = record {
  raw = b.session_id / 256 ∷ b.session_id % 256 ∷ (b.public_key ++ b.mac);
  written = ground (arith, v.session_fits);
  counted = ground (arith, v.key_fits, v.mac_fits, length-append b.public_key b.mac);
  parsed = λ rest. ground (
    arith,
    v.session_fits,
    v.key_fits,
    v.mac_fits,
    append_assoc b.public_key b.mac rest,
    length-append b.public_key (b.mac ++ rest),
    length-append b.mac rest,
    take-exact x25519_public_key_len b.public_key (b.mac ++ rest) v.key_fits,
    drop-exact x25519_public_key_len b.public_key (b.mac ++ rest) v.key_fits,
    take-exact secure_mac_len b.mac rest v.mac_fits,
  );
}
