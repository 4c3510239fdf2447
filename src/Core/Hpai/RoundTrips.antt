-- ===== src/Core/Hpai/RoundTrips.antt =====
-- HPAI structures survive the wire.
use node_red_contrib_eelectr.Base.{
  ℕ, ◌/◌, ◌%◌, ◌^◌, ◌<◌, ◌≡◌, refl, arith, ap, [], ◌∷◌, ok, PrefixRoundTrip,
}
use node_red_contrib_eelectr.Core.Text.{
  show, split_on, parse_int-show, show-digits, show-is_field, split_on-append, split_on-digits,
  is_field, parse_int,
}
use node_red_contrib_eelectr.Core.Hpai.{
  HostProtocol, ipv4_udp, ipv4_tcp, protocol_byte, octet, ipv4_to_bytes, dotted, bytes_to_ipv4,
  Hpai, new_hpai, any_ip, hpai_length, from_knx, to_knx, parse_protocol,
}

pub split_dotted :
    (a b c d : ℕ) → split_on b'.' (dotted a b c d) ≡ show a ∷ show b ∷ show c ∷ show d ∷ []
split_dotted a b c d =
    rw
      (
        split_on-append b'.' (show a) _ refl (show-digits a),
        split_on-append b'.' (show b) _ refl (show-digits b),
        split_on-append b'.' (show c) _ refl (show-digits c),
      )
      (ap (λ t. show a ∷ show b ∷ show c ∷ t) (split_on-digits b'.' (show d) refl (show-digits d)))

-- A dotted quad of bytes is read back.
pub ipv4_to_bytes-dotted :
    (a b c d : ℕ)
    → a < 256
    → b < 256
    → c < 256
    → d < 256
    → ipv4_to_bytes (dotted a b c d) ≡ ok (a ∷ b ∷ c ∷ d ∷ [])
unfolding ipv4_to_bytes octet
ipv4_to_bytes-dotted a b c d ha hb hc hd = ground (
  arith,
  split_dotted a b c d,
  show-is_field 2 a,
  show-is_field 2 b,
  show-is_field 2 c,
  show-is_field 2 d,
  parse_int-show a,
  parse_int-show b,
  parse_int-show c,
  parse_int-show d,
)

new_hpai-any_ip :
    (p : HostProtocol) → new_hpai any_ip 0 p ≡ ok (record { ip = any_ip; port = 0; protocol = p })
unfolding new_hpai ipv4_to_bytes is_field parse_int split_on
new_hpai-any_ip p = refl

-- An address in canonical notation and a port in range.
pub record IsWire (h : Hpai) : Type 0 where
  pub a : ℕ
  pub b : ℕ
  pub c : ℕ
  pub d : ℕ
  pub quad : h.ip ≡ dotted a b c d
  pub in_range : (a < 256) × (b < 256) × (c < 256) × (d < 256)
  pub port_fits : h.port < 2 ^ 16

protocol_lem : (p : HostProtocol) → parse_protocol (protocol_byte p) ≡ ok p
unfolding parse_protocol
protocol_lem ipv4_udp = refl
protocol_lem ipv4_tcp = refl

-- An HPAI with an address in canonical dotted notation and a port below 2 ^ 16 is written without
-- an error, in eight bytes, and the parser reads it back from them, whatever follows.
pub hpai_round_trip : (h : Hpai) → IsWire h → PrefixRoundTrip to_knx from_knx hpai_length h
unfolding to_knx from_knx new_hpai bytes_to_ipv4
hpai_round_trip h v =
    let quad =
      ipv4_to_bytes-dotted v.a v.b v.c v.d v.in_range.0 v.in_range.1 v.in_range.2 v.in_range.3 in
    record {
      raw =
          hpai_length
          ∷ protocol_byte h.protocol
          ∷ v.a
          ∷ v.b
          ∷ v.c
          ∷ v.d
          ∷ h.port / 256
          ∷ h.port % 256
          ∷ [];
      written = ground (arith, v.quad, quad, v.port_fits);
      counted = refl;
      parsed = λ rest. ground (arith, v.quad, quad, v.port_fits, protocol_lem h.protocol);
    }
