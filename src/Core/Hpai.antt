-- ===== src/Core/Hpai.antt =====
-- src/core/hpai.ts: host protocol address information, eight bytes.
pub mod RoundTrips
use node_red_contrib_eelectr.Base.{
  ℕ, ◌+◌, ◌%◌, Bool, true, false, not, ◌&&◌, ◌==◌, ltb, leb, if◌then◌else◌, List, [], ◌∷◌, ◌++◌,
  Bytes, length, byte_at, read_u16, u16_be, drop, list_eq, Result, ok, err, ◌>>=◌, ◌>>◌, throw_if,
  type_error, range_error, could_not_parse_knxip, list_eq,
}
use node_red_contrib_eelectr.Core.Text.{Text, is_field, parse_int, show, split_on}

pub data HostProtocol : Type 0 where
  ipv4_udp ipv4_tcp : HostProtocol

abbrev pub protocol_byte : HostProtocol → ℕ
protocol_byte ipv4_udp = 0x01
protocol_byte ipv4_tcp = 0x02

octet : Text → Result ℕ
octet s = if leb (parse_int s) 255 then ok (parse_int s) else err type_error

-- `IPV4_RE` is four fields of one to three digits between dots.
octets : List Text → Result Bytes
octets (a ∷ b ∷ c ∷ d ∷ []) = do
  throw_if (not (is_field 3 a && is_field 3 b && is_field 3 c && is_field 3 d)) type_error
  x ← octet a
  y ← octet b
  z ← octet c
  w ← octet d
  ok (x ∷ y ∷ z ∷ w ∷ [])
octets _ = err type_error

unfoldable pub ipv4_to_bytes : Text → Result Bytes
unfolding octets octet
ipv4_to_bytes ip = octets (split_on b'.' ip)

abbrev pub dotted : ℕ → ℕ → ℕ → ℕ → Text
dotted a b c d = show a ++ b'.' ∷ (show b ++ b'.' ∷ (show c ++ b'.' ∷ show d))

unfoldable pub bytes_to_ipv4 : Bytes → Text
bytes_to_ipv4 buf = dotted (byte_at buf 0) (byte_at buf 1) (byte_at buf 2) (byte_at buf 3)

pub record Hpai : Type 0 where
  pub ip : Text
  pub port : ℕ
  pub protocol : HostProtocol

abbrev pub hpai_length : ℕ
hpai_length = 0x08

-- The constructor.
unfoldable pub new_hpai : Text → ℕ → HostProtocol → Result Hpai
new_hpai ip port protocol = do
  throw_if (ltb 0xffff port) type_error
  bs ← ipv4_to_bytes ip
  ok (record { ip = ip; port = port; protocol = protocol })

abbrev pub any_ip : Text
any_ip = b'0' ∷ b'.' ∷ b'0' ∷ b'.' ∷ b'0' ∷ b'.' ∷ b'0' ∷ []

-- `HPAI.routeBack`; `new_hpai-any_ip` shows that its constructor call does not throw.
unfoldable pub route_back : HostProtocol → Hpai
route_back protocol = record { ip = any_ip; port = 0; protocol = protocol }

unfoldable pub is_route_back : Hpai → Bool
unfolding list_eq
is_route_back h = list_eq h.ip any_ip && h.port == 0

parse_protocol : ℕ → Result HostProtocol
parse_protocol b =
    if b == 0x01 then ok ipv4_udp else if b == 0x02 then ok ipv4_tcp else err could_not_parse_knxip

unfoldable pub from_knx : Bytes → Result (Hpai × ℕ)
unfolding parse_protocol
from_knx raw = do
  throw_if (ltb (length raw) hpai_length) could_not_parse_knxip
  throw_if (not (byte_at raw 0 == hpai_length)) could_not_parse_knxip
  protocol ← parse_protocol (byte_at raw 1)
  h ← new_hpai (bytes_to_ipv4 (drop 2 raw)) (read_u16 raw 6) protocol
  ok (h, hpai_length)

unfoldable pub to_knx : Hpai → Result Bytes
to_knx h = do
  addr ← ipv4_to_bytes h.ip
  throw_if (ltb 0xffff h.port) range_error
  ok (hpai_length ∷ protocol_byte h.protocol ∷ (addr ++ u16_be h.port))
