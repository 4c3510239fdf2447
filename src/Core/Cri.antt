-- ===== src/Core/Cri.antt =====
-- src/core/cri.ts: connection request information and connection response data.
pub mod RoundTrips
use node_red_contrib_eelectr.Base.{
  ℕ, ◌+◌, ◌%◌, Bool, true, false, not, ◌&&◌, ◌==◌, ltb, if◌then◌else◌, Option, none, some, List, [],
  ◌∷◌, ◌++◌, Bytes, length, byte_at, drop, Result, ok, err, ◌>>=◌, ◌>>◌, throw_if,
  could_not_parse_knxip,
}
use node_red_contrib_eelectr.Core.Address.{IndividualAddress}
use node_red_contrib_eelectr.Core.Address.Individual

abbrev pub tunnel_connection : ℕ
tunnel_connection = 0x04

abbrev pub data_link_layer : ℕ
data_link_layer = 0x02

pub record Cri : Type 0 where
  pub connection_type : ℕ
  pub knx_layer : ℕ
  pub individual_address : Option IndividualAddress

-- `new CRI({ connectionType, individualAddress })` with the default layer.
unfoldable pub new_cri : ℕ → Option IndividualAddress → Cri
new_cri connection_type address = record {
  connection_type = connection_type;
  knx_layer = data_link_layer;
  individual_address = address;
}

abbrev pub is_tunnel : ℕ → Bool
is_tunnel connection_type = connection_type == tunnel_connection

tunnel_length : Option IndividualAddress → ℕ
tunnel_length none = 4
tunnel_length (some a) = 6

unfoldable pub cri_calculated_length : Cri → ℕ
unfolding tunnel_length
cri_calculated_length c =
    if is_tunnel c.connection_type then tunnel_length c.individual_address else 2

-- What the tunnel branch reads, by the structure length.
cri_tunnel : ℕ → Bytes → Result Cri
cri_tunnel len raw =
    let basic = ok (record {
      connection_type = byte_at raw 1;
      knx_layer = byte_at raw 2;
      individual_address = none;
    }) in
    let extended = do
      a ← Individual.from_knx (drop 4 raw)
      ok (record {
        connection_type = byte_at raw 1;
        knx_layer = byte_at raw 2;
        individual_address = some a;
      })
    in if len == 4 then basic else if len == 6 then extended else err could_not_parse_knxip

unfoldable pub cri_from_knx : Bytes → Result (Cri × ℕ)
unfolding cri_tunnel new_cri
cri_from_knx raw = do
  throw_if (ltb (length raw) 2) could_not_parse_knxip
  let len = byte_at raw 0
  throw_if (ltb (length raw) len) could_not_parse_knxip
  throw_if (ltb len 2) could_not_parse_knxip
  let other = if len == 2 then ok (new_cri (byte_at raw 1) none) else err could_not_parse_knxip
  cri ← if is_tunnel (byte_at raw 1) then cri_tunnel len raw else other
  ok (cri, len)

address_bytes : Option IndividualAddress → Bytes
address_bytes none = []
address_bytes (some a) = Individual.to_knx a

unfoldable pub cri_to_knx : Cri → Bytes
unfolding cri_calculated_length address_bytes
cri_to_knx c =
    cri_calculated_length c % 256
    ∷ c.connection_type % 256
    ∷ (if is_tunnel c.connection_type
        then c.knx_layer % 256 ∷ 0x00 ∷ address_bytes c.individual_address
        else [])

pub record Crd : Type 0 where
  pub connection_type : ℕ
  pub individual_address : Option IndividualAddress

-- `new CRD()`.
abbrev pub default_crd : Crd
default_crd = record { connection_type = tunnel_connection; individual_address = none }

unfoldable pub crd_calculated_length : Crd → ℕ
crd_calculated_length c = if is_tunnel c.connection_type then 4 else 2

crd_tunnel : ℕ → Bytes → Result Crd
crd_tunnel len raw = do
  throw_if (not (len == 4)) could_not_parse_knxip
  a ← Individual.from_knx (drop 2 raw)
  ok (record { connection_type = byte_at raw 1; individual_address = some a })

unfoldable pub crd_from_knx : Bytes → Result (Crd × ℕ)
unfolding crd_tunnel
crd_from_knx raw = do
  throw_if (ltb (length raw) 2) could_not_parse_knxip
  let len = byte_at raw 0
  throw_if (ltb (length raw) len) could_not_parse_knxip
  throw_if (ltb len 2) could_not_parse_knxip
  let other =
      if len == 2
      then ok (record { connection_type = byte_at raw 1; individual_address = none })
      else err could_not_parse_knxip
  crd ← if is_tunnel (byte_at raw 1) then crd_tunnel len raw else other
  ok (crd, len)

-- The buffer is allocated with zeros, which stay where there is no address.
padded_address : Option IndividualAddress → Bytes
padded_address none = 0 ∷ 0 ∷ []
padded_address (some a) = Individual.to_knx a

unfoldable pub crd_to_knx : Crd → Bytes
unfolding crd_calculated_length padded_address
crd_to_knx c =
    crd_calculated_length c
    ∷ c.connection_type % 256
    ∷ (if is_tunnel c.connection_type then padded_address c.individual_address else [])
