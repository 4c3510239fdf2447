-- ===== src/Core/Cri/RoundTrips.antt =====
-- CRI and CRD structures survive the wire.
use node_red_contrib_eelectr.Base.{
  ℕ, ◌^◌, ◌<◌, ◌≡◌, refl, arith, ◌≢◌, Option, none, some, ok, PrefixRoundTrip,
}
use node_red_contrib_eelectr.Core.Address.{IndividualAddress, read_uint16_be, of_number}
use node_red_contrib_eelectr.Core.Address.Individual
use node_red_contrib_eelectr.Core.Cri.{
  Cri, Crd, cri_calculated_length, cri_from_knx, cri_to_knx, crd_calculated_length, crd_from_knx,
  crd_to_knx,
}

abbrev pub FitsAddress : Option IndividualAddress → Type 0
FitsAddress none = Unit {0}
FitsAddress (some a) = a.raw < 2 ^ 16

-- Only a tunnel request has a layer and may have an address.
abbrev pub IsWireCri : Cri → Type 0
IsWireCri c =
    (c.connection_type < 256)
    × (c.knx_layer < 256)
    × FitsAddress c.individual_address
    × (c.connection_type ≢ 4 → (c.knx_layer ≡ 2) × (c.individual_address ≡ none))

-- A tunnel response always carries an address.
abbrev pub HasAddress : Option IndividualAddress → Type 0
HasAddress none = ⊥
HasAddress (some a) = a.raw < 2 ^ 16

abbrev pub IsWireCrd : Crd → Type 0
IsWireCrd c =
    (c.connection_type < 256)
    × (c.connection_type ≡ 4 → HasAddress c.individual_address)
    × (c.connection_type ≢ 4 → c.individual_address ≡ none)

cri_case :
    (t l : ℕ) (o : Option IndividualAddress)
    → IsWireCri (record { connection_type = t; knx_layer = l; individual_address = o })
    → PrefixRoundTrip
        (λ c. ok (cri_to_knx c))
        cri_from_knx
        (cri_calculated_length
          (record { connection_type = t; knx_layer = l; individual_address = o }))
        (record { connection_type = t; knx_layer = l; individual_address = o })
unfolding cri_to_knx cri_from_knx Individual.to_knx Individual.from_knx read_uint16_be of_number
cri_case t l none v = record {
  raw = cri_to_knx (record { connection_type = t; knx_layer = l; individual_address = none });
  written = refl;
  counted = ground arith;
  parsed = λ rest. ground arith;
}
cri_case t l (some a) v = record {
  raw = cri_to_knx (record { connection_type = t; knx_layer = l; individual_address = some a });
  written = refl;
  counted = ground arith;
  parsed = λ rest. ground arith;
}

pub cri_round_trip :
    (c : Cri)
    → IsWireCri c
    → PrefixRoundTrip (λ c. ok (cri_to_knx c)) cri_from_knx (cri_calculated_length c) c
cri_round_trip c v = cri_case c.connection_type c.knx_layer c.individual_address v

crd_case :
    (t : ℕ) (o : Option IndividualAddress)
    → IsWireCrd (record { connection_type = t; individual_address = o })
    → PrefixRoundTrip
        (λ c. ok (crd_to_knx c))
        crd_from_knx
        (crd_calculated_length (record { connection_type = t; individual_address = o }))
        (record { connection_type = t; individual_address = o })
unfolding crd_to_knx crd_from_knx Individual.to_knx Individual.from_knx read_uint16_be of_number
crd_case t none v = record {
  raw = crd_to_knx (record { connection_type = t; individual_address = none });
  written = refl;
  counted = ground arith;
  parsed = λ rest. ground arith;
}
crd_case t (some a) v = record {
  raw = crd_to_knx (record { connection_type = t; individual_address = some a });
  written = refl;
  counted = ground arith;
  parsed = λ rest. ground arith;
}

pub crd_round_trip :
    (c : Crd)
    → IsWireCrd c
    → PrefixRoundTrip (λ c. ok (crd_to_knx c)) crd_from_knx (crd_calculated_length c) c
crd_round_trip c v = crd_case c.connection_type c.individual_address v
