-- ===== src/Core/Cemi/Parsed.antt =====
-- What the cEMI parser accepts is what the writer can write.
use node_red_contrib_eelectr.Base.{
  ℕ, zero, suc, ◌^◌, ◌≤◌, ◌<◌, ◌≡◌, refl, arith, Bool, true, false, not, ◌==◌, [], ◌∷◌, Bytes,
  IsByte, All, length, byte_at, read_u16, take, drop, ok, err, bit_and, Result, length-take,
}
use node_red_contrib_eelectr.Base.Bits.{bit_and-mask, bit_and-bit}
use node_red_contrib_eelectr.Core.Address.{IndividualAddress, read_uint16_be, of_number}
use node_red_contrib_eelectr.Core.Address.Individual
use node_red_contrib_eelectr.Core.Address.Group
use node_red_contrib_eelectr.Core.Tpci.{Tpci, is_control_tpci, resolve_tpci}
use node_red_contrib_eelectr.Core.Tpci.Coding.{encode-resolve}
use node_red_contrib_eelectr.Core.Apci.{Apci, decode_apci, apci_npdu_length}
use node_red_contrib_eelectr.Core.Apci.Coding as ApciCoding
use node_red_contrib_eelectr.Core.Apci.Coding.{decode_apci-Fits}
use node_red_contrib_eelectr.Core.Cemi.{
  CemiLData, Destination, dst_raw, dst_is_group, parse_dst, parse_tpdu, from_knx,
}
use node_red_contrib_eelectr.Core.Cemi.RoundTrip.{FitsPayload, IsWire, IsWireDst}

byte_at-lt : (raw : Bytes) (i : ℕ) → All IsByte raw → byte_at raw i < 256
byte_at-lt [] i h = omega arith
byte_at-lt (b ∷ bs) zero h = h.0
byte_at-lt (b ∷ bs) (suc i) h = byte_at-lt bs i h.1

All-take : (n : ℕ) (raw : Bytes) → All IsByte raw → All IsByte (take n raw)
All-take zero raw h = tt
All-take (suc n) [] h = tt
All-take (suc n) (b ∷ bs) h = (h.0, All-take n bs h.1)

pub All-drop : (n : ℕ) (raw : Bytes) → All IsByte raw → All IsByte (drop n raw)
All-drop zero raw h = h
All-drop (suc n) [] h = tt
All-drop (suc n) (b ∷ bs) h = All-drop n bs h.1

decoded-Fits :
    (x : ℕ) (xs : Bytes) (p : Apci)
    → All IsByte xs
    → decode_apci (bit_and x 3 ∷ xs) ≡ ok p
    → ApciCoding.Fits p × (apci_npdu_length p ≤ length xs)
decoded-Fits x [] p h e = unfold decode_apci in cc
decoded-Fits x (b ∷ bs) p h e =
    decode_apci-Fits (bit_and x 3) b bs p (omega (arith, bit_and-mask 2 x)) h.0 e

tpdu_parsed :
    (flags : ℕ) (src : IndividualAddress) (dst : Destination) (tpci : Tpci) (raw : Bytes)
    (d : CemiLData) (n : ℕ)
    → All IsByte raw
    → parse_tpdu flags src dst tpci raw ≡ ok (d, n)
    → (d.flags ≡ flags)
      × (d.src_addr ≡ src)
      × (d.dst_addr ≡ dst)
      × (d.tpci ≡ tpci)
      × FitsPayload (is_control_tpci tpci) d.payload
unfolding parse_tpdu
tpdu_parsed flags src dst tpci raw d n h e =
    go (decode_apci (bit_and (byte_at raw 1) 3 ∷ take (byte_at raw 0) (drop 2 raw))) refl
  where
    go :
        (r : Result Apci)
        → decode_apci (bit_and (byte_at raw 1) 3 ∷ take (byte_at raw 0) (drop 2 raw)) ≡ r
        → (d.flags ≡ flags)
          × (d.src_addr ≡ src)
          × (d.dst_addr ≡ dst)
          × (d.tpci ≡ tpci)
          × FitsPayload (is_control_tpci tpci) d.payload
    go (ok p) q = ground (
      arith,
      byte_at-lt raw 0 h,
      length-take (byte_at raw 0) (drop 2 raw),
      decoded-Fits _ _ p (All-take (byte_at raw 0) _ (All-drop 2 raw h)) q,
    )
    go (err x) q = ground arith

parse_dst_fits :
    (b : Bool) (raw : Bytes) (dst : Destination)
    → All IsByte raw
    → parse_dst b raw ≡ ok dst
    → IsWireDst dst × (dst_is_group dst ≡ b)
unfolding parse_dst Group.from_knx Individual.from_knx of_number read_uint16_be
parse_dst_fits true raw dst h e = ground arith
parse_dst_fits false raw dst h e = ground arith

individual_fits :
    (raw : Bytes) (a : IndividualAddress) → Individual.from_knx raw ≡ ok a → a.raw < 2 ^ 16
unfolding Individual.from_knx of_number read_uint16_be
individual_fits raw a e = ground arith

-- L_Data that the parser accepts from a list of bytes fits the wire format: its fields are in
-- range, and its TPCI and payload go with its destination.
pub from_knx-IsWire :
    (raw : Bytes) (d : CemiLData) (n : ℕ) → All IsByte raw → from_knx raw ≡ ok (d, n) → IsWire d
unfolding from_knx
from_knx-IsWire raw d n h e = with_src (Individual.from_knx (drop 2 raw)) refl
  where
    flags : ℕ
    flags = read_u16 raw 0

    is_group : Bool
    is_group = not (bit_and flags 0x80 == 0)

    with_tpci :
        (src : IndividualAddress) (dst : Destination) (r : Result Tpci)
        → Individual.from_knx (drop 2 raw) ≡ ok src
        → parse_dst is_group (drop 4 raw) ≡ ok dst
        → resolve_tpci (byte_at raw 7) is_group (dst_raw dst == 0) ≡ r
        → IsWire d
    with_tpci src dst (err x) p q s = ground arith
    with_tpci src dst (ok tpci) p q s = ground (
      arith,
      byte_at-lt raw 0 h,
      byte_at-lt raw 1 h,
      bit_and-bit 7 flags,
      individual_fits (drop 2 raw) src p,
      parse_dst_fits is_group (drop 4 raw) dst (All-drop 4 raw h) q,
      encode-resolve (byte_at raw 7) is_group (dst_raw dst == 0) tpci (byte_at-lt raw 7 h) s,
      tpdu_parsed flags src dst tpci (drop 6 raw) d n (All-drop 6 raw h),
    )

    with_dst :
        (src : IndividualAddress) (r : Result Destination)
        → Individual.from_knx (drop 2 raw) ≡ ok src
        → parse_dst is_group (drop 4 raw) ≡ r
        → IsWire d
    with_dst src (err x) p q = ground arith
    with_dst src (ok dst) p q =
        with_tpci src dst (resolve_tpci (byte_at raw 7) is_group (dst_raw dst == 0)) p q refl

    with_src : (r : Result IndividualAddress) → Individual.from_knx (drop 2 raw) ≡ r → IsWire d
    with_src (err x) p = ground arith
    with_src (ok src) p = with_dst src (parse_dst is_group (drop 4 raw)) p refl
