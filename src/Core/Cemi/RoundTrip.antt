-- ===== src/Core/Cemi/RoundTrip.antt =====
-- A cEMI message is read back from the bytes it is written to.
use node_red_contrib_eelectr.Base.{
  ℕ, ◌+◌, ◌/◌, ◌%◌, ◌^◌, ◌<◌, ◌≡◌, refl, arith, Bool, true, false, not, ◌==◌, Option, none, some,
  [], ◌∷◌, ◌++◌, bit_or, Bytes, length, ok, ap, u16_be, take-length_append, length-append,
  drop-length_append, append_assoc,
}
use node_red_contrib_eelectr.Base.Bits.{bit_and-bit}
use node_red_contrib_eelectr.Core.Address.{IndividualAddress, long, read_uint16_be, of_number}
use node_red_contrib_eelectr.Core.Address.Individual
use node_red_contrib_eelectr.Core.Address.Group
use node_red_contrib_eelectr.Core.Tpci.{Tpci, is_control_tpci, encode_tpci, resolve_tpci}
use node_red_contrib_eelectr.Core.Tpci.Coding as TpciCoding
use node_red_contrib_eelectr.Core.Tpci.Coding.{
  resolve-encode_data, resolve-encode_control, data_byte_low,
}
use node_red_contrib_eelectr.Core.Apci.{Apci, apci_npdu_length, encode_apci, decode_apci}
use node_red_contrib_eelectr.Core.Apci.Coding as ApciCoding
use node_red_contrib_eelectr.Core.Apci.Coding.{decode-encode_apci, encode_apci_shape}
use node_red_contrib_eelectr.Core.Cemi.{
  CemiLData, CemiFrame, CemiMessageCode, l_data_req, l_data_ind, l_data_con, parse_code,
  Destination, group, individual, dst_raw, dst_is_group, calculated_length, copy_padded, to_knx,
  from_knx, parse_tpdu, parse_dst, tpdu_to_knx, dst_to_knx, code_byte, frame_to_knx, frame_from_knx,
  frame_calculated_length, data_length,
}

-- A destination in range, group addresses in the style that the parser gives.
abbrev pub IsWireDst : Destination → Type 0
IsWireDst (group a) = (a.raw < 2 ^ 16) × (a.style ≡ long)
IsWireDst (individual a) = a.raw < 2 ^ 16

abbrev pub FitsPayload : Bool → Option Apci → Type 0
FitsPayload true none = Unit {0}
FitsPayload true (some a) = ⊥
FitsPayload false none = ⊥
FitsPayload false (some a) = ApciCoding.Fits a × (apci_npdu_length a < 256)

-- What the wire format can carry: fields in range, an address-type flag that agrees with the kind
-- of the destination, a TPCI that this destination admits, and a payload on data TPDUs only.
pub record IsWire (d : CemiLData) : Type 0 where
  pub flags_fit : d.flags < 2 ^ 16
  pub src_fits : d.src_addr.raw < 2 ^ 16
  pub dst_fits : IsWireDst d.dst_addr
  pub flag_agrees : (not (d.flags / 128 % 2 == 0)) ≡ dst_is_group d.dst_addr
  pub tpci_fits : TpciCoding.Fits d.tpci (dst_is_group d.dst_addr) (dst_raw d.dst_addr == 0)
  pub payload_fits : FitsPayload (is_control_tpci d.tpci) d.payload

copy_padded_self : (bs : Bytes) → copy_padded (length bs) bs ≡ bs
copy_padded_self [] = refl
copy_padded_self (b ∷ bs) = ap (◌∷◌ b) (copy_padded_self bs)

parse_dst_lem :
    (dst : Destination) (rest : Bytes)
    → IsWireDst dst
    → parse_dst (dst_is_group dst) (dst_to_knx dst ++ rest) ≡ ok dst
unfolding parse_dst dst_to_knx Group.from_knx Individual.from_knx Group.to_knx Individual.to_knx
    read_uint16_be of_number
parse_dst_lem (group a) rest (h, s) = ground arith
parse_dst_lem (individual a) rest h = ground arith

dst_bytes : (dst : Destination) → dst_to_knx dst ≡ u16_be (dst_raw dst)
unfolding dst_to_knx Group.to_knx Individual.to_knx
dst_bytes (group a) = refl
dst_bytes (individual a) = refl

parse_dst_bytes :
    (dst : Destination) (rest : Bytes)
    → IsWireDst dst
    → parse_dst (dst_is_group dst) (dst_raw dst / 256 ∷ dst_raw dst % 256 ∷ rest) ≡ ok dst
parse_dst_bytes dst rest h = rw (dst_bytes dst) at (parse_dst_lem dst rest h)

-- The bytes from the NPDU length on, and what the parser makes of them.
record Tpdu (flags : ℕ) (src : IndividualAddress) (dst : Destination) (tpci : Tpci)
    (payload : Option Apci) : Type 0 where
  npdu : ℕ
  head : ℕ
  tail : Bytes
  written : tpdu_to_knx tpci payload ≡ npdu ∷ head ∷ tail
  counted : data_length (is_control_tpci tpci) payload ≡ ok (8 + length tail)
  resolved : resolve_tpci head (dst_is_group dst) (dst_raw dst == 0) ≡ ok tpci
  parsed :
      (rest : Bytes)
      → parse_tpdu flags src dst tpci (npdu ∷ head ∷ (tail ++ rest))
        ≡ ok (
          record { flags = flags; src_addr = src; dst_addr = dst; tpci = tpci; payload = payload },
          8 + length tail,
        )

module _ (flags : ℕ) (src : IndividualAddress) (dst : Destination) (tpci : Tpci) where
  control-Tpdu :
      (payload : Option Apci)
      → is_control_tpci tpci ≡ true
      → TpciCoding.Fits tpci (dst_is_group dst) (dst_raw dst == 0)
      → FitsPayload true payload
      → Tpdu flags src dst tpci payload
  unfolding tpdu_to_knx data_length parse_tpdu
  control-Tpdu none c f p = record {
    npdu = 0;
    head = encode_tpci tpci;
    tail = [];
    written = refl;
    counted = rw c refl;
    resolved = resolve-encode_control tpci _ _ c f;
    parsed = λ rest. rw c refl;
  }
  control-Tpdu (some a) c f p = absurd p

  carrying-Tpdu :
      (payload : Option Apci)
      → is_control_tpci tpci ≡ false
      → TpciCoding.Fits tpci (dst_is_group dst) (dst_raw dst == 0)
      → FitsPayload false payload
      → Tpdu flags src dst tpci payload
  unfolding tpdu_to_knx data_length parse_tpdu
  carrying-Tpdu none c f p = absurd p
  carrying-Tpdu (some a) c f (pa, pn) =
      let (first, tail, shape, low, count) = encode_apci_shape a pa in
      record {
        npdu = length tail;
        head = bit_or first (encode_tpci tpci);
        tail = tail;
        written = rw (c, shape, count) (ground (arith, copy_padded_self tail));
        counted = rw (c, count);
        resolved = resolve-encode_data tpci first _ _ c low f;
        parsed = λ rest. rw c (
            ground (
              arith,
              take-length_append tail rest,
              length-append tail rest,
              data_byte_low tpci first c low,
              decoded first tail shape,
            ));
      }
    where
      decoded :
          (first : ℕ) (tail : Bytes)
          → encode_apci a ≡ first ∷ tail
          → decode_apci (first ∷ tail) ≡ ok a
      decoded first tail shape = rw shape at (decode-encode_apci a pa)

Tpdu-of : (d : CemiLData) → IsWire d → Tpdu d.flags d.src_addr d.dst_addr d.tpci d.payload
Tpdu-of d v = go (is_control_tpci d.tpci) refl
  where
    go :
        (b : Bool)
        → is_control_tpci d.tpci ≡ b
        → Tpdu d.flags d.src_addr d.dst_addr d.tpci d.payload
    go true c = control-Tpdu _ _ _ _ d.payload c v.tpci_fits (rw c at v.payload_fits)
    go false c = carrying-Tpdu _ _ _ _ d.payload c v.tpci_fits (rw c at v.payload_fits)

-- L_Data that fits the wire format is written without an error, in as many bytes as
-- `calculatedLength` says, and the parser reads it back from them, whatever follows.
pub from_knx-to_knx :
    (d : CemiLData)
    → IsWire d
    → (raw : Bytes) × (to_knx d ≡ ok raw)
      × (calculated_length d ≡ ok (length raw))
      × ((rest : Bytes) → from_knx (raw ++ rest) ≡ ok (d, length raw))
unfolding to_knx from_knx Individual.to_knx Individual.from_knx read_uint16_be of_number
    calculated_length
from_knx-to_knx d v =
    let t = Tpdu-of d v in
    (
      d.flags / 256
          ∷ d.flags % 256
          ∷ d.src_addr.raw / 256
          ∷ d.src_addr.raw % 256
          ∷ dst_raw d.dst_addr / 256
          ∷ dst_raw d.dst_addr % 256
          ∷ t.npdu
          ∷ t.head
          ∷ t.tail,
      ground (arith, dst_bytes d.dst_addr, t.written, t.counted),
      ground (arith, t.counted),
      λ rest. ground (
        arith,
        bit_and-bit 7 d.flags,
        parse_dst_bytes d.dst_addr (t.npdu ∷ t.head ∷ (t.tail ++ rest)) v.dst_fits,
        t.resolved,
        t.parsed rest,
      ),
    )

pub record IsWireFrame (f : CemiFrame) : Type 0 where
  pub info_fits : length f.additional_info < 256
  pub ldata_fits : IsWire f.ldata

parse_code_lem : (c : CemiMessageCode) → parse_code (code_byte c) ≡ ok c
unfolding parse_code
parse_code_lem l_data_req = refl
parse_code_lem l_data_ind = refl
parse_code_lem l_data_con = refl

-- A cEMI frame with less than 256 bytes of additional information and L_Data that fits the wire
-- format is written without an error, in as many bytes as its calculated length says, and the
-- parser reads it back from them, whatever follows.
pub frame_from_knx-frame_to_knx :
    (f : CemiFrame)
    → IsWireFrame f
    → (raw : Bytes) × (frame_to_knx f ≡ ok raw)
      × (frame_calculated_length f ≡ ok (length raw))
      × ((rest : Bytes) → frame_from_knx (raw ++ rest) ≡ ok (f, length raw))
unfolding frame_to_knx frame_from_knx frame_calculated_length
frame_from_knx-frame_to_knx f v =
    let (raw, written, counted, parsed) = from_knx-to_knx f.ldata v.ldata_fits in
    let info = f.additional_info in
    (
      code_byte f.code ∷ length info ∷ (info ++ raw),
      ground (arith, written, v.info_fits),
      ground (arith, counted, length-append info raw),
      λ rest. ground (
        arith,
        parsed rest,
        length-append info raw,
        append_assoc info raw rest,
        length-append info (raw ++ rest),
        take-length_append info (raw ++ rest),
        drop-length_append info (raw ++ rest),
        parse_code_lem f.code,
      ),
    )
