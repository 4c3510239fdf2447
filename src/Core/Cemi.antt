-- ===== src/Core/Cemi.antt =====
-- src/core/cemi.ts: the cEMI frame and its L_Data service information. `Buffer.alloc(n)` followed
-- by `copy` is `copy_padded n`: the bytes that fit, then zeros.
pub mod RoundTrip
pub mod Parsed
use node_red_contrib_eelectr.Base.{
  ℕ, zero, suc, ◌+◌, ◌-◌, ◌*◌, ◌/◌, ◌%◌, ◌^◌, Bool, true, false, not, ◌&&◌, ◌==◌, ltb,
  if◌then◌else◌, Option, none, some, List, [], ◌∷◌, ◌++◌, bit_and, bit_or, Bytes, length, byte_at,
  read_u16, u16_be, take, drop, Result, ok, err, ◌>>=◌, ◌>>◌, throw_if, conversion_error,
  could_not_parse_cemi, range_error,
}
use node_red_contrib_eelectr.Base.Bits.{shl, shr}
use node_red_contrib_eelectr.Core.Address.{IndividualAddress, GroupAddress, long}
use node_red_contrib_eelectr.Core.Address.Individual
use node_red_contrib_eelectr.Core.Address.Group
use node_red_contrib_eelectr.Core.Tpci.{Tpci, is_control_tpci, encode_tpci, resolve_tpci}
use node_red_contrib_eelectr.Core.Apci.{Apci, apci_npdu_length, encode_apci, decode_apci}

pub data CemiMessageCode : Type 0 where
  l_data_req l_data_ind l_data_con : CemiMessageCode

abbrev pub code_byte : CemiMessageCode → ℕ
code_byte l_data_req = 0x11
code_byte l_data_ind = 0x29
code_byte l_data_con = 0x2e

abbrev pub destination_group_address : ℕ
destination_group_address = 0x0080

abbrev pub priority_low : ℕ
priority_low = 0x0c00

-- STANDARD | DO_NOT_REPEAT | BROADCAST | NO_ACK | NO_ERROR | HOP_COUNT_1ST
abbrev pub default_outgoing_flags : ℕ
default_outgoing_flags =
    bit_or (bit_or (bit_or (bit_or (bit_or 0x8000 0x2000) 0x1000) 0x0000) 0x0000) 0x0060

pub data Destination : Type 0 where
  group : GroupAddress → Destination
  individual : IndividualAddress → Destination

abbrev pub dst_raw : Destination → ℕ
dst_raw (group a) = a.raw
dst_raw (individual a) = a.raw

abbrev pub dst_is_group : Destination → Bool
dst_is_group (group a) = true
dst_is_group (individual a) = false

pub record CemiLData : Type 0 where
  pub flags : ℕ
  pub src_addr : IndividualAddress
  pub dst_addr : Destination
  pub tpci : Tpci
  pub payload : Option Apci

unfoldable pub hops : CemiLData → ℕ
hops d = shr (bit_and d.flags 0x0070) 4

-- The setter; `~0x0070` on 32 bits.
unfoldable pub set_hops : CemiLData → ℕ → CemiLData
set_hops d val = record d {
  flags = bit_or (bit_and d.flags 0xffff_ff8f) (shl (bit_and val 0x07) 4);
}

data_length : Bool → Option Apci → Result ℕ
data_length true none = ok 8
data_length true (some a) = err conversion_error
data_length false none = err conversion_error
data_length false (some a) = ok (8 + apci_npdu_length a)

unfoldable pub calculated_length : CemiLData → Result ℕ
unfolding data_length
calculated_length d = data_length (is_control_tpci d.tpci) d.payload

abbrev pub copy_padded : ℕ → Bytes → Bytes
copy_padded zero bs = []
copy_padded (suc n) [] = 0 ∷ copy_padded n []
copy_padded (suc n) (b ∷ bs) = b ∷ copy_padded n bs

-- `apdu[0] = (apdu[0] ?? 0) | bits`; on an empty buffer the store does nothing.
abbrev pub or_first : ℕ → Bytes → Bytes
or_first bits [] = []
or_first bits (b ∷ bs) = bit_or b bits ∷ bs

dst_to_knx : Destination → Bytes
dst_to_knx (group a) = Group.to_knx a
dst_to_knx (individual a) = Individual.to_knx a

-- The bytes from the NPDU length on.
tpdu_to_knx : Tpci → Option Apci → Bytes
tpdu_to_knx tpci (some apci) =
    if is_control_tpci tpci
    then 0 ∷ encode_tpci tpci ∷ []
    else apci_npdu_length apci % 256
      ∷ copy_padded (1 + apci_npdu_length apci) (or_first (encode_tpci tpci) (encode_apci apci))
tpdu_to_knx tpci none = 0 ∷ encode_tpci tpci ∷ []

unfoldable pub to_knx : CemiLData → Result Bytes
unfolding calculated_length dst_to_knx tpdu_to_knx
to_knx d = do
  n ← calculated_length d
  throw_if (ltb 0xffff d.flags) range_error
  ok (
      u16_be d.flags
      ++ (Individual.to_knx d.src_addr ++ (dst_to_knx d.dst_addr ++ tpdu_to_knx d.tpci d.payload)))

-- The destination at offset 4, by the address-type flag.
parse_dst : Bool → Bytes → Result Destination
parse_dst true buf = do a ← Group.from_knx buf long; ok (group a)
parse_dst false buf = do a ← Individual.from_knx buf; ok (individual a)

-- The bytes from the NPDU length on, which are at least two.
parse_tpdu : ℕ → IndividualAddress → Destination → Tpci → Bytes → Result (CemiLData × ℕ)
parse_tpdu flags src dst tpci raw =
    let npdu_len = byte_at raw 0 in
    let control = do
      throw_if (not (npdu_len == 0)) could_not_parse_cemi
      ok (record { flags = flags; src_addr = src; dst_addr = dst; tpci = tpci; payload = none }, 8)
    in let carrying = do
      throw_if (ltb (length raw - 1) (npdu_len + 1)) could_not_parse_cemi
      payload ← decode_apci (bit_and (byte_at raw 1) 3 ∷ take npdu_len (drop 2 raw))
      ok (
        record {
          flags = flags;
          src_addr = src;
          dst_addr = dst;
          tpci = tpci;
          payload = some payload;
        },
        7 + (npdu_len + 1),
      )
      in if is_control_tpci tpci then control else carrying

unfoldable pub from_knx : Bytes → Result (CemiLData × ℕ)
unfolding parse_dst parse_tpdu
from_knx raw = do
  throw_if (ltb (length raw) 8) could_not_parse_cemi
  let flags = read_u16 raw 0
  src ← Individual.from_knx (drop 2 raw)
  let dst_is_group = not (bit_and flags destination_group_address == 0)
  dst ← parse_dst dst_is_group (drop 4 raw)
  throw_if (ltb (length raw - 7) 1) could_not_parse_cemi
  tpci ← resolve_tpci (byte_at raw 7) dst_is_group (dst_raw dst == 0)
  parse_tpdu flags src dst tpci (drop 6 raw)

pub record CemiFrame : Type 0 where
  pub code : CemiMessageCode
  pub additional_info : Bytes
  pub ldata : CemiLData

unfoldable pub frame_calculated_length : CemiFrame → Result ℕ
frame_calculated_length f = do n ← calculated_length f.ldata; ok (2 + length f.additional_info + n)

unfoldable pub frame_to_knx : CemiFrame → Result Bytes
frame_to_knx f = do
  data_buf ← to_knx f.ldata
  ok (code_byte f.code ∷ length f.additional_info % 256 ∷ (f.additional_info ++ data_buf))

parse_code : ℕ → Result CemiMessageCode
parse_code c =
    if c == 0x11
    then ok l_data_req
    else if c == 0x29
    then ok l_data_ind
    else if c == 0x2e
    then ok l_data_con
    else err could_not_parse_cemi

unfoldable pub frame_from_knx : Bytes → Result (CemiFrame × ℕ)
unfolding parse_code
frame_from_knx raw = do
  throw_if (ltb (length raw) 2) could_not_parse_cemi
  code ← parse_code (byte_at raw 0)
  let info_len = byte_at raw 1
  throw_if (ltb (length raw) (2 + info_len)) could_not_parse_cemi
  (ldata, bytes_read) ← from_knx (drop (2 + info_len) raw)
  ok (
    record { code = code; additional_info = take info_len (drop 2 raw); ldata = ldata },
    2 + info_len + bytes_read,
  )
