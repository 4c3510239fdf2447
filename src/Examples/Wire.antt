-- ===== src/Examples/Wire.antt =====
-- Frames, addresses and cEMI on concrete bytes.
use node_red_contrib_eelectr.Base.{
  ◌<◌, ◌≡◌, ◌^◌, refl, arith, false, some, [], ◌∷◌, ◌++◌, Bytes, IsByte, All, length, bit_or,
  if◌then◌else◌, ok,
}
use node_red_contrib_eelectr.Core.Text.{Text}
use node_red_contrib_eelectr.Core.Address.{read_uint16_be, of_number, IndividualAddress, long}
use node_red_contrib_eelectr.Core.Address.Individual
use node_red_contrib_eelectr.Core.Address.Group
use node_red_contrib_eelectr.Core.Address.Notation.{of_text-to_string_group, group_of_text_bounded}
use node_red_contrib_eelectr.Core.Tpci.{encode_tpci, resolve_tpci, is_control_tpci}
use node_red_contrib_eelectr.Core.Tpci.Coding.{resolve-encode}
use node_red_contrib_eelectr.Core.Apci.{decode_apci}
use node_red_contrib_eelectr.Core.Cemi.{CemiLData, CemiFrame}
use node_red_contrib_eelectr.Core.Cemi
use node_red_contrib_eelectr.Core.Cemi.RoundTrip.{from_knx-to_knx, frame_from_knx-frame_to_knx}
use node_red_contrib_eelectr.Core.Cemi.Parsed.{from_knx-IsWire}
use node_red_contrib_eelectr.Core.Hpai.{Hpai}
use node_red_contrib_eelectr.Core.Hpai
use node_red_contrib_eelectr.Core.Hpai.RoundTrips as HpaiRoundTrips
use node_red_contrib_eelectr.Core.Hpai.RoundTrips.{hpai_round_trip}
use node_red_contrib_eelectr.Core.Cemi.{
  Destination, group, l_data_ind, dst_raw, calculated_length, frame_calculated_length,
}
use node_red_contrib_eelectr.Core.Cemi.RoundTrip as CemiRoundTrip
use node_red_contrib_eelectr.Core.Apci.{group_value_write, small, apci_npdu_length}
use node_red_contrib_eelectr.Core.Tpci.{t_data_group, t_data_connected}
use node_red_contrib_eelectr.Core.Hpai.{ipv4_udp, hpai_length}

abbrev device : IndividualAddress
device = record { raw = 0x1101 }

abbrev group_text : Text
group_text = Group.to_string (record { raw = 0x0901; style = long })

group_of_text_bounded_example : 0x0901 < 2 ^ 16
group_of_text_bounded_example =
    group_of_text_bounded group_text 0x0901 (of_text-to_string_group 0x0901 long (omega arith))

resolve-encode_example :
    resolve_tpci
      (if is_control_tpci (t_data_connected 5)
        then encode_tpci (t_data_connected 5)
        else bit_or 2 (encode_tpci (t_data_connected 5)))
      false
      false
    ≡ ok (t_data_connected 5)
resolve-encode_example =
    resolve-encode (t_data_connected 5) 2 false false (omega arith) (refl, omega arith)

-- A GroupValueWrite of 1 from 1.1.1 to 1/1/1.
abbrev pub switch_on : CemiLData
switch_on = record {
  flags = 0xbce0;
  src_addr = device;
  dst_addr = group (record { raw = 0x0901; style = long });
  tpci = t_data_group;
  payload = some (group_value_write (small 1));
}

switch_on-IsWire : CemiRoundTrip.IsWire switch_on
unfolding is_control_tpci apci_npdu_length
switch_on-IsWire = record {
  flags_fit = omega arith;
  src_fits = omega arith;
  dst_fits = (omega arith, refl);
  flag_agrees = refl;
  tpci_fits = (refl, refl);
  payload_fits = (omega arith, ground arith);
}

abbrev pub switch_on_frame : CemiFrame
switch_on_frame = record { code = l_data_ind; additional_info = 3 ∷ 1 ∷ 7 ∷ []; ldata = switch_on }

switch_on_frame-IsWireFrame : CemiRoundTrip.IsWireFrame switch_on_frame
switch_on_frame-IsWireFrame = record { info_fits = omega arith; ldata_fits = switch_on-IsWire }

frame_from_knx-frame_to_knx_example :
    (raw : Bytes) × (Cemi.frame_to_knx switch_on_frame ≡ ok raw)
    × (frame_calculated_length switch_on_frame ≡ ok (length raw))
    × ((rest : Bytes) → Cemi.frame_from_knx (raw ++ rest) ≡ ok (switch_on_frame, length raw))
frame_from_knx-frame_to_knx_example =
    frame_from_knx-frame_to_knx switch_on_frame switch_on_frame-IsWireFrame

abbrev pub switch_on_bytes : Bytes
switch_on_bytes = 0xbc ∷ 0xe0 ∷ 0x11 ∷ 0x01 ∷ 0x09 ∷ 0x01 ∷ 0x01 ∷ 0x00 ∷ 0x81 ∷ []

switch_on_bytes-IsByte : All IsByte switch_on_bytes
switch_on_bytes-IsByte = ground arith

switch_on_parsed : Cemi.from_knx switch_on_bytes ≡ ok (switch_on, 9)
unfolding Cemi.from_knx Individual.from_knx read_uint16_be of_number Group.from_knx resolve_tpci
    is_control_tpci decode_apci
switch_on_parsed = refl

from_knx-IsWire_example : CemiRoundTrip.IsWire switch_on
from_knx-IsWire_example =
    from_knx-IsWire switch_on_bytes switch_on 9 switch_on_bytes-IsByte switch_on_parsed

abbrev gateway : Hpai
gateway = record { ip = Hpai.dotted 192 168 1 10; port = 3671; protocol = ipv4_udp }

gateway-IsWire : HpaiRoundTrips.IsWire gateway
gateway-IsWire = record {
  a = 192;
  b = 168;
  c = 1;
  d = 10;
  quad = refl;
  in_range = (omega arith, omega arith, omega arith, omega arith);
  port_fits = omega arith;
}
