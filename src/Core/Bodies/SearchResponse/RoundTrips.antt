-- ===== src/Core/Bodies/SearchResponse/RoundTrips.antt =====
-- A SEARCH_RESPONSE survives the wire: the texts of the device info are the canonical ones, and what
-- trails a body without device info is not itself a device-info block.
use node_red_contrib_eelectr.Base.{
  ◌≡◌, refl, arith, Option, none, some, [], ◌++◌, Bytes, length, length-append, take-exact,
  drop-exact, ok, RoundTrip,
}
use node_red_contrib_eelectr.Core.Hpai.{hpai_length}
use node_red_contrib_eelectr.Core.Hpai.RoundTrips as HpaiRoundTrips
use node_red_contrib_eelectr.Core.Hpai.RoundTrips.{hpai_round_trip, split_dotted}
use node_red_contrib_eelectr.Core.Bodies.SearchResponse.{
  DeviceInfoDib, SearchResponse, calculated_length, from_knx, to_knx, leading_info, info_to_knx,
  info_length, caught, dib_device_info_len,
}
use node_red_contrib_eelectr.Core.Bodies.SearchResponse.DeviceInfo.{
  IsWireInfo, info_bytes, length-info_bytes, encode_written, parse-encode_info, info_bytes-front,
}

-- What the parser finds in front is what was put there.
abbrev pub IsWireDibs : Option DeviceInfoDib → Bytes → Type 0
IsWireDibs (some d) trailing = IsWireInfo d
IsWireDibs none trailing = leading_info trailing ≡ none

pub record IsWire (b : SearchResponse) : Type 0 where
  pub endpoint_fits : HpaiRoundTrips.IsWire b.control_endpoint
  pub dibs_fit : IsWireDibs b.device_info b.trailing_dibs

record InfoRoundTrip (info : Option DeviceInfoDib) (trailing : Bytes) : Type 0 where
  pub bytes : Bytes
  pub written : info_to_knx info ≡ ok bytes
  pub counted : length bytes ≡ info_length info
  pub found : leading_info (bytes ++ trailing) ≡ info

info_round_trip :
    (info : Option DeviceInfoDib) (trailing : Bytes)
    → IsWireDibs info trailing
    → InfoRoundTrip info trailing
unfolding info_to_knx info_length leading_info caught
info_round_trip none trailing v = record { bytes = []; written = refl; counted = refl; found = v }
info_round_trip (some d) trailing v =
    let front = info_bytes d v in
    record {
      bytes = front;
      written = encode_written d v;
      counted = length-info_bytes d v;
      found = ground (
        arith,
        info_bytes-front d v trailing,
        parse-encode_info d v,
        length-info_bytes d v,
        length-append front trailing,
        take-exact dib_device_info_len front trailing (length-info_bytes d v),
      );
    }

pub round_trip : (b : SearchResponse) → IsWire b → RoundTrip to_knx from_knx (calculated_length b) b
unfolding to_knx from_knx calculated_length
round_trip b v =
    let h = hpai_round_trip b.control_endpoint v.endpoint_fits in
    let i = info_round_trip b.device_info b.trailing_dibs v.dibs_fit in
    record {
      raw = h.raw ++ (i.bytes ++ b.trailing_dibs);
      written = ground (arith, h.written, i.written);
      counted = ground (
        arith,
        h.counted,
        i.counted,
        length-append h.raw (i.bytes ++ b.trailing_dibs),
        length-append i.bytes b.trailing_dibs,
      );
      parsed = ground (
        arith,
        h.parsed (i.bytes ++ b.trailing_dibs),
        drop-exact hpai_length h.raw (i.bytes ++ b.trailing_dibs) h.counted,
        i.found,
        drop-exact (info_length b.device_info) i.bytes b.trailing_dibs i.counted,
      );
    }
