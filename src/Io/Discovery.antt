-- ===== src/Io/Discovery.antt =====
-- discoverGateways of src/io/discovery.ts: a SEARCH_REQUEST to the multicast group, and the gateways that answer
-- until the timeout. A Map is its entries in the order of their insertion, and the handlers of the socket are
-- functions from the state to the state.
pub mod Found
pub mod Resolved
use node_red_contrib_eelectr.Base.{
  ℕ, Bool, true, false, not, ◌||◌, Option, none, some, List, [], ◌∷◌, ◌++◌, map, if◌then◌else◌,
  Bytes, Error, Result, ok, err, list_eq,
}
use node_red_contrib_eelectr.Core.Text.{Text, show}
use node_red_contrib_eelectr.Core.Address.Individual
use node_red_contrib_eelectr.Core.Hpai.{Hpai, route_back, ipv4_udp}
use node_red_contrib_eelectr.Core.Bodies.SearchResponse.{SearchResponse, DeviceInfoDib}
use node_red_contrib_eelectr.Core.Frame.{
  KnxipFrame, KnxipBody, search_request_body, search_response_body, from_body,
}
use node_red_contrib_eelectr.Core.Frame

pub record DiscoveredGateway : Type 0 where
  pub address : Text
  pub port : ℕ
  pub friendly_name : Text
  pub individual_address : Option Text
  pub serial : Option Text
  pub mac_address : Option Text
  pub multicast_address : Option Text
  pub knx_medium : Option ℕ

-- The value that the promise settles with.
pub data Settled : Type 0 where
  resolved : List DiscoveredGateway → Settled
  rejected : Error → Settled

pub record Discovery : Type 0 where
  pub settled : Option Settled
  pub found : List (Text × DiscoveredGateway)
  pub sent : List Bytes
  pub timer : Bool

unfoldable pub new_discovery : Discovery
new_discovery = record { settled = none; found = []; sent = []; timer = false }

settled_once : Option Settled → Settled → Discovery → Discovery
settled_once none s d = record d { settled = some s }
settled_once (some first) s d = d

unfoldable pub settle : Settled → Discovery → Discovery
unfolding settled_once
settle s d = settled_once d.settled s d

unfoldable pub key : Hpai → Text
key ep = ep.ip ++ b':' ∷ show ep.port

unfoldable pub has_key : Text → List (Text × DiscoveredGateway) → Bool
has_key k [] = false
has_key k ((k', g) ∷ found) = list_eq k' k || has_key k found

-- A field that is set unless the text is empty.
if_given : Text → Option Text
if_given [] = none
if_given (c ∷ s) = some (c ∷ s)

entry : Hpai → Option DeviceInfoDib → DiscoveredGateway
unfolding if_given
entry ep none = record {
  address = ep.ip;
  port = ep.port;
  friendly_name = [];
  individual_address = none;
  serial = none;
  mac_address = none;
  multicast_address = none;
  knx_medium = none;
}
entry ep (some di) = record {
  address = ep.ip;
  port = ep.port;
  friendly_name = di.friendly_name;
  individual_address = some (Individual.to_string di.individual_address);
  serial = if_given di.serial;
  mac_address = if_given di.mac_address;
  multicast_address = if_given di.multicast_address;
  knx_medium = some di.knx_medium;
}

unfoldable pub entry_of : SearchResponse → DiscoveredGateway
unfolding entry
entry_of r = entry r.control_endpoint r.device_info

unfoldable pub add :
    SearchResponse → List (Text × DiscoveredGateway) → List (Text × DiscoveredGateway)
add r found =
    if has_key (key r.control_endpoint) found
    then found
    else found ++ ((key r.control_endpoint, entry_of r) ∷ [])

-- `frame.body instanceof SearchResponse`.
abbrev pub response_of : KnxipBody → Option SearchResponse
response_of (search_response_body r) = some r
response_of _ = none

on_response : Option SearchResponse → Discovery → Discovery
on_response (some r) d = record d { found = add r d.found }
on_response none d = d

on_frame : Result (KnxipFrame × ℕ) → Discovery → Discovery
unfolding on_response
on_frame (ok (frame, n)) d = on_response (response_of frame.body) d
on_frame (err e) d = d

-- A datagram; one that does not parse is ignored.
unfoldable pub on_message : Bytes → Discovery → Discovery
unfolding on_frame
on_message data_bytes d = on_frame (Frame.from_knx data_bytes) d

request : Result Bytes
request =
    Frame.to_knx
      (from_body (search_request_body (record { control_endpoint = route_back ipv4_udp })))

-- An error of the writer would leave the callback before the timer starts.
send_request : Result Bytes → Discovery → Discovery
send_request (ok buf) d = record d { sent = d.sent ++ (buf ∷ []); timer = true }
send_request (err e) d = d

-- The socket listens; the argument is what joining the group throws.
unfoldable pub on_listening : Option Error → Discovery → Discovery
unfolding request send_request
on_listening none d = send_request request d
on_listening (some e) d = settle (rejected e) d

unfoldable pub values : List (Text × DiscoveredGateway) → List DiscoveredGateway
values [] = []
values ((k, g) ∷ found) = g ∷ values found

unfoldable pub on_timeout : Discovery → Discovery
unfolding values
on_timeout d =
    if d.timer then settle (resolved (values d.found)) (record d { timer = false }) else d

-- An error of the socket, or of its send.
unfoldable pub on_error : Error → Discovery → Discovery
on_error e d = settle (rejected e) d
