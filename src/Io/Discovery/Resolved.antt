-- ===== src/Io/Discovery/Resolved.antt =====
-- The events of a search, and what it resolves with.
use node_red_contrib_eelectr.Base.{◌≡◌, Option, List, [], ◌∷◌, Bytes, Error, RoundTrip}
use node_red_contrib_eelectr.Core.Hpai.{route_back, ipv4_udp}
use node_red_contrib_eelectr.Core.Bodies.SearchRequest as SearchRequestBody
use node_red_contrib_eelectr.Core.Bodies.SearchResponse.{SearchResponse}
use node_red_contrib_eelectr.Core.Frame.{KnxipBody, search_request_body}
use node_red_contrib_eelectr.Core.Frame
use node_red_contrib_eelectr.Io.Discovery.{
  Discovery, on_message, on_listening, on_timeout, on_error,
}
use node_red_contrib_eelectr.Io.Discovery.Found.{responses, add_all}

pub data Event : Type 0 where
  listens : Option Error → Event
  receives : Bytes → Event
  times_out : Event
  fails : Error → Event

abbrev step : Event → Discovery → Discovery
step (listens e) d = on_listening e d
step (receives data_bytes) d = on_message data_bytes d
step times_out d = on_timeout d
step (fails e) d = on_error e d

abbrev pub run : List Event → Discovery → Discovery
run [] d = d
run (e ∷ es) d = run es (step e d)

record Collected (xs : List Bytes) (d after : Discovery) : Type 0 where
  pub found_all : after.found ≡ add_all (responses xs) d.found
  pub timer_on : after.timer ≡ d.timer
  pub open_still : after.settled ≡ d.settled

abbrev pub search : KnxipBody
search = search_request_body (record { control_endpoint = route_back ipv4_udp })
