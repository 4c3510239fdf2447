-- ===== src/Core/Frame/BodyTrips.antt =====
-- Each body that fits its wire format survives the wire, through the dispatch by service type.
use node_red_contrib_eelectr.Base.{ap, RoundTrip, closed_round_trip}
use node_red_contrib_eelectr.Core.Frame.{
  KnxipBody, connect_request_body, connect_response_body, connectionstate_request_body,
  connectionstate_response_body, disconnect_request_body, disconnect_response_body,
  search_request_body, search_response_body, secure_wrapper_body, session_request_body,
  session_response_body, session_authenticate_body, session_status_body, timer_notify_body,
  tunnelling_request_body, tunnelling_ack_body, service_type_of, body_calculated_length,
  body_to_knx, body_of, parse_body,
}
use node_red_contrib_eelectr.Core.Bodies.ConnectRequest as ConnectRequestBody
use node_red_contrib_eelectr.Core.Bodies.ConnectResponse as ConnectResponseBody
use node_red_contrib_eelectr.Core.Bodies.ConnectionStateRequest as ConnectionStateRequestBody
use node_red_contrib_eelectr.Core.Bodies.ConnectionStateResponse as ConnectionStateResponseBody
use node_red_contrib_eelectr.Core.Bodies.DisconnectRequest as DisconnectRequestBody
use node_red_contrib_eelectr.Core.Bodies.DisconnectResponse as DisconnectResponseBody
use node_red_contrib_eelectr.Core.Bodies.SearchRequest as SearchRequestBody
use node_red_contrib_eelectr.Core.Bodies.SecureWrapper as SecureWrapperBody
use node_red_contrib_eelectr.Core.Bodies.SessionRequest as SessionRequestBody
use node_red_contrib_eelectr.Core.Bodies.SessionResponse as SessionResponseBody
use node_red_contrib_eelectr.Core.Bodies.SessionAuthenticate as SessionAuthenticateBody
use node_red_contrib_eelectr.Core.Bodies.SessionStatus as SessionStatusBody
use node_red_contrib_eelectr.Core.Bodies.TimerNotify as TimerNotifyBody
use node_red_contrib_eelectr.Core.Bodies.TunnellingRequest as TunnellingRequestBody
use node_red_contrib_eelectr.Core.Bodies.TunnellingAck as TunnellingAckBody
use node_red_contrib_eelectr.Core.Bodies.SearchResponse.RoundTrips as SearchResponseRoundTrips

-- The body fits the fields of its wire format.
unfoldable pub IsWireBody : KnxipBody → Type 0
IsWireBody (connect_request_body b) = ConnectRequestBody.IsWire b
IsWireBody (connect_response_body b) = ConnectResponseBody.IsWire b
IsWireBody (connectionstate_request_body b) = ConnectionStateRequestBody.IsWire b
IsWireBody (connectionstate_response_body b) = ConnectionStateResponseBody.IsWire b
IsWireBody (disconnect_request_body b) = DisconnectRequestBody.IsWire b
IsWireBody (disconnect_response_body b) = DisconnectResponseBody.IsWire b
IsWireBody (search_request_body b) = SearchRequestBody.IsWire b
IsWireBody (search_response_body b) = SearchResponseRoundTrips.IsWire b
IsWireBody (secure_wrapper_body b) = SecureWrapperBody.IsWire b
IsWireBody (session_request_body b) = SessionRequestBody.IsWire b
IsWireBody (session_response_body b) = SessionResponseBody.IsWire b
IsWireBody (session_authenticate_body b) = SessionAuthenticateBody.IsWire b
IsWireBody (session_status_body b) = SessionStatusBody.IsWire b
IsWireBody (timer_notify_body b) = TimerNotifyBody.IsWire b
IsWireBody (tunnelling_request_body b) = TunnellingRequestBody.IsWire b
IsWireBody (tunnelling_ack_body b) = TunnellingAckBody.IsWire b

pub body_round_trip :
    (b : KnxipBody)
    → IsWireBody b
    → RoundTrip body_to_knx (parse_body (service_type_of b)) (body_calculated_length b) b
unfolding IsWireBody body_to_knx parse_body service_type_of body_calculated_length
body_round_trip (connect_request_body b) v =
    let r =
      closed_round_trip ConnectRequestBody.to_knx ConnectRequestBody.from_knx
        (ConnectRequestBody.calculated_length b) b (ConnectRequestBody.round_trip b v) in
    record {
      raw = r.raw;
      written = r.written;
      counted = r.counted;
      parsed = ap (body_of connect_request_body) r.parsed;
    }
body_round_trip (connect_response_body b) v =
    let r =
      closed_round_trip ConnectResponseBody.to_knx ConnectResponseBody.from_knx
        (ConnectResponseBody.calculated_length b) b (ConnectResponseBody.round_trip b v) in
    record {
      raw = r.raw;
      written = r.written;
      counted = r.counted;
      parsed = ap (body_of connect_response_body) r.parsed;
    }
body_round_trip (connectionstate_request_body b) v =
    let r =
      closed_round_trip ConnectionStateRequestBody.to_knx ConnectionStateRequestBody.from_knx
        (ConnectionStateRequestBody.calculated_length b) b
        (ConnectionStateRequestBody.round_trip b v) in
    record {
      raw = r.raw;
      written = r.written;
      counted = r.counted;
      parsed = ap (body_of connectionstate_request_body) r.parsed;
    }
body_round_trip (connectionstate_response_body b) v =
    let r =
      closed_round_trip ConnectionStateResponseBody.to_knx ConnectionStateResponseBody.from_knx
        (ConnectionStateResponseBody.calculated_length b) b
        (ConnectionStateResponseBody.round_trip b v) in
    record {
      raw = r.raw;
      written = r.written;
      counted = r.counted;
      parsed = ap (body_of connectionstate_response_body) r.parsed;
    }
body_round_trip (disconnect_request_body b) v =
    let r =
      closed_round_trip DisconnectRequestBody.to_knx DisconnectRequestBody.from_knx
        (DisconnectRequestBody.calculated_length b) b (DisconnectRequestBody.round_trip b v) in
    record {
      raw = r.raw;
      written = r.written;
      counted = r.counted;
      parsed = ap (body_of disconnect_request_body) r.parsed;
    }
body_round_trip (disconnect_response_body b) v =
    let r =
      closed_round_trip DisconnectResponseBody.to_knx DisconnectResponseBody.from_knx
        (DisconnectResponseBody.calculated_length b) b (DisconnectResponseBody.round_trip b v) in
    record {
      raw = r.raw;
      written = r.written;
      counted = r.counted;
      parsed = ap (body_of disconnect_response_body) r.parsed;
    }
body_round_trip (search_request_body b) v =
    let r =
      closed_round_trip SearchRequestBody.to_knx SearchRequestBody.from_knx
        (SearchRequestBody.calculated_length b) b (SearchRequestBody.round_trip b v) in
    record {
      raw = r.raw;
      written = r.written;
      counted = r.counted;
      parsed = ap (body_of search_request_body) r.parsed;
    }
body_round_trip (search_response_body b) v =
    let r = SearchResponseRoundTrips.round_trip b v in
    record {
      raw = r.raw;
      written = r.written;
      counted = r.counted;
      parsed = ap (body_of search_response_body) r.parsed;
    }
body_round_trip (secure_wrapper_body b) v =
    let r = SecureWrapperBody.round_trip b v in
    record {
      raw = r.raw;
      written = r.written;
      counted = r.counted;
      parsed = ap (body_of secure_wrapper_body) r.parsed;
    }
body_round_trip (session_request_body b) v =
    let r =
      closed_round_trip SessionRequestBody.to_knx SessionRequestBody.from_knx
        (SessionRequestBody.calculated_length b) b (SessionRequestBody.round_trip b v) in
    record {
      raw = r.raw;
      written = r.written;
      counted = r.counted;
      parsed = ap (body_of session_request_body) r.parsed;
    }
body_round_trip (session_response_body b) v =
    let r =
      closed_round_trip SessionResponseBody.to_knx SessionResponseBody.from_knx
        (SessionResponseBody.calculated_length b) b (SessionResponseBody.round_trip b v) in
    record {
      raw = r.raw;
      written = r.written;
      counted = r.counted;
      parsed = ap (body_of session_response_body) r.parsed;
    }
body_round_trip (session_authenticate_body b) v =
    let r =
      closed_round_trip SessionAuthenticateBody.to_knx SessionAuthenticateBody.from_knx
        (SessionAuthenticateBody.calculated_length b) b (SessionAuthenticateBody.round_trip b v) in
    record {
      raw = r.raw;
      written = r.written;
      counted = r.counted;
      parsed = ap (body_of session_authenticate_body) r.parsed;
    }
body_round_trip (session_status_body b) v =
    let r =
      closed_round_trip SessionStatusBody.to_knx SessionStatusBody.from_knx
        (SessionStatusBody.calculated_length b) b (SessionStatusBody.round_trip b v) in
    record {
      raw = r.raw;
      written = r.written;
      counted = r.counted;
      parsed = ap (body_of session_status_body) r.parsed;
    }
body_round_trip (timer_notify_body b) v =
    let r =
      closed_round_trip TimerNotifyBody.to_knx TimerNotifyBody.from_knx
        (TimerNotifyBody.calculated_length b) b (TimerNotifyBody.round_trip b v) in
    record {
      raw = r.raw;
      written = r.written;
      counted = r.counted;
      parsed = ap (body_of timer_notify_body) r.parsed;
    }
body_round_trip (tunnelling_request_body b) v =
    let r = TunnellingRequestBody.round_trip b v in
    record {
      raw = r.raw;
      written = r.written;
      counted = r.counted;
      parsed = ap (body_of tunnelling_request_body) r.parsed;
    }
body_round_trip (tunnelling_ack_body b) v =
    let r =
      closed_round_trip TunnellingAckBody.to_knx TunnellingAckBody.from_knx
        (TunnellingAckBody.calculated_length b) b (TunnellingAckBody.round_trip b v) in
    record {
      raw = r.raw;
      written = r.written;
      counted = r.counted;
      parsed = ap (body_of tunnelling_ack_body) r.parsed;
    }
