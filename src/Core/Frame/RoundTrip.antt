-- ===== src/Core/Frame/RoundTrip.antt =====
-- A frame built around a body that fits the wire survives the wire.
use node_red_contrib_eelectr.Base.{
  ◌+◌, ◌^◌, ◌<◌, ◌≡◌, arith, ◌++◌, [], ◌∷◌, ◌%◌, ◌≢◌, err, could_not_parse_knxip, Bytes, length,
  length-append, drop-exact, ok, RoundTrip,
}
use node_red_contrib_eelectr.Core.Header.{header_length, header_round_trip}
use node_red_contrib_eelectr.Core.Frame.{
  KnxipBody, connect_request_body, connect_response_body, connectionstate_request_body,
  connectionstate_response_body, disconnect_request_body, disconnect_response_body,
  search_request_body, search_response_body, secure_wrapper_body, session_request_body,
  session_response_body, session_authenticate_body, session_status_body, timer_notify_body,
  tunnelling_request_body, tunnelling_ack_body, service_type_of, body_calculated_length,
  body_to_knx, from_body, from_knx, to_knx,
}
use node_red_contrib_eelectr.Core.Bodies.ConnectResponse as ConnectResponseBody
use node_red_contrib_eelectr.Core.Frame.BodyTrips.{IsWireBody, body_round_trip}

service_type_fits : (b : KnxipBody) → service_type_of b < 2 ^ 16
unfolding service_type_of
service_type_fits (connect_request_body b) = omega arith
service_type_fits (connect_response_body b) = omega arith
service_type_fits (connectionstate_request_body b) = omega arith
service_type_fits (connectionstate_response_body b) = omega arith
service_type_fits (disconnect_request_body b) = omega arith
service_type_fits (disconnect_response_body b) = omega arith
service_type_fits (search_request_body b) = omega arith
service_type_fits (search_response_body b) = omega arith
service_type_fits (secure_wrapper_body b) = omega arith
service_type_fits (session_request_body b) = omega arith
service_type_fits (session_response_body b) = omega arith
service_type_fits (session_authenticate_body b) = omega arith
service_type_fits (session_status_body b) = omega arith
service_type_fits (timer_notify_body b) = omega arith
service_type_fits (tunnelling_request_body b) = omega arith
service_type_fits (tunnelling_ack_body b) = omega arith

-- A body that fits its wire format, in a frame whose length fits the header: the writer succeeds with
-- as many bytes as the header announces, and the parser gives the frame back.
pub from_knx-to_knx_frame :
    (b : KnxipBody)
    → IsWireBody b
    → header_length + body_calculated_length b < 2 ^ 16
    → RoundTrip to_knx from_knx (header_length + body_calculated_length b) (from_body b)
unfolding to_knx from_knx from_body
from_knx-to_knx_frame b v hl =
    let h = header_round_trip (from_body b).header (service_type_fits b) hl in
    let r = body_round_trip b v in
    record {
      raw = h.raw ++ r.raw;
      written = ground (arith, h.written, r.written);
      counted = ground (arith, h.counted, r.counted, length-append h.raw r.raw);
      parsed = ground (
        arith,
        h.parsed r.raw,
        r.parsed,
        h.counted,
        r.counted,
        length-append h.raw r.raw,
        drop-exact header_length h.raw r.raw h.counted,
      );
    }

-- A response that refuses the connection is written as eight bytes under a header that announces
-- the length of a full response, so the parser rejects the frame that the writer made.
pub refused_frame_rejected :
    (b : ConnectResponseBody.ConnectResponse)
    → b.status_code ≢ 0
    → header_length + ConnectResponseBody.calculated_length b < 2 ^ 16
    → (raw : Bytes) × (to_knx (from_body (connect_response_body b)) ≡ ok raw)
      × (length raw ≡ 8)
      × (from_knx raw ≡ err could_not_parse_knxip)
unfolding to_knx from_knx from_body body_to_knx ConnectResponseBody.to_knx service_type_of
    body_calculated_length ConnectResponseBody.calculated_length
refused_frame_rejected b h hl =
    let head = header_round_trip (from_body (connect_response_body b)).header (omega arith) hl in
    let body = b.communication_channel_id % 256 ∷ b.status_code % 256 ∷ [] in
    (
      head.raw ++ body,
      ground (arith, head.written),
      ground (arith, head.counted, length-append head.raw body),
      ground (arith, head.parsed body, head.counted, length-append head.raw body),
    )
