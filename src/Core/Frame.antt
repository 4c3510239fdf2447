-- ===== src/Core/Frame.antt =====
-- src/core/knxipFrame.ts, src/core/serviceTypes.ts and the union of src/core/bodies.ts: a frame is a
-- header and the body that the service type of the header selects.
pub mod BodyTrips
pub mod RoundTrip
use node_red_contrib_eelectr.Base.{
  ℕ, ◌+◌, Bool, ◌==◌, ltb, if◌then◌else◌, List, ◌++◌, Bytes, length, drop, Result, ok, err, ◌>>=◌,
  ◌>>◌, throw_if, could_not_parse_knxip, unsupported_knxip_service,
}
use node_red_contrib_eelectr.Core.Header.{
  KnxipHeader, header_length, header_from_knx, header_to_knx,
}
use node_red_contrib_eelectr.Core.Bodies.ConnectRequest as ConnectRequestBody
use node_red_contrib_eelectr.Core.Bodies.ConnectResponse as ConnectResponseBody
use node_red_contrib_eelectr.Core.Bodies.ConnectionStateRequest as ConnectionStateRequestBody
use node_red_contrib_eelectr.Core.Bodies.ConnectionStateResponse as ConnectionStateResponseBody
use node_red_contrib_eelectr.Core.Bodies.DisconnectRequest as DisconnectRequestBody
use node_red_contrib_eelectr.Core.Bodies.DisconnectResponse as DisconnectResponseBody
use node_red_contrib_eelectr.Core.Bodies.SearchRequest as SearchRequestBody
use node_red_contrib_eelectr.Core.Bodies.SearchResponse as SearchResponseBody
use node_red_contrib_eelectr.Core.Bodies.SecureWrapper as SecureWrapperBody
use node_red_contrib_eelectr.Core.Bodies.SessionRequest as SessionRequestBody
use node_red_contrib_eelectr.Core.Bodies.SessionResponse as SessionResponseBody
use node_red_contrib_eelectr.Core.Bodies.SessionAuthenticate as SessionAuthenticateBody
use node_red_contrib_eelectr.Core.Bodies.SessionStatus as SessionStatusBody
use node_red_contrib_eelectr.Core.Bodies.TimerNotify as TimerNotifyBody
use node_red_contrib_eelectr.Core.Bodies.TunnellingRequest as TunnellingRequestBody
use node_red_contrib_eelectr.Core.Bodies.TunnellingAck as TunnellingAckBody

pub data KnxipBody : Type 0 where
  connect_request_body : ConnectRequestBody.ConnectRequest → KnxipBody
  connect_response_body : ConnectResponseBody.ConnectResponse → KnxipBody
  connectionstate_request_body : ConnectionStateRequestBody.ConnectionStateRequest → KnxipBody
  connectionstate_response_body : ConnectionStateResponseBody.ConnectionStateResponse → KnxipBody
  disconnect_request_body : DisconnectRequestBody.DisconnectRequest → KnxipBody
  disconnect_response_body : DisconnectResponseBody.DisconnectResponse → KnxipBody
  search_request_body : SearchRequestBody.SearchRequest → KnxipBody
  search_response_body : SearchResponseBody.SearchResponse → KnxipBody
  secure_wrapper_body : SecureWrapperBody.SecureWrapper → KnxipBody
  session_request_body : SessionRequestBody.SessionRequest → KnxipBody
  session_response_body : SessionResponseBody.SessionResponse → KnxipBody
  session_authenticate_body : SessionAuthenticateBody.SessionAuthenticate → KnxipBody
  session_status_body : SessionStatusBody.SessionStatus → KnxipBody
  timer_notify_body : TimerNotifyBody.TimerNotify → KnxipBody
  tunnelling_request_body : TunnellingRequestBody.TunnellingRequest → KnxipBody
  tunnelling_ack_body : TunnellingAckBody.TunnellingAck → KnxipBody

-- The service types that have a body, from the table `ServiceType`.
abbrev pub connect_request : ℕ
connect_request = 0x0205

abbrev pub connect_response : ℕ
connect_response = 0x0206

abbrev pub connectionstate_request : ℕ
connectionstate_request = 0x0207

abbrev pub connectionstate_response : ℕ
connectionstate_response = 0x0208

abbrev pub disconnect_request : ℕ
disconnect_request = 0x0209

abbrev pub disconnect_response : ℕ
disconnect_response = 0x020a

abbrev pub search_request : ℕ
search_request = 0x0201

abbrev pub search_response : ℕ
search_response = 0x0202

abbrev pub secure_wrapper : ℕ
secure_wrapper = 0x0950

abbrev pub session_request : ℕ
session_request = 0x0951

abbrev pub session_response : ℕ
session_response = 0x0952

abbrev pub session_authenticate : ℕ
session_authenticate = 0x0953

abbrev pub session_status : ℕ
session_status = 0x0954

abbrev pub timer_notify : ℕ
timer_notify = 0x0955

abbrev pub tunnelling_request : ℕ
tunnelling_request = 0x0420

abbrev pub tunnelling_ack : ℕ
tunnelling_ack = 0x0421

-- `SERVICE_TYPE` of the class of a body.
unfoldable pub service_type_of : KnxipBody → ℕ
service_type_of (connect_request_body b) = connect_request
service_type_of (connect_response_body b) = connect_response
service_type_of (connectionstate_request_body b) = connectionstate_request
service_type_of (connectionstate_response_body b) = connectionstate_response
service_type_of (disconnect_request_body b) = disconnect_request
service_type_of (disconnect_response_body b) = disconnect_response
service_type_of (search_request_body b) = search_request
service_type_of (search_response_body b) = search_response
service_type_of (secure_wrapper_body b) = secure_wrapper
service_type_of (session_request_body b) = session_request
service_type_of (session_response_body b) = session_response
service_type_of (session_authenticate_body b) = session_authenticate
service_type_of (session_status_body b) = session_status
service_type_of (timer_notify_body b) = timer_notify
service_type_of (tunnelling_request_body b) = tunnelling_request
service_type_of (tunnelling_ack_body b) = tunnelling_ack

unfoldable pub body_calculated_length : KnxipBody → ℕ
body_calculated_length (connect_request_body b) = ConnectRequestBody.calculated_length b
body_calculated_length (connect_response_body b) = ConnectResponseBody.calculated_length b
body_calculated_length (connectionstate_request_body b) =
    ConnectionStateRequestBody.calculated_length b
body_calculated_length (connectionstate_response_body b) =
    ConnectionStateResponseBody.calculated_length b
body_calculated_length (disconnect_request_body b) = DisconnectRequestBody.calculated_length b
body_calculated_length (disconnect_response_body b) = DisconnectResponseBody.calculated_length b
body_calculated_length (search_request_body b) = SearchRequestBody.calculated_length b
body_calculated_length (search_response_body b) = SearchResponseBody.calculated_length b
body_calculated_length (secure_wrapper_body b) = SecureWrapperBody.calculated_length b
body_calculated_length (session_request_body b) = SessionRequestBody.calculated_length b
body_calculated_length (session_response_body b) = SessionResponseBody.calculated_length b
body_calculated_length (session_authenticate_body b) = SessionAuthenticateBody.calculated_length b
body_calculated_length (session_status_body b) = SessionStatusBody.calculated_length b
body_calculated_length (timer_notify_body b) = TimerNotifyBody.calculated_length b
body_calculated_length (tunnelling_request_body b) = TunnellingRequestBody.calculated_length b
body_calculated_length (tunnelling_ack_body b) = TunnellingAckBody.calculated_length b

unfoldable pub body_to_knx : KnxipBody → Result Bytes
body_to_knx (connect_request_body b) = ConnectRequestBody.to_knx b
body_to_knx (connect_response_body b) = ConnectResponseBody.to_knx b
body_to_knx (connectionstate_request_body b) = ConnectionStateRequestBody.to_knx b
body_to_knx (connectionstate_response_body b) = ConnectionStateResponseBody.to_knx b
body_to_knx (disconnect_request_body b) = DisconnectRequestBody.to_knx b
body_to_knx (disconnect_response_body b) = DisconnectResponseBody.to_knx b
body_to_knx (search_request_body b) = SearchRequestBody.to_knx b
body_to_knx (search_response_body b) = SearchResponseBody.to_knx b
body_to_knx (secure_wrapper_body b) = SecureWrapperBody.to_knx b
body_to_knx (session_request_body b) = SessionRequestBody.to_knx b
body_to_knx (session_response_body b) = SessionResponseBody.to_knx b
body_to_knx (session_authenticate_body b) = SessionAuthenticateBody.to_knx b
body_to_knx (session_status_body b) = SessionStatusBody.to_knx b
body_to_knx (timer_notify_body b) = TimerNotifyBody.to_knx b
body_to_knx (tunnelling_request_body b) = TunnellingRequestBody.to_knx b
body_to_knx (tunnelling_ack_body b) = TunnellingAckBody.to_knx b

abbrev pub body_of {ℓ} : {A : Type ℓ} → (A → KnxipBody) → Result (A × ℕ) → Result (KnxipBody × ℕ)
body_of c (ok (b, n)) = ok (c b, n)
body_of c (err e) = err e

unfoldable pub parse_body : ℕ → Bytes → Result (KnxipBody × ℕ)
parse_body service_type raw =
    if service_type == connect_request
    then body_of connect_request_body (ConnectRequestBody.from_knx raw)
    else if service_type == connect_response
    then body_of connect_response_body (ConnectResponseBody.from_knx raw)
    else if service_type == connectionstate_request
    then body_of connectionstate_request_body (ConnectionStateRequestBody.from_knx raw)
    else if service_type == connectionstate_response
    then body_of connectionstate_response_body (ConnectionStateResponseBody.from_knx raw)
    else if service_type == disconnect_request
    then body_of disconnect_request_body (DisconnectRequestBody.from_knx raw)
    else if service_type == disconnect_response
    then body_of disconnect_response_body (DisconnectResponseBody.from_knx raw)
    else if service_type == search_request
    then body_of search_request_body (SearchRequestBody.from_knx raw)
    else if service_type == search_response
    then body_of search_response_body (SearchResponseBody.from_knx raw)
    else if service_type == secure_wrapper
    then body_of secure_wrapper_body (SecureWrapperBody.from_knx raw)
    else if service_type == session_request
    then body_of session_request_body (SessionRequestBody.from_knx raw)
    else if service_type == session_response
    then body_of session_response_body (SessionResponseBody.from_knx raw)
    else if service_type == session_authenticate
    then body_of session_authenticate_body (SessionAuthenticateBody.from_knx raw)
    else if service_type == session_status
    then body_of session_status_body (SessionStatusBody.from_knx raw)
    else if service_type == timer_notify
    then body_of timer_notify_body (TimerNotifyBody.from_knx raw)
    else if service_type == tunnelling_request
    then body_of tunnelling_request_body (TunnellingRequestBody.from_knx raw)
    else if service_type == tunnelling_ack
    then body_of tunnelling_ack_body (TunnellingAckBody.from_knx raw)
    else err (unsupported_knxip_service service_type)

pub record KnxipFrame : Type 0 where
  pub header : KnxipHeader
  pub body : KnxipBody

unfoldable pub from_body : KnxipBody → KnxipFrame
from_body body = record {
  header = record {
    service_type = service_type_of body;
    total_length = header_length + body_calculated_length body;
  };
  body = body;
}

unfoldable pub from_knx : Bytes → Result (KnxipFrame × ℕ)
from_knx raw = do
  (header, header_bytes) ← header_from_knx raw
  throw_if (ltb (length raw) header.total_length) could_not_parse_knxip
  (body, bytes_read) ← parse_body header.service_type (drop header_bytes raw)
  ok (record { header = header; body = body }, header_bytes + bytes_read)

unfoldable pub to_knx : KnxipFrame → Result Bytes
to_knx frame = do
  header ← header_to_knx frame.header
  body ← body_to_knx frame.body
  ok (header ++ body)
