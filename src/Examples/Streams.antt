-- ===== src/Examples/Streams.antt =====
-- Frames on a byte stream.
use node_red_contrib_eelectr.Base.{
  ◌+◌, ◌<◌, ◌≡◌, refl, arith, true, false, List, [], ◌∷◌, map, Bytes, length, concat, ok, err,
  could_not_parse_knxip, RoundTrip,
}
use node_red_contrib_eelectr.Core.Hpai.{route_back, ipv4_udp}
use node_red_contrib_eelectr.Core.Cri.{default_crd, crd_calculated_length}
use node_red_contrib_eelectr.Core.Header.{header_length}
use node_red_contrib_eelectr.Core.Bodies.ConnectionStateResponse as StateResponse
use node_red_contrib_eelectr.Core.Bodies.DisconnectResponse as DisconnectResponseBody
use node_red_contrib_eelectr.Core.Bodies.ConnectResponse as ConnectResponseBody
use node_red_contrib_eelectr.Core.Frame.{
  KnxipBody, connectionstate_response_body, disconnect_response_body, connect_response_body,
  from_body, body_calculated_length,
}
use node_red_contrib_eelectr.Core.Frame
use node_red_contrib_eelectr.Core.Frame.BodyTrips.{IsWireBody}
use node_red_contrib_eelectr.Core.Frame.RoundTrip.{from_knx-to_knx_frame, refused_frame_rejected}
use node_red_contrib_eelectr.Io.TcpTransport.{
  message, TcpTransport, on_chunks, on_data, send_all, cut_at,
}
use node_red_contrib_eelectr.Io.TcpTransport.Chunks.{IsWireFrame, on_chunks-concat}
use node_red_contrib_eelectr.Io.TcpTransport.Stream.{on_chunks-send_all}

abbrev alive : KnxipBody
alive = connectionstate_response_body (record { communication_channel_id = 7; status_code = 0 })

abbrev gone : KnxipBody
gone = disconnect_response_body (record { communication_channel_id = 7; status_code = 0 })

alive-IsWireFrame : IsWireFrame alive
unfolding IsWireBody body_calculated_length StateResponse.calculated_length
alive-IsWireFrame = record {
  body_fits = record { channel_fits = omega arith; status_fits = omega arith };
  length_fits = omega arith;
}

gone-IsWireFrame : IsWireFrame gone
unfolding IsWireBody body_calculated_length DisconnectResponseBody.calculated_length
gone-IsWireFrame = record {
  body_fits = record { channel_fits = omega arith; status_fits = omega arith };
  length_fits = omega arith;
}

abbrev opened : TcpTransport
opened = record { socket = true; closed = false }

-- Two frames of eight bytes, in pieces of three, nine and four.
on_chunks-send_all_example :
    (stream : Bytes) × (send_all opened (map from_body (alive ∷ gone ∷ [])) ≡ ok stream)
    × (on_chunks [] (cut_at (3 ∷ 9 ∷ []) stream) ≡ record {
      events = message (from_body alive) ∷ message (from_body gone) ∷ [];
      rx_buf = [];
    })
on_chunks-send_all_example =
    on_chunks-send_all opened (alive ∷ gone ∷ []) (3 ∷ 9 ∷ []) refl refl
      (alive-IsWireFrame, (gone-IsWireFrame, tt))

abbrev pieces : List Bytes
pieces = (6 ∷ 16 ∷ 2 ∷ []) ∷ (8 ∷ 0 ∷ 8 ∷ 7 ∷ []) ∷ (0 ∷ 5 ∷ []) ∷ []

on_chunks-concat_example : on_chunks [] pieces ≡ on_data [] (concat pieces)
on_chunks-concat_example = on_chunks-concat pieces

from_knx-to_knx_frame_example :
    RoundTrip Frame.to_knx Frame.from_knx
      (header_length + body_calculated_length alive)
      (from_body alive)
from_knx-to_knx_frame_example =
    from_knx-to_knx_frame alive alive-IsWireFrame.body_fits alive-IsWireFrame.length_fits

-- E_NO_MORE_CONNECTIONS.
abbrev refusal : ConnectResponseBody.ConnectResponse
refusal = record {
  communication_channel_id = 0;
  status_code = 0x24;
  data_endpoint = route_back ipv4_udp;
  crd = default_crd;
}

refusal_short : header_length + ConnectResponseBody.calculated_length refusal < 65536
unfolding ConnectResponseBody.calculated_length crd_calculated_length
refusal_short = ground arith

refused_frame_rejected_example :
    (raw : Bytes) × (Frame.to_knx (from_body (connect_response_body refusal)) ≡ ok raw)
    × (length raw ≡ 8)
    × (Frame.from_knx raw ≡ err could_not_parse_knxip)
refused_frame_rejected_example = refused_frame_rejected refusal (ground arith) refusal_short
