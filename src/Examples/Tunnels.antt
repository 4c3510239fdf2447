-- ===== src/Examples/Tunnels.antt =====
-- Clients, telegrams and frames for the theorems on the tunnel.
use node_red_contrib_eelectr.Base.{
  ◌+◌, ◌%◌, ◌≡◌, ◌≢◌, refl, arith, true, false, ◌==◌, if◌then◌else◌, ◌||◌, not, none, some, List,
  [], ◌∷◌, ◌++◌, map, Bytes, All, ok,
}
use node_red_contrib_eelectr.Core.Address.{read_uint16_be, of_number}
use node_red_contrib_eelectr.Core.Address.Individual
use node_red_contrib_eelectr.Core.Address.Group
use node_red_contrib_eelectr.Core.Tpci.{resolve_tpci, is_control_tpci}
use node_red_contrib_eelectr.Core.Apci.{decode_apci}
use node_red_contrib_eelectr.Core.Cemi.{frame_from_knx}
use node_red_contrib_eelectr.Core.Cemi
use node_red_contrib_eelectr.Core.Hpai.{route_back, is_route_back, ipv4_udp}
use node_red_contrib_eelectr.Core.Bodies.ConnectResponse.{ConnectResponse}
use node_red_contrib_eelectr.Core.Bodies.DisconnectRequest.{DisconnectRequest}
use node_red_contrib_eelectr.Core.Frame.{
  from_body, connect_response_body, tunnelling_ack_body, disconnect_request_body, service_type_of,
}
use node_red_contrib_eelectr.Io.Tunnel.{
  not_connected, send, TunnelClient, TunnelClientOptions, new_tunnel_client, connected, gave_up,
  gateway_disconnected, ack_timeout, reject_ack, reject_call, done, next_seq,
}
use node_red_contrib_eelectr.Io.Tunnel.Events.{
  connects, binds, connect_answered, frame_arrives, on_event, Reachable, created, happened,
}
use node_red_contrib_eelectr.Io.Tunnel.Lost.{set_state, connect, start_heartbeat, on_tunnel_lost}
use node_red_contrib_eelectr.Io.Tunnel.Lifecycle.{
  on_bound, send_connect_request, on_connect_response,
}
use node_red_contrib_eelectr.Io.Tunnel.Inbound.{on_frame, on_frames, previous_seq}
use node_red_contrib_eelectr.Io.Tunnel.Inbound.Delivery.{
  emitted, acknowledged, IsListening, request, ack_to,
}
use node_red_contrib_eelectr.Io.Tunnel.Inbound.ExactlyOnce.{
  Telegram, IsTelegram, transmissions, acks_owed,
}
use node_red_contrib_eelectr.Io.Tunnel.Inbound.Refused.{
  TcpTelegram, IsTcpTelegram, IsListeningTcp, on_frame-unexpected, on_frame-foreign, on_frames-tcp,
}
use node_red_contrib_eelectr.Io.Tunnel.Invariant.{IsValid}
use node_red_contrib_eelectr.Io.Tunnel.Invariant.Reached.{Reachable-IsValid}
use node_red_contrib_eelectr.Io.Tunnel.Loss.{lost_client, lost_actions, on_tunnel_lost_lem}
use node_red_contrib_eelectr.Io.Tunnel.Sending.{
  tunnelling_request_once, on_attempt_failed, first, second,
}
use node_red_contrib_eelectr.Io.Tunnel.Pending.{on_ack_timeout, await_response}
use node_red_contrib_eelectr.Io.Tunnel.Retries.{
  IsReady, attempt_seq, answer_to, on_frame-once, on_attempt_failed_lem,
}
use node_red_contrib_eelectr.Io.Tunnel.Reliable.{on_frames-exactly_once}
use node_red_contrib_eelectr.Examples.Wire.{switch_on_frame}

abbrev pub udp : TunnelClientOptions
udp = record {
  over_tcp = false;
  auto_reconnect = true;
  heartbeats = true;
  route_back = true;
  requested_individual_address = none;
}

abbrev pub accepted : ConnectResponse
accepted = record {
  communication_channel_id = 7;
  status_code = 0;
  data_endpoint = route_back ipv4_udp;
  crd = record { connection_type = 4; individual_address = some (record { raw = 0x1105 }) };
}

-- The client that has connected: the history, and the fields that matter.
abbrev opening : TunnelClient
opening = (on_event connects (new_tunnel_client udp)).client

abbrev asking : TunnelClient
asking = (on_event (binds (record { address = []; port = 0 })) opening).client

abbrev answered : TunnelClient
answered = (on_event (frame_arrives (from_body (connect_response_body accepted))) asking).client

abbrev tunnelling : TunnelClient
tunnelling = (on_event (connect_answered accepted) answered).client

tunnelling-Reachable : Reachable udp tunnelling
tunnelling-Reachable = happened answered (connect_answered accepted) (
    happened asking (frame_arrives (from_body (connect_response_body accepted))) (
      happened opening (binds (record { address = []; port = 0 }))
        (happened (new_tunnel_client udp) connects created)))

-- The same client, written out.
abbrev pub ready : TunnelClient
ready = record (new_tunnel_client udp) {
  state = connected;
  transport = true;
  channel_id = some 7;
  assigned_address = some (record { raw = 0x1105 });
  heartbeat_timer = true;
}

abbrev pub telegram_bytes : Bytes
telegram_bytes =
    0x29 ∷ 0x03 ∷ 3 ∷ 1 ∷ 7 ∷ 0xbc ∷ 0xe0 ∷ 0x11 ∷ 0x01 ∷ 0x09 ∷ 0x01 ∷ 0x01 ∷ 0x00 ∷ 0x81 ∷ []

-- A telegram of which the request is sent three times.
abbrev repeated : Telegram
repeated = record {
  frame = switch_on_frame;
  raw_cemi = telegram_bytes;
  bytes_read = 14;
  repeats = 2;
}

abbrev single : Telegram
single = record { frame = switch_on_frame; raw_cemi = telegram_bytes; bytes_read = 14; repeats = 0 }

telegram_parsed : frame_from_knx telegram_bytes ≡ ok (switch_on_frame, 14)
unfolding frame_from_knx Cemi.from_knx Individual.from_knx read_uint16_be of_number Group.from_knx
    resolve_tpci is_control_tpci decode_apci
telegram_parsed = refl

telegrams-IsTelegram : All IsTelegram (repeated ∷ single ∷ [])
unfolding IsTelegram
telegrams-IsTelegram = (telegram_parsed, (telegram_parsed, tt))

tunnelling-fields :
    (tunnelling.transport ≡ true)
    × (tunnelling.channel_id ≡ some 7)
    × (tunnelling.opts.over_tcp ≡ false)
unfolding on_event new_tunnel_client connect set_state on_bound send_connect_request await_response
    on_frame from_body service_type_of on_connect_response start_heartbeat route_back is_route_back
tunnelling-fields = (refl, refl, refl)

on_frames-exactly_once_example :
    let out = on_frames (transmissions 7 tunnelling.seq_in (repeated ∷ single ∷ [])) tunnelling in
    (emitted out.actions ≡ switch_on_frame ∷ switch_on_frame ∷ [])
    × (acknowledged out.actions ≡ acks_owed 7 tunnelling.seq_in (repeated ∷ single ∷ []))
    × (out.client.seq_in ≡ (tunnelling.seq_in + 2) % 256)
    × (out.client.rx_telegrams ≡ tunnelling.rx_telegrams + 2)
on_frames-exactly_once_example =
    on_frames-exactly_once udp 7 (repeated ∷ single ∷ []) tunnelling tunnelling-Reachable
      tunnelling-fields.0 tunnelling-fields.1 tunnelling-fields.2 telegrams-IsTelegram

Reachable-IsValid_example : IsValid tunnelling
Reachable-IsValid_example = Reachable-IsValid udp tunnelling tunnelling-Reachable

on_tunnel_lost_lem_example :
    on_tunnel_lost gateway_disconnected ready
    ≡ record { client = lost_client ready; actions = lost_actions gateway_disconnected ready }
on_tunnel_lost_lem_example = on_tunnel_lost_lem gateway_disconnected ready refl refl

pub ready-IsReady : IsReady 7 ready
unfolding new_tunnel_client
ready-IsReady = record {
  has_transport = refl;
  on_channel = refl;
  awaits_none = refl;
  not_awaited = refl;
}

on_frame-once_example :
    on_frame
      (from_body (tunnelling_ack_body (ack_to 7 0)))
      (tunnelling_request_once telegram_bytes ready).client
    ≡ record {
      client =
          if (ack_to 7 0).sequence_counter == attempt_seq ready
          then ready
          else record ready { pending_ack = some (attempt_seq ready) };
      actions = answer_to (attempt_seq ready) (ack_to 7 0);
    }
on_frame-once_example = on_frame-once 7 telegram_bytes (ack_to 7 0) ready ready-IsReady

on_attempt_failed_lem_example :
    let once = tunnelling_request_once telegram_bytes ready in
    let late = on_ack_timeout once.client in
    let bumped = record ready { seq_out = next_seq ready.seq_out } in
    (late ≡ record { client = ready; actions = reject_ack ack_timeout ∷ [] })
    × (on_attempt_failed first telegram_bytes late.client ≡ once)
    × (on_attempt_failed second telegram_bytes late.client ≡ record {
      client = lost_client bumped;
      actions =
          lost_actions gave_up bumped
          ++ (if not ready.opts.auto_reconnect then reject_call gave_up ∷ [] else []);
    })
    × (tunnelling_request_once telegram_bytes (lost_client bumped)
        ≡ record { client = lost_client bumped; actions = reject_ack not_connected ∷ [] })
on_attempt_failed_lem_example = on_attempt_failed_lem 7 telegram_bytes ready ready-IsReady refl refl

ready-IsListening : IsListening 7 ready
unfolding new_tunnel_client
ready-IsListening = record {
  has_transport = refl;
  on_channel = refl;
  over_udp = refl;
  not_awaited = refl;
  counts_bytes = omega arith;
}

nine-unexpected : 9 ≢ ready.seq_in
unfolding new_tunnel_client
nine-unexpected = ground arith

on_frame-unexpected_example : on_frame (request 7 9 telegram_bytes) ready ≡ record {
  client = if 9 == previous_seq ready.seq_in then ready else record ready {
    invalid_seq_timer = ready.invalid_seq_timer || not ready.reconnect_promise;
  };
  actions =
      if 9 == previous_seq ready.seq_in
      then send (tunnelling_ack_body (ack_to 7 9)) ready.data_endpoint ∷ []
      else [];
}
on_frame-unexpected_example =
    on_frame-unexpected 7 9 telegram_bytes ready ready-IsListening (omega arith) nine-unexpected

foreign_request : DisconnectRequest
foreign_request = record { communication_channel_id = 3; control_endpoint = route_back ipv4_udp }

on_frame-foreign_example :
    (on_frame (request 9 0 telegram_bytes) ready ≡ done ready)
    × (on_frame (from_body (disconnect_request_body foreign_request)) ready ≡ done ready)
unfolding new_tunnel_client foreign_request
on_frame-foreign_example =
    on_frame-foreign 7 9 0 telegram_bytes foreign_request ready refl (ground arith) (ground arith)
      refl refl

abbrev ready_tcp : TunnelClient
ready_tcp = record ready { opts = record udp { over_tcp = true } }

ready_tcp-IsListeningTcp : IsListeningTcp 7 ready_tcp
unfolding new_tunnel_client
ready_tcp-IsListeningTcp = record {
  has_transport = refl;
  on_channel = refl;
  over_tcp = refl;
  not_awaited = refl;
}

abbrev over_tcp_twice : List TcpTelegram
over_tcp_twice =
    record { frame = switch_on_frame; raw_cemi = telegram_bytes; bytes_read = 14; seq = 0 }
    ∷ record { frame = switch_on_frame; raw_cemi = telegram_bytes; bytes_read = 14; seq = 0 }
    ∷ []

over_tcp_twice-IsTcpTelegram : All IsTcpTelegram over_tcp_twice
unfolding IsTcpTelegram
over_tcp_twice-IsTcpTelegram = (telegram_parsed, (telegram_parsed, tt))

on_frames-tcp_example :
    let out = on_frames (map (λ t. request 7 t.seq t.raw_cemi) over_tcp_twice) ready_tcp in
    (emitted out.actions ≡ switch_on_frame ∷ switch_on_frame ∷ [])
    × (acknowledged out.actions ≡ ack_to 7 0 ∷ ack_to 7 0 ∷ [])
    × (out.client.seq_in ≡ ready_tcp.seq_in)
    × (out.client.seq_out ≡ ready_tcp.seq_out)
on_frames-tcp_example =
    on_frames-tcp 7 over_tcp_twice ready_tcp ready_tcp-IsListeningTcp over_tcp_twice-IsTcpTelegram
