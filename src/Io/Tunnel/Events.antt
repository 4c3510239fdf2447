-- ===== src/Io/Tunnel/Events.antt =====
-- All that can happen to a client, in any order: the calls of its methods, inbound frames, timers and
-- the promises that it waits for.
use node_red_contrib_eelectr.Base.{ℕ, Bytes}
use node_red_contrib_eelectr.Core.Cemi.{CemiFrame}
use node_red_contrib_eelectr.Core.Bodies.ConnectResponse.{ConnectResponse}
use node_red_contrib_eelectr.Core.Bodies.ConnectionStateResponse.{ConnectionStateResponse}
use node_red_contrib_eelectr.Core.Frame.{KnxipFrame}
use node_red_contrib_eelectr.Io.Tunnel.{
  TunnelClient, TunnelClientOptions, SocketAddress, Reason, Outcome, new_tunnel_client,
}
use node_red_contrib_eelectr.Io.Tunnel.Pending.{on_ack_timeout, on_response_timeout}
use node_red_contrib_eelectr.Io.Tunnel.Lost.{connect, reconnect_attempt, on_invalid_seq_timeout}
use node_red_contrib_eelectr.Io.Tunnel.Inbound.{on_frame}
use node_red_contrib_eelectr.Io.Tunnel.Lifecycle.{
  connect_failed, on_bound, on_connect_response, finish_disconnect, disconnect_now, disconnect,
  reconnected,
}
use node_red_contrib_eelectr.Io.Tunnel.Sending.{
  tunnelling_request_once, on_acknowledged, send_cemi, Attempt, on_attempt_failed,
}
use node_red_contrib_eelectr.Io.Tunnel.Heartbeat.{
  heartbeat, on_heartbeat_response, on_heartbeat_error,
}

pub data Event : Type 0 where
  connects disconnects reconnect_waited has_reconnected reconnect_settled : Event
  binds : SocketAddress → Event
  connect_answered : ConnectResponse → Event
  connect_fails : Reason → Event
  disconnect_done : Event
  frame_arrives : KnxipFrame → Event
  sends : CemiFrame → Event
  attempt_fails : Attempt → Bytes → Event
  resends : Bytes → Event
  acknowledged ack_times_out response_times_out invalid_seq_times_out heartbeat_fires : Event
  heartbeat_answered : ℕ → ConnectionStateResponse → Event
  heartbeat_errs : ℕ → Event

unfoldable pub on_event : Event → TunnelClient → Outcome
on_event connects c = connect c
on_event disconnects c = disconnect c
on_event reconnect_waited c = reconnect_attempt c
on_event has_reconnected c = reconnected c
on_event reconnect_settled c = disconnect_now c
on_event (binds bound) c = on_bound bound c
on_event (connect_answered response) c = on_connect_response response c
on_event (connect_fails reason) c = connect_failed reason c
on_event disconnect_done c = finish_disconnect c
on_event (frame_arrives frame) c = on_frame frame c
on_event (sends cemi) c = send_cemi cemi c
on_event (attempt_fails attempt raw_cemi) c = on_attempt_failed attempt raw_cemi c
on_event (resends raw_cemi) c = tunnelling_request_once raw_cemi c
on_event acknowledged c = on_acknowledged c
on_event ack_times_out c = on_ack_timeout c
on_event response_times_out c = on_response_timeout c
on_event invalid_seq_times_out c = on_invalid_seq_timeout c
on_event heartbeat_fires c = heartbeat c
on_event (heartbeat_answered left response) c = on_heartbeat_response left response c
on_event (heartbeat_errs left) c = on_heartbeat_error left c

-- A client that some history of events leads to.
pub data Reachable (opts : TunnelClientOptions) : TunnelClient → Type 0 where
  created : Reachable opts (new_tunnel_client opts)
  happened :
      (c : TunnelClient) (e : Event) → Reachable opts c → Reachable opts (on_event e c).client
