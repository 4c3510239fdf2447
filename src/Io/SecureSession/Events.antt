-- ===== src/Io/SecureSession/Events.antt =====
-- All that can happen to a session, in any order, and what a history of it sends.
use node_red_contrib_eelectr.Base.{List, [], ◌∷◌}
use node_red_contrib_eelectr.Core.Frame.{KnxipFrame}
use node_red_contrib_eelectr.Secure.Crypto.{NodeCrypto}
use node_red_contrib_eelectr.Io.Tunnel.{SocketAddress}
use node_red_contrib_eelectr.Io.SecureSession.{SecureSession, Reason, Outcome, done, ◌▷◌}
use node_red_contrib_eelectr.Io.SecureSession.Sending.{send}
use node_red_contrib_eelectr.Io.SecureSession.Opening.{
  open_session, fail_handshake, on_handshake_timeout,
}
use node_red_contrib_eelectr.Io.SecureSession.Inbound.{on_inner_frame, on_inner_error}
use node_red_contrib_eelectr.Io.SecureSession.Closing.{
  close, close_sent, close_settled, on_inner_close, on_keepalive,
}

-- `send_fails` is a SESSION_REQUEST or a SESSION_AUTHENTICATE that the inner transport could not send.
pub data Event : Type 0 where
  opens closes close_is_sent close_is_settled inner_closes times_out keepalive_fires : Event
  sends : KnxipFrame → Event
  frame_arrives : KnxipFrame → SocketAddress → Event
  inner_errs send_fails : Reason → Event

unfoldable pub on_event : NodeCrypto → Event → SecureSession → Outcome
on_event node opens s = open_session s
on_event node closes s = close node s
on_event node close_is_sent s = close_sent s
on_event node close_is_settled s = close_settled s
on_event node inner_closes s = on_inner_close s
on_event node times_out s = on_handshake_timeout s
on_event node keepalive_fires s = on_keepalive node s
on_event node (sends frame) s = send node frame s
on_event node (frame_arrives frame source) s = on_inner_frame node frame source s
on_event node (inner_errs reason) s = on_inner_error reason s
on_event node (send_fails reason) s = fail_handshake reason s

-- The events of a history, the first one first.
unfoldable pub run : NodeCrypto → List Event → SecureSession → Outcome
run node [] s = done s
run node (e ∷ es) s = on_event node e s ▷ run node es
