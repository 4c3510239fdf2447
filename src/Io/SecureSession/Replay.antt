-- ===== src/Io/SecureSession/Replay.antt =====
-- Wrappers that arrive again, or out of their order.
use node_red_contrib_eelectr.Base.{ℕ, ◌≡◌, refl, false, some, List, [], ◌∷◌, map, Bytes, ok, ap}
use node_red_contrib_eelectr.Core.Frame.{KnxipFrame, secure_wrapper_body, from_body, from_knx}
use node_red_contrib_eelectr.Secure.Crypto.{NodeCrypto, IsCipher}
use node_red_contrib_eelectr.Secure.Wrapper.{Sealed, encrypt_secure_wrapper}
use node_red_contrib_eelectr.Io.Tunnel.{SocketAddress}
use node_red_contrib_eelectr.Io.SecureSession.{SecureSession, Action, doing, emit_message, ◌▷◌}
use node_red_contrib_eelectr.Io.SecureSession.Sending.{info_of}
use node_red_contrib_eelectr.Io.SecureSession.Inbound.{on_inner_frame, dispatch}
use node_red_contrib_eelectr.Io.SecureSession.Events.{Event, frame_arrives, on_event, run}
use node_red_contrib_eelectr.Io.SecureSession.Delivery.{is_status, wrapper_of, opened_by}

-- A frame that the session `s` has once wrapped under some number.
pub record Wrapped (node : NodeCrypto) (key : Bytes) (s : SecureSession) : Type 0 where
  pub sequence : ℕ
  pub plain : Bytes
  pub sealed : Sealed
  pub inner : KnxipFrame
  pub bytes_read : ℕ
  pub encrypted : encrypt_secure_wrapper node key (info_of s sequence) plain ≡ ok sealed
  pub parses : from_knx plain ≡ ok (inner, bytes_read)
  pub no_status : is_status inner.body ≡ false

module _ (node : NodeCrypto) (key : Bytes) (s : SecureSession) where
  abbrev pub arrival : SocketAddress → Wrapped node key s → Event
  arrival source w =
      frame_arrives (from_body (secure_wrapper_body (wrapper_of s w.sequence w.sealed))) source

  abbrev pub message : SocketAddress → Wrapped node key s → Action
  message source w = emit_message w.inner source

-- Wrappers of the session's key and identifier arrive in any order, with any sequence numbers and as
-- often as you like, and no SESSION_STATUS among them: each arrival hands on its frame, and the session
-- does not change. So a wrapper that is recorded and sent again is taken for a new one.
pub run-arrivals :
    (node : NodeCrypto) (v : IsCipher node) (key : Bytes) (s r : SecureSession)
    (source : SocketAddress) (ws : List (Wrapped node key s))
    → r.session_key ≡ some key
    → r.session_id ≡ s.session_id
    → run node (map (arrival node key s source) ws) r ≡ doing (map (message node key s source) ws) r
unfolding run on_event on_inner_frame dispatch from_body
run-arrivals node v key s r source [] k i = refl
run-arrivals node v key s r source (w ∷ ws) k i =
    rw
      (opened_by node v key w.plain w.sequence w.bytes_read s r source w.sealed w.inner k i
        w.encrypted w.parses w.no_status)
      (ap (λ o. doing (emit_message w.inner source ∷ []) r ▷ λ _. o)
        (run-arrivals node v key s r source ws k i))
