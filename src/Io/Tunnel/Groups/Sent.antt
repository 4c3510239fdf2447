-- ===== src/Io/Tunnel/Groups/Sent.antt =====
-- What goes out to the gateway for a value of a group.
use node_red_contrib_eelectr.Base.{
  ℕ, ◌<◌, ◌≡◌, ◌^◌, refl, arith, true, false, ◌==◌, if◌then◌else◌, some, [], ◌∷◌, append-nil, Bytes,
  length, ok,
}
use node_red_contrib_eelectr.Core.Address.{GroupAddress, long}
use node_red_contrib_eelectr.Core.Tpci.{Tpci, is_control_tpci}
use node_red_contrib_eelectr.Core.Tpci.Coding as TpciCoding
use node_red_contrib_eelectr.Core.Apci.{
  ApduValue, Apci, group_value_write as write_of, group_value_read as read_of, apci_npdu_length,
}
use node_red_contrib_eelectr.Core.Apci.Coding as ApciCoding
use node_red_contrib_eelectr.Core.Cemi.{CemiFrame, frame_from_knx, group}
use node_red_contrib_eelectr.Core.Cemi.RoundTrip as CemiRoundTrip
use node_red_contrib_eelectr.Core.Cemi.RoundTrip.{frame_from_knx-frame_to_knx}
use node_red_contrib_eelectr.Core.Telegram.{default_tpci}
use node_red_contrib_eelectr.Io.Tunnel.{TunnelClient, connected, Outcome}
use node_red_contrib_eelectr.Io.Tunnel.Sending.{send_cemi}
use node_red_contrib_eelectr.Io.Tunnel.Retries.{IsReady, attempt_seq, attempt_request, once_lem}
use node_red_contrib_eelectr.Io.Tunnel.Groups.{
  source_of, group_frame, group_value_write, group_value_read,
}

default_tpci-Fits :
    (dst : GroupAddress) → TpciCoding.Fits (default_tpci (group dst)) true (dst.raw == 0)
unfolding default_tpci
default_tpci-Fits dst = split (dst.raw == 0)
  where
    split :
        (b : _) → TpciCoding.Fits (if b then Tpci.t_data_broadcast else Tpci.t_data_group) true b
    split true = (refl, refl)
    split false = (refl, refl)

default_tpci_data : (dst : GroupAddress) → is_control_tpci (default_tpci (group dst)) ≡ false
unfolding default_tpci is_control_tpci
default_tpci_data dst = ground arith

-- A payload that a frame can carry.
pub record IsPayload (a : Apci) : Type 0 where
  pub fits : ApciCoding.Fits a
  pub length_fits : apci_npdu_length a < 256

group_frame-IsWireFrame :
    (dst : GroupAddress) (payload : Apci) (c : TunnelClient)
    → dst.raw < 2 ^ 16
    → dst.style ≡ long
    → (source_of c.assigned_address).raw < 2 ^ 16
    → IsPayload payload
    → CemiRoundTrip.IsWireFrame (group_frame dst payload c)
unfolding group_frame
group_frame-IsWireFrame dst payload c hd hs ha hp = record {
  info_fits = omega arith;
  ldata_fits = record {
    flags_fit = ground arith;
    src_fits = ha;
    dst_fits = (hd, hs);
    flag_agrees = refl;
    tpci_fits = default_tpci-Fits dst;
    payload_fits = rw (default_tpci_data dst) (hp.fits, hp.length_fits);
  };
}

-- What a client that is ready sends for a cEMI frame.
pub SendsFrame : ℕ → CemiFrame → TunnelClient → Outcome → Type 0
SendsFrame channel frame c out =
    (raw : Bytes) × (frame_from_knx raw ≡ ok (frame, length raw))
    × (out ≡ record {
      client = record c { pending_ack = some (attempt_seq c) };
      actions = attempt_request channel raw c ∷ [];
    })

sends_frame :
    (channel : ℕ) (frame : CemiFrame) (c : TunnelClient)
    → IsReady channel c
    → c.state ≡ connected
    → CemiRoundTrip.IsWireFrame frame
    → SendsFrame channel frame c (send_cemi frame c)
unfolding SendsFrame send_cemi
sends_frame channel frame c r hs v =
    let (raw, written, counted, parsed) = frame_from_knx-frame_to_knx frame v in
    (raw, rw append-nil at (parsed []), ground (arith, hs, written, once_lem channel raw c r))

-- A connected client that can make an attempt writes a value of six bits, or of one byte to 254, to a
-- group address in the long style. It sends one request, under its sequence counter, whose bytes a
-- parser reads as a frame with that address as destination, the value as payload and the client's own
-- address as source; and it waits for the acknowledgement.
pub group_value_write-sent :
    (channel : ℕ) (dst : GroupAddress) (value : ApduValue) (c : TunnelClient)
    → IsReady channel c
    → c.state ≡ connected
    → dst.raw < 2 ^ 16
    → dst.style ≡ long
    → (source_of c.assigned_address).raw < 2 ^ 16
    → IsPayload (write_of value)
    → SendsFrame channel (group_frame dst (write_of value) c) c (group_value_write dst value c)
unfolding group_value_write
group_value_write-sent channel dst value c r hs hd hl ha hp =
    sends_frame channel (group_frame dst (write_of value) c) c r hs
      (group_frame-IsWireFrame dst (write_of value) c hd hl ha hp)

-- A connected client that can make an attempt reads a group address in the long style. It sends one
-- request, under its sequence counter, whose bytes a parser reads as a frame with that address as
-- destination, the read service as payload and the client's own address as source; and it waits for the
-- acknowledgement.
pub group_value_read-sent :
    (channel : ℕ) (dst : GroupAddress) (c : TunnelClient)
    → IsReady channel c
    → c.state ≡ connected
    → dst.raw < 2 ^ 16
    → dst.style ≡ long
    → (source_of c.assigned_address).raw < 2 ^ 16
    → SendsFrame channel (group_frame dst read_of c) c (group_value_read dst c)
unfolding group_value_read apci_npdu_length
group_value_read-sent channel dst c r hs hd hl ha =
    sends_frame channel (group_frame dst read_of c) c r hs (
      group_frame-IsWireFrame dst read_of c hd hl ha
        (record { fits = tt; length_fits = ground arith }))
