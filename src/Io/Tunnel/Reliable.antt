-- ===== src/Io/Tunnel/Reliable.antt =====
-- Each telegram once, for every client that events can lead to.
use node_red_contrib_eelectr.Base.{
  ℕ, ◌+◌, ◌%◌, ◌≡◌, arith, true, false, some, List, map, length, All,
}
use node_red_contrib_eelectr.Io.Tunnel.{TunnelClient, TunnelClientOptions}
use node_red_contrib_eelectr.Io.Tunnel.Events.{Reachable}
use node_red_contrib_eelectr.Io.Tunnel.Invariant.Reached.{Reachable-IsValid}
use node_red_contrib_eelectr.Io.Tunnel.Inbound.{on_frames}
use node_red_contrib_eelectr.Io.Tunnel.Inbound.Delivery.{emitted, acknowledged, IsListening}
use node_red_contrib_eelectr.Io.Tunnel.Inbound.ExactlyOnce.{
  Telegram, IsTelegram, transmissions, acks_owed, on_frames-transmissions,
}

Reachable-IsListening :
    (opts : TunnelClientOptions) (channel : ℕ) (c : TunnelClient)
    → Reachable opts c
    → c.transport ≡ true
    → c.channel_id ≡ some channel
    → c.opts.over_tcp ≡ false
    → IsListening channel c
Reachable-IsListening opts channel c r ht hc ho =
    let v = Reachable-IsValid opts c r in
    record {
      has_transport = ht;
      on_channel = hc;
      over_udp = ho;
      not_awaited = ground (arith, v.awaits);
      counts_bytes = v.in_fits;
    }

-- A client that some history of events led to has a transport and a channel, over UDP. It gets
-- telegrams under consecutive sequence counters from the one that it expects on, each transmitted once
-- or more often. It emits each telegram exactly once and in order, acknowledges each transmission, and
-- ends with its counters advanced by the number of telegrams, the sequence counter modulo 256.
pub on_frames-exactly_once :
    (opts : TunnelClientOptions) (channel : ℕ) (ts : List Telegram) (c : TunnelClient)
    → Reachable opts c
    → c.transport ≡ true
    → c.channel_id ≡ some channel
    → c.opts.over_tcp ≡ false
    → All IsTelegram ts
    → let out = on_frames (transmissions channel c.seq_in ts) c in
      (emitted out.actions ≡ map (λ t. t.frame) ts)
      × (acknowledged out.actions ≡ acks_owed channel c.seq_in ts)
      × (out.client.seq_in ≡ (c.seq_in + length ts) % 256)
      × (out.client.rx_telegrams ≡ c.rx_telegrams + length ts)
on_frames-exactly_once opts channel ts c r ht hc ho h =
    on_frames-transmissions channel ts c (Reachable-IsListening opts channel c r ht hc ho) h
