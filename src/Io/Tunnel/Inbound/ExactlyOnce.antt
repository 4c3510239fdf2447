-- ===== src/Io/Tunnel/Inbound/ExactlyOnce.antt =====
-- The gateway repeats a request until it has seen an acknowledgement; each telegram is delivered once.
use node_red_contrib_eelectr.Base.{
  ℕ, zero, suc, ◌+◌, ◌%◌, ◌<◌, ◌≡◌, refl, arith, ap, ◌∙◌, false, List, [], ◌∷◌, ◌++◌, map,
  append_assoc, Bytes, length, All, ok,
}
use node_red_contrib_eelectr.Core.Cemi.{CemiFrame, frame_from_knx}
use node_red_contrib_eelectr.Core.Bodies.TunnellingAck.{TunnellingAck}
use node_red_contrib_eelectr.Core.Frame.{KnxipFrame}
use node_red_contrib_eelectr.Io.Tunnel.{TunnelClient, next_seq}
use node_red_contrib_eelectr.Io.Tunnel.Inbound.{on_frame, on_frames, previous_seq}
use node_red_contrib_eelectr.Io.Tunnel.Inbound.Delivery.{
  emitted, acknowledged, emitted-append, acknowledged-append, next_seq_lem, previous_seq-next_seq,
  IsListening, request, ack_to, on_frame-fresh, on_frame-duplicate,
}

-- A telegram, its bytes, and how often its request is repeated.
pub record Telegram : Type 0 where
  pub frame : CemiFrame
  pub raw_cemi : Bytes
  pub bytes_read : ℕ
  pub repeats : ℕ

unfoldable pub IsTelegram : Telegram → Type 0
IsTelegram t = frame_from_knx t.raw_cemi ≡ ok (t.frame, t.bytes_read)

abbrev pub replicate {ℓ} : {A : Type ℓ} → ℕ → A → List A
replicate zero x = []
replicate (suc n) x = x ∷ replicate n x

-- What a gateway sends from a sequence counter on, and the acknowledgements that it is owed.
abbrev pub transmissions : ℕ → ℕ → List Telegram → List KnxipFrame
transmissions channel seq [] = []
transmissions channel seq (t ∷ ts) =
    replicate (suc t.repeats) (request channel seq t.raw_cemi)
    ++ transmissions channel (next_seq seq) ts

abbrev pub acks_owed : ℕ → ℕ → List Telegram → List TunnellingAck
acks_owed channel seq [] = []
acks_owed channel seq (t ∷ ts) =
    replicate (suc t.repeats) (ack_to channel seq) ++ acks_owed channel (next_seq seq) ts

-- What the client did with some frames.
record Did (frames : List KnxipFrame) (c d : TunnelClient) (cemis : List CemiFrame)
    (acks : List TunnellingAck) : Type 0 where
  pub now : (on_frames frames c).client ≡ d
  pub delivers : emitted (on_frames frames c).actions ≡ cemis
  pub answers : acknowledged (on_frames frames c).actions ≡ acks

Did-append :
    (xs ys : List KnxipFrame) (c d e : TunnelClient) (xc yc : List CemiFrame)
    (xa ya : List TunnellingAck)
    → Did xs c d xc xa
    → Did ys d e yc ya
    → Did (xs ++ ys) c e (xc ++ yc) (xa ++ ya)
Did-append [] ys c d e xc yc xa ya p q = record {
  now = ground (arith, p.now, q.now);
  delivers = ground (arith, p.now, p.delivers, q.delivers);
  answers = ground (arith, p.now, p.answers, q.answers);
}
Did-append (x ∷ xs) ys c d e xc yc xa ya p q =
    let first = on_frame x c in
    let rest = on_frames xs first.client in
    let tail =
      Did-append xs ys first.client d e (emitted rest.actions) yc (acknowledged rest.actions) ya
        (record { now = p.now; delivers = refl; answers = refl }) q in
    record {
      now = tail.now;
      delivers = ground (
        arith,
        emitted-append first.actions (on_frames (xs ++ ys) first.client).actions,
        emitted-append first.actions rest.actions,
        tail.delivers,
        p.delivers,
        append_assoc (emitted first.actions) (emitted rest.actions) yc,
      );
      answers = ground (
        arith,
        acknowledged-append first.actions (on_frames (xs ++ ys) first.client).actions,
        acknowledged-append first.actions rest.actions,
        tail.answers,
        p.answers,
        append_assoc (acknowledged first.actions) (acknowledged rest.actions) ya,
      );
    }

-- The client after one telegram more.
abbrev pub received_one : TunnelClient → TunnelClient
received_one c = record c {
  seq_in = next_seq c.seq_in;
  invalid_seq_timer = false;
  rx_telegrams = c.rx_telegrams + 1;
}

abbrev pub received : List Telegram → TunnelClient → TunnelClient
received [] c = c
received (t ∷ ts) c = received ts (received_one c)

received_one-IsListening :
    (channel : ℕ) (c : TunnelClient) → IsListening channel c → IsListening channel (received_one c)
received_one-IsListening channel c v = record {
  has_transport = v.has_transport;
  on_channel = v.on_channel;
  over_udp = v.over_udp;
  not_awaited = v.not_awaited;
  counts_bytes = ground (arith, next_seq_lem c.seq_in);
}

duplicates :
    (n channel seq : ℕ) (raw_cemi : Bytes) (c : TunnelClient)
    → IsListening channel c
    → seq ≡ previous_seq c.seq_in
    → Did (replicate n (request channel seq raw_cemi)) c c [] (replicate n (ack_to channel seq))
duplicates zero channel seq raw_cemi c v h = record { now = refl; delivers = refl; answers = refl }
duplicates (suc n) channel seq raw_cemi c v h =
    let one = on_frame-duplicate channel c v seq raw_cemi h in
    let more = duplicates n channel seq raw_cemi c v h in
    record {
      now = ground (arith, one, more.now);
      delivers = ground (arith, one, more.delivers);
      answers = ground (arith, one, more.answers);
    }

one_telegram :
    (channel : ℕ) (t : Telegram) (c : TunnelClient)
    → IsListening channel c
    → IsTelegram t
    → Did
        (replicate (suc t.repeats) (request channel c.seq_in t.raw_cemi))
        c
        (received_one c)
        (t.frame ∷ [])
        (replicate (suc t.repeats) (ack_to channel c.seq_in))
unfolding IsTelegram
one_telegram channel t c v h =
    let one = on_frame-fresh channel c v t.raw_cemi t.frame t.bytes_read h in
    let more =
      duplicates t.repeats channel c.seq_in t.raw_cemi (received_one c)
        (received_one-IsListening channel c v)
        (ground (arith, previous_seq-next_seq c.seq_in v.counts_bytes)) in
    record {
      now = ground (arith, one, more.now);
      delivers = ground (arith, one, more.delivers);
      answers = ground (arith, one, more.answers);
    }

every_telegram :
    (channel : ℕ) (ts : List Telegram) (c : TunnelClient)
    → IsListening channel c
    → All IsTelegram ts
    → Did
        (transmissions channel c.seq_in ts)
        c
        (received ts c)
        (map (λ t. t.frame) ts)
        (acks_owed channel c.seq_in ts)
every_telegram channel [] c v h = record { now = refl; delivers = refl; answers = refl }
every_telegram channel (t ∷ ts) c v (h, hs) =
    Did-append (replicate (suc t.repeats) (request channel c.seq_in t.raw_cemi))
      (transmissions channel (next_seq c.seq_in) ts) c (received_one c)
      (received ts (received_one c)) (t.frame ∷ []) (map (λ t. t.frame) ts)
      (replicate (suc t.repeats) (ack_to channel c.seq_in))
      (acks_owed channel (next_seq c.seq_in) ts) (one_telegram channel t c v h)
      (every_telegram channel ts (received_one c) (received_one-IsListening channel c v) hs)

seq_in-received :
    (ts : List Telegram) (c : TunnelClient)
    → c.seq_in < 256
    → (received ts c).seq_in ≡ (c.seq_in + length ts) % 256
seq_in-received [] c h = omega arith
seq_in-received (t ∷ ts) c h =
    ground (arith, seq_in-received ts (received_one c), next_seq_lem c.seq_in)

rx_telegrams-received :
    (ts : List Telegram) (c : TunnelClient)
    → (received ts c).rx_telegrams ≡ c.rx_telegrams + length ts
rx_telegrams-received [] c = omega arith
rx_telegrams-received (t ∷ ts) c = ground (arith, rx_telegrams-received ts (received_one c))

-- A client that listens on a channel over UDP gets telegrams under consecutive sequence counters from
-- the one that it expects on, each one once or more often. It emits each telegram exactly once and in
-- order, acknowledges each transmission, and ends with its counters advanced by the number of
-- telegrams, the sequence counter modulo 256.
pub on_frames-transmissions :
    (channel : ℕ) (ts : List Telegram) (c : TunnelClient)
    → IsListening channel c
    → All IsTelegram ts
    → let out = on_frames (transmissions channel c.seq_in ts) c in
      (emitted out.actions ≡ map (λ t. t.frame) ts)
      × (acknowledged out.actions ≡ acks_owed channel c.seq_in ts)
      × (out.client.seq_in ≡ (c.seq_in + length ts) % 256)
      × (out.client.rx_telegrams ≡ c.rx_telegrams + length ts)
on_frames-transmissions channel ts c v h =
    let d = every_telegram channel ts c v h in
    (
      d.delivers,
      d.answers,
      ap (λ e. e.seq_in) d.now ∙ seq_in-received ts c v.counts_bytes,
      ap (λ e. e.rx_telegrams) d.now ∙ rx_telegrams-received ts c,
    )
