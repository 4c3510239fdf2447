-- ===== src/Nodes/RateLimit/History.antt =====
-- The node decides by the history of the messages that passed.
use node_red_contrib_eelectr.Base.{
  ℕ, ◌≤◌, ◌≡◌, refl, ap, ◌∙◌, arith, if◌then◌else◌, Bool, true, false, ◌&&◌, ltb, List, [], ◌∷◌,
  ◌++◌, length, Bool-cases, inl, inr,
}
use node_red_contrib_eelectr.Core.Text.{Text}
use node_red_contrib_eelectr.Base.{list_eq}
use node_red_contrib_eelectr.Nodes.RateLimit.{
  RateLimit, Message, key, evict, set_bucket, admits, on_input, new_rate_limit,
}
use node_red_contrib_eelectr.Base.{list_eq_self, list_eq_sound}
use node_red_contrib_eelectr.Nodes.RateLimit.Window.{
  within, within-append, within-evict, length-evict, evict-All, evict-Ascending, Ascending-snoc,
  All-snoc, All-le, after, passes, flow, key_lem, sent_lem, passes-step, output_of, latest,
  Chronological, after-settings, Tracks,
}

bucket_other :
    (msg : Message) (s : RateLimit) (k : Text)
    → list_eq (key s.per_topic msg) k ≡ false
    → (on_input msg s).state.buckets k ≡ s.buckets k
unfolding on_input set_bucket
bucket_other msg s k h = ground (arith, h)

bucket_admitted :
    (msg : Message) (s : RateLimit) (k : Text)
    → key s.per_topic msg ≡ k
    → admits s msg ≡ true
    → (on_input msg s).state.buckets k ≡ evict s.window_ms msg.now (s.buckets k) ++ msg.now ∷ []
unfolding on_input set_bucket
bucket_admitted msg s k h a = ground (arith, h, a, list_eq_self k)

bucket_refused :
    (msg : Message) (s : RateLimit) (k : Text)
    → key s.per_topic msg ≡ k
    → admits s msg ≡ false
    → (on_input msg s).state.buckets k ≡ evict s.window_ms msg.now (s.buckets k)
unfolding on_input set_bucket
bucket_refused msg s k h a = ground (arith, h, a, list_eq_self k)

module _ (k : Text) (msg : Message) (earlier : List Message) (s : RateLimit)
    (t : Tracks k earlier s) (h : latest earlier ≤ msg.now) where
  step : passes k (msg ∷ earlier) s ≡ (
      if list_eq (key s.per_topic msg) k && admits (after earlier s) msg
      then msg.now ∷ passes k earlier s
      else passes k earlier s)
  step = passes-step k msg earlier s

  Tracks-other : list_eq (key s.per_topic msg) k ≡ false → Tracks k (msg ∷ earlier) s
  Tracks-other o =
      let (m, w, p, x) = after-settings earlier s in
      let e = bucket_other msg (after earlier s) k (ground (arith, o, p)) in
      record {
        counts = λ later hl. ground (arith, step, e, o, t.counts later (omega arith));
        ordered = rw e t.ordered;
        past = rw e (All-le (latest earlier) msg.now _ h t.past);
      }

  Tracks-refused :
      key s.per_topic msg ≡ k → admits (after earlier s) msg ≡ false → Tracks k (msg ∷ earlier) s
  Tracks-refused o a =
      let (m, w, p, x) = after-settings earlier s in
      let b = (after earlier s).buckets k in
      let e = bucket_refused msg (after earlier s) k (ground (arith, o, p)) a in
      record {
        counts = λ later hl. ground (
          arith,
          step,
          e,
          a,
          w,
          t.counts later (omega arith),
          within-evict s.window_ms msg.now later b hl,
        );
        ordered = rw e (evict-Ascending _ msg.now b t.ordered);
        past =
            rw e (
              evict-All (λ u. u ≤ msg.now) _ msg.now b
                (All-le (latest earlier) msg.now b h t.past));
      }

  Tracks-admitted :
      key s.per_topic msg ≡ k → admits (after earlier s) msg ≡ true → Tracks k (msg ∷ earlier) s
  Tracks-admitted o a =
      let (m, w, p, x) = after-settings earlier s in
      let b = (after earlier s).buckets k in
      let e = bucket_admitted msg (after earlier s) k (ground (arith, o, p)) a in
      let old =
        evict-All (λ u. u ≤ msg.now) (after earlier s).window_ms msg.now b
          (All-le (latest earlier) msg.now b h t.past) in
      record {
        counts = λ later hl. ground (
          arith,
          step,
          e,
          a,
          o,
          w,
          list_eq_self k,
          t.counts later (omega arith),
          within-evict s.window_ms msg.now later b hl,
          within-append s.window_ms later (evict s.window_ms msg.now b) (msg.now ∷ []),
        );
        ordered = rw e (Ascending-snoc _ msg.now (evict-Ascending _ msg.now b t.ordered) old);
        past = rw e (All-snoc (λ u. u ≤ msg.now) _ msg.now old (omega arith));
      }

-- A node without history tracks each key from the start, so it does so after any messages.
Tracks_lem :
    (k : Text) (msgs : List Message) (max window : ℕ) (per_topic expose_dropped : Bool)
    → Chronological msgs
    → Tracks k msgs (new_rate_limit max window per_topic expose_dropped)
unfolding new_rate_limit
Tracks_lem k [] max window per_topic expose_dropped c = record {
  counts = λ later h. refl;
  ordered = tt;
  past = tt;
}
Tracks_lem k (msg ∷ earlier) max window per_topic expose_dropped (h, c) =
    let s = new_rate_limit max window per_topic expose_dropped in
    let t = Tracks_lem k earlier max window per_topic expose_dropped c in
    elim (Bool-cases (list_eq (key per_topic msg) k)) [
      | inl o ↦ elim (Bool-cases (admits (after earlier s) msg)) [
        | inl a ↦ Tracks-admitted k msg earlier s t h (list_eq_sound (key per_topic msg) k o) a
        | inr a ↦ Tracks-refused k msg earlier s t h (list_eq_sound (key per_topic msg) k o) a
      ]
      | inr o ↦ Tracks-other k msg earlier s t h o
    ]

admits_lem :
    (s : RateLimit) (msg : Message)
    → admits s msg
      ≡ ltb (length (evict s.window_ms msg.now (s.buckets (key s.per_topic msg)))) s.max_per_window
unfolding admits
admits_lem s msg = ground arith

admits-within :
    (max window : ℕ) (per_topic expose_dropped : Bool) (msg : Message) (earlier : List Message)
    → Chronological (msg ∷ earlier)
    → let s = new_rate_limit max window per_topic expose_dropped in
      admits (after earlier s) msg
      ≡ ltb (within window msg.now (passes (key per_topic msg) earlier s)) max
unfolding new_rate_limit
admits-within max window per_topic expose_dropped msg earlier (h, c) =
    let s = new_rate_limit max window per_topic expose_dropped in
    let k = key per_topic msg in
    let t = Tracks_lem k earlier max window per_topic expose_dropped c in
    let (m, w, p, x) = after-settings earlier s in
    let b = (after earlier s).buckets k in
    admits_lem (after earlier s) msg
    ∙ rw p (
        rw m (
          rw w
            (ap (λ n. ltb n max) (length-evict window msg.now b t.ordered ∙ t.counts msg.now h))))

-- Messages have arrived at a node, and the clock has not gone back. The next one is sent out of the first
-- output exactly if fewer messages of its topic (of any topic, for a node that does not tell topics apart) than
-- the maximum were sent out of it in the window that ends with its arrival. Otherwise it is sent
-- out of the second output, if the node exposes what it drops, and nowhere if not.
pub on_input-within :
    (max window : ℕ) (per_topic expose_dropped : Bool) (msg : Message) (earlier : List Message)
    → Chronological (msg ∷ earlier)
    → let s = new_rate_limit max window per_topic expose_dropped in
      (on_input msg (after earlier s)).sent
      ≡ output_of expose_dropped
          (ltb (within window msg.now (passes (flow per_topic msg.topic) earlier s)) max)
unfolding new_rate_limit
on_input-within max window per_topic expose_dropped msg earlier c =
    let s = new_rate_limit max window per_topic expose_dropped in
    let (m, w, p, x) = after-settings earlier s in
    sent_lem msg (after earlier s)
    ∙ ap (λ e. output_of e (admits (after earlier s) msg)) x
    ∙ ap (output_of expose_dropped) (
        admits-within max window per_topic expose_dropped msg earlier c
        ∙ ap (λ k. ltb (within window msg.now (passes k earlier s)) max) (key_lem per_topic msg))

-- At no time of some times, the last one first, are there more than `max` in the window that ends there.
abbrev pub Bounded : ℕ → ℕ → List ℕ → Type 0
Bounded max window [] = Unit {0}
Bounded max window (t ∷ ts) = (within window t (t ∷ ts) ≤ max) × Bounded max window ts

-- Whatever messages arrive, if the clock does not go back: no window of time that ends with a message that is
-- sent out of the first output holds more messages of one topic (of any topic, for a node that does not tell
-- topics apart) that were sent out of it than the maximum.
pub passes-Bounded :
    (max window : ℕ) (per_topic expose_dropped : Bool) (k : Text) (msgs : List Message)
    → Chronological msgs
    → Bounded max window (passes k msgs (new_rate_limit max window per_topic expose_dropped))
unfolding new_rate_limit
passes-Bounded max window per_topic expose_dropped k [] c = tt
passes-Bounded max window per_topic expose_dropped k (msg ∷ earlier) (h, c) =
    let s = new_rate_limit max window per_topic expose_dropped in
    let rest = passes-Bounded max window per_topic expose_dropped k earlier c in
    elim (Bool-cases (list_eq (key per_topic msg) k && admits (after earlier s) msg)) [
      | inl a ↦
          let same = list_eq_sound (key per_topic msg) k (ground (arith, a)) in
          let few = admits-within max window per_topic expose_dropped msg earlier (h, c) in
          rw (passes-step k msg earlier s) (rw a (ground (arith, a, same, few), rest))
      | inr a ↦ rw (passes-step k msg earlier s) (rw a rest)
    ]
