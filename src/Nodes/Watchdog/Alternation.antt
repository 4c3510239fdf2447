-- ===== src/Nodes/Watchdog/Alternation.antt =====
-- The alerts for one address, over a history of telegrams and checks.
use node_red_contrib_eelectr.Base.{
  ℕ, ◌≡◌, refl, sym, Bool, true, false, not, ◌&&◌, ◌||◌, ◌==◌, if◌then◌else◌, if_both, Option, List,
  [], ◌∷◌, ◌++◌, ok,
}
use mathlib.Core.Path.{subst}
use node_red_contrib_eelectr.Core.Text.{Text}
use node_red_contrib_eelectr.Core.Address.{GroupAddressStyle}
use node_red_contrib_eelectr.Core.Apci.{Apci}
use node_red_contrib_eelectr.Core.Cemi.{
  CemiFrame, CemiMessageCode, l_data_ind, l_data_req, l_data_con, Destination, group, individual,
}
use node_red_contrib_eelectr.Nodes.Watchdog.{
  Watched, Transition, alarm, recovery, Outcome, on_cemi, on_code, on_destination, on_check,
  is_alive, heard, new_watchdog,
}
use node_red_contrib_eelectr.Nodes.Watchdog.Entries.{
  Distinct, is_alarmed, is_due_at, transitions, transitions-append, heard-transitions,
  heard-is_alarmed, check-transitions, check-is_alarmed, due_quiet, raise-Distinct, hear-Distinct,
  new_watchdog-IsFresh,
}

pub data Event : Type 0 where
  telegram : ℕ → CemiFrame → Event
  check : ℕ → Event

abbrev on_event : ℕ → Event → List Watched → Outcome
on_event timeout_ms (telegram now cemi) ws = on_cemi timeout_ms now cemi ws
on_event timeout_ms (check now) ws = on_check timeout_ms now ws

-- The events of a history, the first one first.
abbrev pub run : ℕ → List Event → List Watched → Outcome
run timeout_ms [] ws = record { watched = ws; sent = [] }
run timeout_ms (e ∷ es) ws =
    let o = on_event timeout_ms e ws in
    let rest = run timeout_ms es o.watched in
    record { watched = rest.watched; sent = o.sent ++ rest.sent }

-- From being alarmed or not to being alarmed or not: an alarm only when there is none, and a recovery
-- only from one.
abbrev pub Alternates : Bool → List Transition → Bool → Type 0
Alternates a [] b = a ≡ b
Alternates false (alarm ∷ ts) b = Alternates true ts b
Alternates true (recovery ∷ ts) b = Alternates false ts b
Alternates true (alarm ∷ ts) b = ⊥
Alternates false (recovery ∷ ts) b = ⊥

Alternates-append :
    (a b c : Bool) (ss ts : List Transition)
    → Alternates a ss b
    → Alternates b ts c
    → Alternates a (ss ++ ts) c
Alternates-append a b c [] ts h k = subst (λ x. Alternates x ts c) (sym h) k
Alternates-append false b c (alarm ∷ ss) ts h k = Alternates-append true b c ss ts h k
Alternates-append true b c (recovery ∷ ss) ts h k = Alternates-append false b c ss ts h k
Alternates-append true b c (alarm ∷ ss) ts h k = absurd h
Alternates-append false b c (recovery ∷ ss) ts h k = absurd h

-- What a step may do to the list and the alerts of an address.
record Steps (k : ℕ) (ws : List Watched) (o : Outcome) : Type 0 where
  pub distinct : Distinct o.watched
  pub alternates : Alternates (is_alarmed k ws) (transitions k o.sent) (is_alarmed k o.watched)

module _ (timeout_ms k : ℕ) where
  idle-Steps : (ws : List Watched) → Distinct ws → Steps k ws (record { watched = ws; sent = [] })
  idle-Steps ws v = record { distinct = v; alternates = refl }

  heard-Steps :
      (raw now : ℕ) (ws : List Watched) → Distinct ws → Steps k ws (heard timeout_ms raw now ws)
  unfolding heard
  heard-Steps raw now ws v = record {
    distinct = hear-Distinct raw now ws v;
    alternates =
        rw (heard-transitions timeout_ms now raw k ws v, heard-is_alarmed timeout_ms now raw k ws)
          (told (is_alarmed k ws) (raw == k));
  }
    where
      told :
          (a same : Bool) → Alternates a (if same && a then recovery ∷ [] else []) (a && not same)
      told true true = refl
      told true false = refl
      told false true = refl
      told false false = refl

  on_check-Steps :
      (now : ℕ) (ws : List Watched) → Distinct ws → Steps k ws (on_check timeout_ms now ws)
  unfolding on_check
  on_check-Steps now ws v = record {
    distinct = raise-Distinct timeout_ms now ws v;
    alternates =
        rw (check-transitions timeout_ms now k ws v, check-is_alarmed timeout_ms now k ws)
          (told (is_alarmed k ws) (is_due_at timeout_ms now k ws) (due_quiet timeout_ms now k ws));
  }
    where
      told :
          (a due : Bool)
          → (due ≡ true → a ≡ false)
          → Alternates a (if due then alarm ∷ [] else []) (a || due)
      told true true h = cc (h refl)
      told true false h = refl
      told false true h = refl
      told false false h = refl

  on_destination-Steps :
      (now : ℕ) (d : Destination) (payload : Option Apci) (ws : List Watched)
      → Distinct ws
      → Steps k ws (on_destination timeout_ms now d payload ws)
  unfolding on_destination
  on_destination-Steps now (individual address) payload ws v = idle-Steps ws v
  on_destination-Steps now (group address) payload ws v =
      if_both (Steps k ws) (is_alive payload) _ _ (heard-Steps address.raw now ws v)
        (idle-Steps ws v)

  on_code-Steps :
      (now : ℕ) (code : CemiMessageCode) (cemi : CemiFrame) (ws : List Watched)
      → Distinct ws
      → Steps k ws (on_code timeout_ms now code cemi ws)
  unfolding on_code
  on_code-Steps now l_data_ind cemi ws v =
      on_destination-Steps now cemi.ldata.dst_addr cemi.ldata.payload ws v
  on_code-Steps now l_data_req cemi ws v = idle-Steps ws v
  on_code-Steps now l_data_con cemi ws v = idle-Steps ws v

  on_event-Steps :
      (e : Event) (ws : List Watched) → Distinct ws → Steps k ws (on_event timeout_ms e ws)
  unfolding on_cemi
  on_event-Steps (telegram now cemi) ws v = on_code-Steps now cemi.code cemi ws v
  on_event-Steps (check now) ws v = on_check-Steps now ws v

  run-Steps :
      (es : List Event) (ws : List Watched) → Distinct ws → Steps k ws (run timeout_ms es ws)
  run-Steps [] ws v = idle-Steps ws v
  run-Steps (e ∷ es) ws v =
      let o = on_event timeout_ms e ws in
      let s = on_event-Steps e ws v in
      let r = run-Steps es o.watched s.distinct in
      record {
        distinct = r.distinct;
        alternates = rw (transitions-append k o.sent (run timeout_ms es o.watched).sent) (
            Alternates-append (is_alarmed k ws) (is_alarmed k o.watched)
              (is_alarmed k (run timeout_ms es o.watched).watched) (transitions k o.sent)
              (transitions k (run timeout_ms es o.watched).sent) s.alternates r.alternates);
      }

-- From deployment on, whatever telegrams arrive and checks run: the alerts for an address are an alarm,
-- then a recovery, then an alarm and so on, and the last one is an alarm exactly when the address is
-- alarmed.
pub run-Alternates :
    (style : GroupAddressStyle) (name_of : ℕ → Option Text) (seed : Bool) (now : ℕ) (input : Text)
    (timeout_ms k : ℕ) (es : List Event) (ws : List Watched)
    → new_watchdog style name_of seed now input ≡ ok ws
    → Alternates false
        (transitions k (run timeout_ms es ws).sent)
        (is_alarmed k (run timeout_ms es ws).watched)
run-Alternates style name_of seed now input timeout_ms k es ws h =
    let v = new_watchdog-IsFresh style name_of seed now input h in
    subst
      (λ a.
        Alternates a (transitions k (run timeout_ms es ws).sent)
          (is_alarmed k (run timeout_ms es ws).watched))
      (v.quiet k) (run-Steps timeout_ms k es ws v.distinct).alternates
