-- ===== src/Nodes/Watchdog.antt =====
-- src/nodes/watchdog/watchdog.ts: alarms for group addresses that have been silent for too long. The maps
-- `watched` and `state` have the same keys and are one list here. Times are whole milliseconds, the
-- names come from the ETS project, which is a function, and the status line is left out.
pub mod Entries
pub mod Alternation
pub mod Unseen
use node_red_contrib_eelectr.Base.{
  ℕ, ◌-◌, Bool, true, false, not, ◌&&◌, ◌==◌, ltb, if◌then◌else◌, Option, none, some, List, [], ◌∷◌,
  ◌++◌, map, Result, ok, err, ◌>>=◌,
}
use node_red_contrib_eelectr.Core.Text.{Text, split_on}
use node_red_contrib_eelectr.Core.GaMatcher.{trim}
use node_red_contrib_eelectr.Core.Address.{GroupAddressStyle}
use node_red_contrib_eelectr.Core.Address.Group.{of_text, to_string}
use node_red_contrib_eelectr.Core.Apci.{
  Apci, group_value_read, group_value_write, group_value_response,
}
use node_red_contrib_eelectr.Core.Cemi.{
  CemiFrame, CemiMessageCode, l_data_ind, Destination, group, individual,
}

pub record Watched : Type 0 where
  pub raw : ℕ
  pub ga : Text
  pub ga_name : Option Text
  pub last_seen : Option ℕ
  pub alarmed : Bool

pub data Transition : Type 0 where
  alarm recovery : Transition

-- What emit() sends, with the address that it is called with.
pub record Alert : Type 0 where
  pub raw : ℕ
  pub ga : Text
  pub ga_name : Option Text
  pub transition : Transition
  pub last_seen : Option ℕ
  pub age_ms : Option ℕ
  pub timeout_ms : ℕ

-- parseGroupAddresses(): pieces between commas and newlines, without those that are blank.
newline_as_comma : ℕ → ℕ
newline_as_comma c = if c == 10 then b',' else c

trimmed : List Text → List Text
trimmed [] = []
trimmed (s ∷ ss) = elim (trim s) [ [] ↦ trimmed ss | c ∷ cs ↦ (c ∷ cs) ∷ trimmed ss ]

unfoldable pub parse_group_addresses : Text → List Text
unfolding newline_as_comma trimmed
parse_group_addresses input = trimmed (split_on b',' (map newline_as_comma input))

-- `watched.set(ga.raw, entry)`.
unfoldable pub put_watched : Watched → List Watched → List Watched
put_watched w [] = w ∷ []
put_watched w (x ∷ xs) = if x.raw == w.raw then w ∷ xs else x ∷ put_watched w xs

unfoldable pub watch_all :
    GroupAddressStyle
    → (ℕ → Option Text)
    → Option ℕ
    → List Text
    → List Watched
    → Result (List Watched)
watch_all style name_of seed [] ws = ok ws
watch_all style name_of seed (a ∷ rest) ws = do
  raw ← of_text a
  watch_all style name_of seed rest (
      put_watched
        (record {
          raw = raw;
          ga = to_string (record { raw = raw; style = style });
          ga_name = name_of raw;
          last_seen = seed;
          alarmed = false;
        })
        ws)

-- The entries of a node that is deployed at `now`; an error is the status 'bad GA'.
unfoldable pub new_watchdog :
    GroupAddressStyle → (ℕ → Option Text) → Bool → ℕ → Text → Result (List Watched)
new_watchdog style name_of seed_on_deploy now group_addresses =
    watch_all style name_of (if seed_on_deploy then some now else none)
      (parse_group_addresses group_addresses) []

-- `s.lastSeen ? Date.now() - s.lastSeen : null`: 0 counts as never.
age : ℕ → Option ℕ → Option ℕ
age now none = none
age now (some t) = if t == 0 then none else some (now - t)

unfoldable pub emit : ℕ → ℕ → Transition → Watched → Alert
unfolding age
emit timeout_ms now transition w = record {
  raw = w.raw;
  ga = w.ga;
  ga_name = w.ga_name;
  transition = transition;
  last_seen = w.last_seen;
  age_ms = age now w.last_seen;
  timeout_ms = timeout_ms;
}

pub record Outcome : Type 0 where
  pub watched : List Watched
  pub sent : List Alert

-- Writes and responses are a sign of life.
unfoldable pub is_alive : Option Apci → Bool
is_alive none = false
is_alive (some (group_value_write value)) = true
is_alive (some (group_value_response value)) = true
is_alive (some _) = false

-- An address that is heard.
unfoldable pub hear : ℕ → ℕ → Watched → Watched
hear raw now w = if w.raw == raw then record w { last_seen = some now; alarmed = false } else w

unfoldable pub recoveries : ℕ → ℕ → ℕ → List Watched → List Alert
recoveries timeout_ms raw now [] = []
recoveries timeout_ms raw now (w ∷ ws) =
    if w.raw == raw && w.alarmed
    then emit timeout_ms now recovery (record w { last_seen = some now; alarmed = false })
      ∷ recoveries timeout_ms raw now ws
    else recoveries timeout_ms raw now ws

unfoldable pub heard : ℕ → ℕ → ℕ → List Watched → Outcome
unfolding hear recoveries
heard timeout_ms raw now ws = record {
  watched = map (hear raw now) ws;
  sent = recoveries timeout_ms raw now ws;
}

unfoldable pub on_destination : ℕ → ℕ → Destination → Option Apci → List Watched → Outcome
on_destination timeout_ms now (individual address) payload ws = record { watched = ws; sent = [] }
on_destination timeout_ms now (group address) payload ws =
    if is_alive payload
    then heard timeout_ms address.raw now ws
    else record { watched = ws; sent = [] }

unfoldable pub on_code : ℕ → ℕ → CemiMessageCode → CemiFrame → List Watched → Outcome
unfolding on_destination
on_code timeout_ms now l_data_ind cemi ws =
    on_destination timeout_ms now cemi.ldata.dst_addr cemi.ldata.payload ws
on_code timeout_ms now _ cemi ws = record { watched = ws; sent = [] }

-- The listener of 'cemi'.
unfoldable pub on_cemi : ℕ → ℕ → CemiFrame → List Watched → Outcome
unfolding on_code
on_cemi timeout_ms now cemi ws = on_code timeout_ms now cemi.code cemi ws

-- `s.lastSeen ?? 0`.
abbrev pub reference : Option ℕ → ℕ
reference none = 0
reference (some t) = t

-- Whether the check raises the alarm; a time before the last sign of life is no silence.
unfoldable pub is_due : ℕ → ℕ → Watched → Bool
is_due timeout_ms now w = not w.alarmed && ltb timeout_ms (now - reference w.last_seen)

unfoldable pub raise : ℕ → ℕ → Watched → Watched
raise timeout_ms now w = if is_due timeout_ms now w then record w { alarmed = true } else w

unfoldable pub alarms : ℕ → ℕ → List Watched → List Alert
alarms timeout_ms now [] = []
alarms timeout_ms now (w ∷ ws) =
    if is_due timeout_ms now w
    then emit timeout_ms now alarm (record w { alarmed = true }) ∷ alarms timeout_ms now ws
    else alarms timeout_ms now ws

-- The timer.
unfoldable pub on_check : ℕ → ℕ → List Watched → Outcome
unfolding raise alarms
on_check timeout_ms now ws = record {
  watched = map (raise timeout_ms now) ws;
  sent = alarms timeout_ms now ws;
}
