-- ===== src/Nodes/RateLimit.antt =====
-- src/nodes/rate-limit/rateLimit.ts: at most so many messages of a topic in a window of time. The
-- status line is left out; times and the window are whole milliseconds.
pub mod Window
pub mod History
use node_red_contrib_eelectr.Base.{
  ℕ, ◌+◌, Bool, true, false, not, ltb, leb, if◌then◌else◌, Option, none, some, List, [], ◌∷◌, ◌++◌,
  length,
}
use node_red_contrib_eelectr.Core.Text.{Text}
use node_red_contrib_eelectr.Base.{list_eq}

pub record RateLimit : Type 0 where
  pub max_per_window : ℕ
  pub window_ms : ℕ
  pub per_topic : Bool
  pub expose_dropped : Bool
  pub buckets : Text → List ℕ
  pub passed : ℕ
  pub dropped : ℕ

-- A message that arrives: its topic, if that is a string, and the time.
pub record Message : Type 0 where
  pub topic : Option Text
  pub now : ℕ

-- The outputs of the node that a message is sent to.
pub data Sent : Type 0 where
  first_output second_output no_output : Sent

-- '__global__'
abbrev pub global_key : Text
global_key = 95 ∷ 95 ∷ 103 ∷ 108 ∷ 111 ∷ 98 ∷ 97 ∷ 108 ∷ 95 ∷ 95 ∷ []

abbrev pub topic_key : Option Text → Text
topic_key none = []
topic_key (some topic) = topic

unfoldable pub key : Bool → Message → Text
key per_topic msg = if not per_topic then global_key else topic_key msg.topic

-- Timestamps before `now - windowMs` leave from the front.
unfoldable pub evict : ℕ → ℕ → List ℕ → List ℕ
evict window_ms now [] = []
evict window_ms now (t ∷ bucket) =
    if ltb (t + window_ms) now then evict window_ms now bucket else t ∷ bucket

unfoldable pub set_bucket : Text → List ℕ → (Text → List ℕ) → Text → List ℕ
set_bucket k bucket buckets other = if list_eq k other then bucket else buckets other

-- Whether the message passes.
unfoldable pub admits : RateLimit → Message → Bool
admits s msg =
    not
      (leb s.max_per_window (length (evict s.window_ms msg.now (s.buckets (key s.per_topic msg)))))

pub record Outcome : Type 0 where
  pub state : RateLimit
  pub sent : Sent

-- The 'input' handler.
unfoldable pub on_input : Message → RateLimit → Outcome
on_input msg s =
    let k = key s.per_topic msg in
    let bucket = evict s.window_ms msg.now (s.buckets k) in
    if not (admits s msg)
    then record {
      state = record s { buckets = set_bucket k bucket s.buckets; dropped = s.dropped + 1 };
      sent = if s.expose_dropped then second_output else no_output;
    }
    else record {
      state = record s {
        buckets = set_bucket k (bucket ++ msg.now ∷ []) s.buckets;
        passed = s.passed + 1;
      };
      sent = first_output;
    }

-- A node with these settings and no history.
unfoldable pub new_rate_limit : ℕ → ℕ → Bool → Bool → RateLimit
new_rate_limit max_per_window window_ms per_topic expose_dropped = record {
  max_per_window = max_per_window;
  window_ms = window_ms;
  per_topic = per_topic;
  expose_dropped = expose_dropped;
  buckets = λ k. [];
  passed = 0;
  dropped = 0;
}
