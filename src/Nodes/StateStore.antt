-- ===== src/Nodes/StateStore.antt =====
-- src/nodes/state-store/stateStore.ts: the last value of each group address. A Map keeps its entries in the
-- order of insertion, so it is a list of them; payloads are opaque. Topics are strings, the time is
-- the text of toISOString(), and the status line is left out.
pub mod Map
pub mod Recalled
pub mod Replies
use node_red_contrib_eelectr.Base.{
  ℕ, Bool, true, false, not, ◌&&◌, ◌==◌, ltb, leb, if◌then◌else◌, Option, none, some, List, [], ◌∷◌,
  length, drop, Result, ok, err, Error, plain_error,
}
use node_red_contrib_eelectr.Core.Text.{Text}
use node_red_contrib_eelectr.Core.Address.Group.{of_text}

-- `other` is any other string, which the handler treats as 'set'.
pub data StoreAction : Type 0 where
  set get list clear other : StoreAction

pub record KnxMessage {ℓ} (P : Type ℓ) : Type ℓ where
  pub action : Option StoreAction
  pub topic : Option Text
  pub payload : P
  pub dpt : Option Text
  pub ga_name : Option Text
  pub source : Option Text

pub record StoredEntry {ℓ} (P : Type ℓ) : Type ℓ where
  pub ga : Text
  pub payload : P
  pub dpt : Option Text
  pub ga_name : Option Text
  pub source : Option Text
  pub stored_at : Text

abbrev pub Store {ℓ} : Type ℓ → Type ℓ
Store P = List (ℕ × StoredEntry P)

module _ {ℓ} {P : Type ℓ} where
  -- `get`, `has`, `set` and `delete` of the Map.
  unfoldable pub find : ℕ → Store P → Option (StoredEntry P)
  find k [] = none
  find k ((j, e) ∷ m) = if j == k then some e else find k m

  unfoldable pub has : ℕ → Store P → Bool
  has k [] = false
  has k ((j, e) ∷ m) = if j == k then true else has k m

  unfoldable pub put : ℕ → StoredEntry P → Store P → Store P
  put k e [] = (k, e) ∷ []
  put k e ((j, d) ∷ m) = if j == k then (k, e) ∷ m else (j, d) ∷ put k e m

  unfoldable pub delete : ℕ → Store P → Store P
  delete k [] = []
  delete k ((j, e) ∷ m) = if j == k then m else (j, e) ∷ delete k m

  unfoldable pub values : Store P → List (StoredEntry P)
  values [] = []
  values ((j, e) ∷ m) = e ∷ values m

-- What the handler emits, and the error that it finishes with.
pub data Sent {ℓ} (P : Type ℓ) : Type ℓ where
  snapshot : List (StoredEntry P) → Sent P
  found : KnxMessage P → Option (StoredEntry P) → Sent P
  passed : KnxMessage P → Sent P

pub record Outcome {ℓ} (P : Type ℓ) : Type ℓ where
  pub store : Store P
  pub sent : Option (Sent P)
  pub failed : Option Error

-- `msg.topic` as a condition: an empty string counts as missing.
unfoldable pub given : Option Text → Option Text
given none = none
given (some []) = none
given (some (c ∷ cs)) = some (c ∷ cs)

unfoldable pub action_of : Option StoreAction → StoreAction
action_of none = set
action_of (some action) = action

module _ {ℓ} {P : Type ℓ} where
  abbrev pub entry_of : Text → Text → KnxMessage P → StoredEntry P
  entry_of ga now msg = record {
    ga = ga;
    payload = msg.payload;
    dpt = msg.dpt;
    ga_name = msg.ga_name;
    source = msg.source;
    stored_at = now;
  }

  -- The oldest entry leaves a store that is full.
  unfoldable pub make_room : ℕ → ℕ → Store P → Store P
  make_room max_entries raw store =
      if ltb 0 max_entries && (not (has raw store) && leb max_entries (length store))
      then drop 1 store
      else store

  keep : Result ℕ → ℕ → Text → Text → KnxMessage P → Store P → Outcome P
  keep (err e) max_entries ga now msg store = record { store = store; sent = none; failed = some e }
  keep (ok raw) max_entries ga now msg store = record {
    store = put raw (entry_of ga now msg) (make_room max_entries raw store);
    sent = some (passed msg);
    failed = none;
  }

  recall : Result ℕ → KnxMessage P → Store P → Outcome P
  recall (err e) msg store = record { store = store; sent = none; failed = some e }
  recall (ok raw) msg store = record {
    store = store;
    sent = some (found msg (find raw store));
    failed = none;
  }

  -- An invalid address on 'clear' is ignored.
  forget : Option Text → Store P → Store P
  forget none store = []
  forget (some ga) store = elim (of_text ga) [ err e ↦ store | ok raw ↦ delete raw store ]

  with_topic : Option Text → (Text → Outcome P) → Store P → Outcome P
  with_topic none go store = record { store = store; sent = none; failed = some plain_error }
  with_topic (some ga) go store = go ga

  on_action : StoreAction → ℕ → Text → KnxMessage P → Store P → Outcome P
  unfolding given keep recall forget with_topic
  on_action list max_entries now msg store = record {
    store = store;
    sent = some (snapshot (values store));
    failed = none;
  }
  on_action clear max_entries now msg store = record {
    store = forget (given msg.topic) store;
    sent = none;
    failed = none;
  }
  on_action get max_entries now msg store =
      with_topic (given msg.topic) (λ ga. recall (of_text ga) msg store) store
  on_action set max_entries now msg store =
      with_topic (given msg.topic) (λ ga. keep (of_text ga) max_entries ga now msg store) store
  on_action other max_entries now msg store =
      with_topic (given msg.topic) (λ ga. keep (of_text ga) max_entries ga now msg store) store

  -- The 'input' handler.
  unfoldable pub on_input : ℕ → Text → KnxMessage P → Store P → Outcome P
  unfolding on_action action_of
  on_input max_entries now msg store = on_action (action_of msg.action) max_entries now msg store
