-- ===== src/Nodes/StateStore/Replies.antt =====
-- What a store answers.
use node_red_contrib_eelectr.Base.{
  ℕ, true, ◌≡◌, ◌⊎◌, Option, none, some, List, map, Result, ok, err, Error, plain_error,
}
use node_red_contrib_eelectr.Core.Text.{Text}
use node_red_contrib_eelectr.Core.Address.Group.{of_text}
use node_red_contrib_eelectr.Nodes.StateStore.{
  StoreAction, set, get, list, clear, other, KnxMessage, StoredEntry, Store, snapshot, found,
  passed, Outcome,
}
use node_red_contrib_eelectr.Nodes.StateStore.Recalled.{
  Meaning, Remembers, last_stored, newest_stores,
}

module _ {P : Type 0} (max_entries : ℕ) (history : List (Meaning P)) (m : Store P)
    (msg : KnxMessage P) where
  abbrev fails_with : Error → Outcome P
  fails_with e = record { store = m; sent = none; failed = some e }

  -- 'get' of a key: the message with an entry, or without one, and the store as it was.
  abbrev IsAnswer : Result ℕ → Outcome P → Type 0
  IsAnswer (err e) o = o ≡ fails_with e
  IsAnswer (ok k) o =
      (answer : Option (StoredEntry P)) × ((answer ≡ none) ⊎ (answer ≡ last_stored k history))
      × (newest_stores k history ≡ true → answer ≡ last_stored k history)
      × (max_entries ≡ 0 → answer ≡ last_stored k history)
      × (o ≡ record { store = m; sent = some (found msg answer); failed = none })

  -- 'set' of a key: the message goes on.
  abbrev IsPassed : Result ℕ → Outcome P → Type 0
  IsPassed (err e) o = o ≡ fails_with e
  IsPassed (ok k) o = (o.sent ≡ some (passed msg)) × (o.failed ≡ none)

  -- 'list': the entries of some store that remembers the history.
  abbrev IsSnapshot : Outcome P → Type 0
  IsSnapshot o =
      (kept : Store P) × Remembers max_entries history kept
      × (o ≡ record { store = m; sent = some (snapshot (map (λ x. x.1) kept)); failed = none })

  abbrev pub IsReply : StoreAction → Option Text → Outcome P → Type 0
  IsReply list topic o = IsSnapshot o
  IsReply clear topic o = (o.sent ≡ none) × (o.failed ≡ none)
  IsReply get none o = o ≡ fails_with plain_error
  IsReply get (some ga) o = IsAnswer (of_text ga) o
  IsReply set none o = o ≡ fails_with plain_error
  IsReply set (some ga) o = IsPassed (of_text ga) o
  IsReply other none o = o ≡ fails_with plain_error
  IsReply other (some ga) o = IsPassed (of_text ga) o
