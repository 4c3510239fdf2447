-- ===== src/Nodes/StateStore/Recalled.antt =====
-- What a store remembers of its messages.
use node_red_contrib_eelectr.Base.{
  ℕ, ◌≤◌, ◌≡◌, ◌⊎◌, inl, inr, refl, sym, arith, Bool, true, false, not, ◌&&◌, ltb, leb, ◌==◌,
  if◌then◌else◌, Option, none, some, List, [], ◌∷◌, length, drop, length-drop, if_both, Result, ok,
  err, Bool-cases,
}
use node_red_contrib_eelectr.Core.Text.{Text}
use node_red_contrib_eelectr.Core.Address.Group.{of_text}
use node_red_contrib_eelectr.Nodes.StateStore.{
  StoreAction, set, get, list, clear, other, KnxMessage, StoredEntry, Store, given, action_of,
  entry_of, find, has, put, delete, make_room, on_input,
}
use node_red_contrib_eelectr.Nodes.StateStore.Map.{
  Distinct, find-put, find-delete, find-drop, put-Distinct, delete-Distinct, drop-Distinct,
  length-put, length-delete,
}

-- What a message means for the values that are known.
pub data Meaning (P : Type 0) : Type 0 where
  stores : ℕ → StoredEntry P → Meaning P
  forgets : ℕ → Meaning P
  forgets_all nothing : Meaning P

module _ {P : Type 0} where
  abbrev stores_at : Result ℕ → StoredEntry P → Meaning P
  stores_at (err e) entry = nothing
  stores_at (ok k) entry = stores k entry

  abbrev forgets_at : Result ℕ → Meaning P
  forgets_at (err e) = nothing
  forgets_at (ok k) = forgets k

  abbrev meaning_of : StoreAction → Option Text → Text → KnxMessage P → Meaning P
  meaning_of list topic now msg = nothing
  meaning_of get topic now msg = nothing
  meaning_of clear none now msg = forgets_all
  meaning_of clear (some ga) now msg = forgets_at (of_text ga)
  meaning_of set none now msg = nothing
  meaning_of set (some ga) now msg = stores_at (of_text ga) (entry_of ga now msg)
  meaning_of other none now msg = nothing
  meaning_of other (some ga) now msg = stores_at (of_text ga) (entry_of ga now msg)

  abbrev pub meaning : Text → KnxMessage P → Meaning P
  meaning now msg = meaning_of (action_of msg.action) (given msg.topic) now msg

  -- What was last stored under a key and not forgotten since; the newest meaning stands first.
  abbrev pub last_stored : ℕ → List (Meaning P) → Option (StoredEntry P)
  last_stored k [] = none
  last_stored k (stores j e ∷ earlier) = if j == k then some e else last_stored k earlier
  last_stored k (forgets j ∷ earlier) = if j == k then none else last_stored k earlier
  last_stored k (forgets_all ∷ earlier) = none
  last_stored k (nothing ∷ earlier) = last_stored k earlier

  -- Whether the newest meaning is a value for this key.
  abbrev pub newest_stores : ℕ → List (Meaning P) → Bool
  newest_stores k (stores j e ∷ earlier) = j == k
  newest_stores k _ = false

  -- The store after messages with their times, the newest first.
  abbrev pub after : ℕ → List (Text × KnxMessage P) → Store P
  after max_entries [] = []
  after max_entries ((now, msg) ∷ earlier) =
      (on_input max_entries now msg (after max_entries earlier)).store

  abbrev pub meanings : List (Text × KnxMessage P) → List (Meaning P)
  meanings [] = []
  meanings ((now, msg) ∷ earlier) = meaning now msg ∷ meanings earlier

  abbrev act : ℕ → Meaning P → Store P → Store P
  act max_entries (stores k e) m = put k e (make_room max_entries k m)
  act max_entries (forgets k) m = delete k m
  act max_entries forgets_all m = []
  act max_entries nothing m = m

  on_input-act :
      (max_entries : ℕ) (now : Text) (msg : KnxMessage P) (m : Store P)
      → (on_input max_entries now msg m).store ≡ act max_entries (meaning now msg) m
  unfolding on_input given action_of
  on_input-act max_entries now msg m = ground arith

  -- A store whose keys differ, that is no larger than its bound, and that tells of no key anything but
  -- what was last stored; it tells that of the newest key, and without a bound of every key.
  pub record Remembers (max_entries : ℕ) (history : List (Meaning P)) (m : Store P) : Type 0 where
    pub distinct : Distinct m
    pub bounded : ltb 0 max_entries ≡ true → length m ≤ max_entries
    pub sound : (k : ℕ) → (find k m ≡ none) ⊎ (find k m ≡ last_stored k history)
    pub newest : (k : ℕ) → newest_stores k history ≡ true → find k m ≡ last_stored k history
    pub complete : max_entries ≡ 0 → (k : ℕ) → find k m ≡ last_stored k history

  room_sound :
      (max_entries k j : ℕ) (m : Store P)
      → Distinct m
      → (find k (make_room max_entries j m) ≡ none)
        ⊎ (find k (make_room max_entries j m) ≡ find k m)
  unfolding make_room
  room_sound max_entries k j m v =
      if_both (λ t. (find k t ≡ none) ⊎ (find k t ≡ find k m))
        (ltb 0 max_entries && (not (has j m) && leb max_entries (length m))) _ _ (find-drop k m v)
        (inr refl)

  room-Distinct :
      (max_entries j : ℕ) (m : Store P) → Distinct m → Distinct (make_room max_entries j m)
  unfolding make_room
  room-Distinct max_entries j m v =
      if_both Distinct (ltb 0 max_entries && (not (has j m) && leb max_entries (length m))) _ _
        (drop-Distinct m v) v

  room_bounded :
      (max_entries j : ℕ) (e : StoredEntry P) (m : Store P)
      → ltb 0 max_entries ≡ true
      → length m ≤ max_entries
      → length (put j e (make_room max_entries j m)) ≤ max_entries
  unfolding make_room
  room_bounded max_entries j e m p h =
      ground (arith, p, h, length-put j e m, length-put j e (drop 1 m), length-drop 1 m)

  room_none : (max_entries j : ℕ) (m : Store P) → max_entries ≡ 0 → make_room max_entries j m ≡ m
  unfolding make_room
  room_none max_entries j m z = ground (arith, z)

  put_other :
      (max_entries k j : ℕ) (e : StoredEntry P) (history : List (Meaning P)) (m : Store P)
      → (j == k) ≡ false
      → Remembers max_entries history m
      → (find k (put j e (make_room max_entries j m)) ≡ none)
        ⊎ (find k (put j e (make_room max_entries j m)) ≡ last_stored k (stores j e ∷ history))
  put_other max_entries k j e history m h v =
      let p = find-put k j e (make_room max_entries j m) in
      elim (room_sound max_entries k j m v.distinct) [
        | inl n ↦ inl (ground (arith, h, n, p))
        | inr r ↦ elim (v.sound k) [
          | inl n ↦ inl (ground (arith, h, n, r, p))
          | inr l ↦ inr (ground (arith, h, l, r, p))
        ]
      ]

  empty-Remembers :
      (max_entries : ℕ) (history : List (Meaning P))
      → ((k : ℕ) → last_stored k history ≡ none)
      → Remembers max_entries history []
  unfolding find
  empty-Remembers max_entries history h = record {
    distinct = tt;
    bounded = λ p. omega arith;
    sound = λ k. inl refl;
    newest = λ k p. sym (h k);
    complete = λ z k. sym (h k);
  }

  act-Remembers :
      (max_entries : ℕ) (x : Meaning P) (history : List (Meaning P)) (m : Store P)
      → Remembers max_entries history m
      → Remembers max_entries (x ∷ history) (act max_entries x m)
  act-Remembers max_entries nothing history m v = record {
    distinct = v.distinct;
    bounded = v.bounded;
    sound = v.sound;
    newest = λ k p. absurd (ground arith);
    complete = v.complete;
  }
  act-Remembers max_entries forgets_all history m v =
      empty-Remembers max_entries (forgets_all ∷ history) (λ k. refl)
  act-Remembers max_entries (forgets j) history m v = record {
    distinct = delete-Distinct j m v.distinct;
    bounded = λ p. omega (arith, length-delete j m, v.bounded p);
    sound = λ k. elim (Bool-cases (j == k)) [
      | inl h ↦ inl (ground (arith, h, find-delete k j m v.distinct))
      | inr h ↦ elim (v.sound k) [
        | inl n ↦ inl (ground (arith, h, n, find-delete k j m v.distinct))
        | inr e ↦ inr (ground (arith, h, e, find-delete k j m v.distinct))
      ]
    ];
    newest = λ k p. absurd (ground arith);
    complete = λ z k. ground (arith, find-delete k j m v.distinct, v.complete z k);
  }
  act-Remembers max_entries (stores j e) history m v =
      let t = make_room max_entries j m in
      record {
        distinct = put-Distinct j e t (room-Distinct max_entries j m v.distinct);
        bounded = λ p. room_bounded max_entries j e m p (v.bounded p);
        sound = λ k. elim (Bool-cases (j == k)) [
          | inl h ↦ inr (ground (arith, h, find-put k j e t))
          | inr h ↦ put_other max_entries k j e history m h v
        ];
        newest = λ k p. ground (arith, p, find-put k j e t);
        complete =
            λ z k. ground (arith, find-put k j e t, room_none max_entries j m z, v.complete z k);
      }

-- After any messages: the store has no more entries than its bound, if it has one; what it tells of an
-- address is what was last stored for it and not cleared since, unless it tells nothing; of an address for which the
-- newest message stored something, and with no bound of every address, it always tells that.
pub after-Remembers :
    {P : Type 0} (max_entries : ℕ) (history : List (Text × KnxMessage P))
    → Remembers max_entries (meanings history) (after max_entries history)
after-Remembers max_entries [] = empty-Remembers max_entries [] (λ k. refl)
after-Remembers max_entries ((now, msg) ∷ earlier) =
    rw (on_input-act max_entries now msg (after max_entries earlier)) (
      act-Remembers max_entries (meaning now msg) (meanings earlier) (after max_entries earlier)
        (after-Remembers max_entries earlier))
