-- ===== src/Nodes/RateLimit/Window.antt =====
-- The buckets of the node against the history of the messages that passed.
use node_red_contrib_eelectr.Base.{
  ℕ, suc, ◌+◌, ◌≤◌, ◌≡◌, refl, arith, ◌&&◌, ltb, if◌then◌else◌, List, [], ◌∷◌, ◌++◌, length, All,
  if_both, Bool, true, false, Option, none, some, ap, ◌∙◌, Bool-cases, inl, inr,
}
use node_red_contrib_eelectr.Core.Text.{Text}
use node_red_contrib_eelectr.Base.{list_eq}
use node_red_contrib_eelectr.Nodes.RateLimit.{
  RateLimit, Message, Sent, first_output, second_output, no_output, global_key, topic_key, key,
  evict, admits, on_input,
}

-- How many of some times lie in the window that ends at `now`.
abbrev pub within : ℕ → ℕ → List ℕ → ℕ
within window now [] = 0
within window now (t ∷ ts) =
    if ltb (t + window) now then within window now ts else suc (within window now ts)

abbrev pub Ascending : List ℕ → Type 0
Ascending [] = Unit {0}
Ascending (t ∷ ts) = All (λ u. t ≤ u) ts × Ascending ts

pub within-append :
    (window now : ℕ) (xs ys : List ℕ)
    → within window now (xs ++ ys) ≡ within window now xs + within window now ys
within-append window now [] ys = omega arith
within-append window now (x ∷ xs) ys = ground (arith, within-append window now xs ys)

within-All :
    (window now t : ℕ) (ts : List ℕ)
    → now ≤ t + window
    → All (λ u. t ≤ u) ts
    → within window now ts ≡ length ts
within-All window now t [] h a = refl
within-All window now t (u ∷ ts) h (hu, a) = ground (arith, within-All window now t ts h a)

-- What leaves is what lies before the window.
pub within-evict :
    (window now later : ℕ) (ts : List ℕ)
    → now ≤ later
    → within window later (evict window now ts) ≡ within window later ts
unfolding evict
within-evict window now later [] h = refl
within-evict window now later (t ∷ ts) h = ground (arith, within-evict window now later ts h)

pub length-evict :
    (window now : ℕ) (ts : List ℕ)
    → Ascending ts
    → length (evict window now ts) ≡ within window now ts
unfolding evict
length-evict window now [] a = refl
length-evict window now (t ∷ ts) (h, a) =
    ground (arith, length-evict window now ts a, within-All window now t ts)

pub evict-All :
    (P : ℕ → Type 0) (window now : ℕ) (ts : List ℕ) → All P ts → All P (evict window now ts)
unfolding evict
evict-All P window now [] a = tt
evict-All P window now (t ∷ ts) (h, a) =
    if_both (All P) (ltb (t + window) now) (evict window now ts) (t ∷ ts)
      (evict-All P window now ts a) (h, a)

pub evict-Ascending :
    (window now : ℕ) (ts : List ℕ) → Ascending ts → Ascending (evict window now ts)
unfolding evict
evict-Ascending window now [] a = tt
evict-Ascending window now (t ∷ ts) (h, a) =
    if_both Ascending (ltb (t + window) now) (evict window now ts) (t ∷ ts)
      (evict-Ascending window now ts a) (h, a)

pub All-snoc :
    {A : Type 0} (P : A → Type 0) (ts : List A) (t : A) → All P ts → P t → All P (ts ++ t ∷ [])
All-snoc P [] t a h = (h, tt)
All-snoc P (u ∷ ts) t (hu, a) h = (hu, All-snoc P ts t a h)

pub Ascending-snoc :
    (ts : List ℕ) (t : ℕ) → Ascending ts → All (λ u. u ≤ t) ts → Ascending (ts ++ t ∷ [])
Ascending-snoc [] t a h = (tt, tt)
Ascending-snoc (u ∷ ts) t (hu, a) (h, hs) =
    (All-snoc (λ v. u ≤ v) ts t hu h, Ascending-snoc ts t a hs)

pub All-le : (s t : ℕ) (ts : List ℕ) → s ≤ t → All (λ u. u ≤ s) ts → All (λ u. u ≤ t) ts
All-le s t [] h a = tt
All-le s t (u ∷ ts) h (hu, a) = (omega arith, All-le s t ts h a)

-- Messages in the order of arrival, the last one first, and what is left of the node after them.
abbrev pub after : List Message → RateLimit → RateLimit
after [] s = s
after (msg ∷ earlier) s = (on_input msg (after earlier s)).state

-- The messages that are limited together: those of a topic, where one that is no string counts as the
-- empty one, or all.
abbrev pub flow : Bool → Option Text → Text
flow false topic = global_key
flow true none = []
flow true (some topic) = topic

pub key_lem : (per_topic : Bool) (msg : Message) → key per_topic msg ≡ flow per_topic msg.topic
unfolding key
key_lem false msg = refl
key_lem true msg = topic_key_lem msg.topic
  where
    topic_key_lem : (topic : Option Text) → topic_key topic ≡ flow true topic
    topic_key_lem none = refl
    topic_key_lem (some t) = refl

abbrev pub is_first : Sent → Bool
is_first first_output = true
is_first second_output = false
is_first no_output = false

-- When messages of a flow were sent out of the first output, the last time first.
abbrev pub passes : Text → List Message → RateLimit → List ℕ
passes k [] s = []
passes k (msg ∷ earlier) s =
    if list_eq (flow s.per_topic msg.topic) k && is_first (on_input msg (after earlier s)).sent
    then msg.now ∷ passes k earlier s
    else passes k earlier s

-- Where a message goes: the first output, or else the second one if it is in use.
abbrev pub output_of : Bool → Bool → Sent
output_of expose_dropped true = first_output
output_of expose_dropped false = if expose_dropped then second_output else no_output

pub sent_lem :
    (msg : Message) (s : RateLimit)
    → (on_input msg s).sent ≡ output_of s.expose_dropped (admits s msg)
unfolding on_input
sent_lem msg s = elim (Bool-cases (admits s msg)) [ inl a ↦ rw a refl | inr a ↦ rw a refl ]

pub is_first_lem : (msg : Message) (s : RateLimit) → is_first (on_input msg s).sent ≡ admits s msg
is_first_lem msg s = ap is_first (sent_lem msg s) ∙ first_of s.expose_dropped (admits s msg)
  where
    first_of : (e b : Bool) → is_first (output_of e b) ≡ b
    first_of e true = refl
    first_of true false = refl
    first_of false false = refl

pub passes-step :
    (k : Text) (msg : Message) (earlier : List Message) (s : RateLimit)
    → passes k (msg ∷ earlier) s ≡ (
        if list_eq (key s.per_topic msg) k && admits (after earlier s) msg
        then msg.now ∷ passes k earlier s
        else passes k earlier s)
passes-step k msg earlier s =
    rw (key_lem s.per_topic msg) (rw (is_first_lem msg (after earlier s)) refl)

abbrev pub latest : List Message → ℕ
latest [] = 0
latest (msg ∷ earlier) = msg.now

-- The clock does not go back.
abbrev pub Chronological : List Message → Type 0
Chronological [] = Unit {0}
Chronological (msg ∷ earlier) = (latest earlier ≤ msg.now) × Chronological earlier

pub after-settings :
    (msgs : List Message) (s : RateLimit)
    → ((after msgs s).max_per_window ≡ s.max_per_window)
      × ((after msgs s).window_ms ≡ s.window_ms)
      × ((after msgs s).per_topic ≡ s.per_topic)
      × ((after msgs s).expose_dropped ≡ s.expose_dropped)
unfolding on_input
after-settings [] s = (refl, refl, refl, refl)
after-settings (msg ∷ earlier) s =
    let (m, w, p, x) = after-settings earlier s in
    (ground (arith, m), ground (arith, w), ground (arith, p), ground (arith, x))

-- The bucket of a key against its history: the same count in each window that ends later.
pub record Tracks (k : Text) (msgs : List Message) (s : RateLimit) : Type 0 where
  pub counts :
      (later : ℕ)
      → latest msgs ≤ later
      → within s.window_ms later ((after msgs s).buckets k)
        ≡ within s.window_ms later (passes k msgs s)
  pub ordered : Ascending ((after msgs s).buckets k)
  pub past : All (λ t. t ≤ latest msgs) ((after msgs s).buckets k)
