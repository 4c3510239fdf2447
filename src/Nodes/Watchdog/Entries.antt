-- ===== src/Nodes/Watchdog/Entries.antt =====
-- The entry of one address, in a list with one entry for each.
use node_red_contrib_eelectr.Base.{
  ℕ, ◌≡◌, refl, arith, Bool, true, false, not, ◌&&◌, ◌||◌, ◌==◌, if◌then◌else◌, Option, none, some,
  List, [], ◌∷◌, ◌++◌, map, ok, >>=-eq-ok,
}
use mathlib.Core.Path.{subst}
use node_red_contrib_eelectr.Core.Text.{Text}
use node_red_contrib_eelectr.Core.Address.{GroupAddressStyle}
use node_red_contrib_eelectr.Core.Address.Group.{of_text}
use node_red_contrib_eelectr.Nodes.Watchdog.{
  Watched, Alert, Transition, alarm, recovery, emit, put_watched, watch_all, new_watchdog, hear,
  recoveries, raise, alarms, is_due, parse_group_addresses,
}

abbrev pub watches : ℕ → List Watched → Bool
watches k [] = false
watches k (w ∷ ws) = if w.raw == k then true else watches k ws

abbrev pub Distinct : List Watched → Type 0
Distinct [] = Unit {0}
Distinct (w ∷ ws) = (watches w.raw ws ≡ false) × Distinct ws

abbrev pub is_alarmed : ℕ → List Watched → Bool
is_alarmed k [] = false
is_alarmed k (w ∷ ws) = if w.raw == k then w.alarmed else is_alarmed k ws

abbrev pub is_due_at : ℕ → ℕ → ℕ → List Watched → Bool
is_due_at timeout_ms now k [] = false
is_due_at timeout_ms now k (w ∷ ws) =
    if w.raw == k then is_due timeout_ms now w else is_due_at timeout_ms now k ws

-- The transitions of one address, in order.
abbrev pub transitions : ℕ → List Alert → List Transition
transitions k [] = []
transitions k (a ∷ rest) =
    if a.raw == k then a.transition ∷ transitions k rest else transitions k rest

pub transitions-append :
    (k : ℕ) (xs ys : List Alert) → transitions k (xs ++ ys) ≡ transitions k xs ++ transitions k ys
transitions-append k [] ys = refl
transitions-append k (x ∷ xs) ys = ground (arith, transitions-append k xs ys)

module _ (timeout_ms now : ℕ) where
  recoveries_absent :
      (raw k : ℕ) (ws : List Watched)
      → watches k ws ≡ false
      → transitions k (recoveries timeout_ms raw now ws) ≡ []
  unfolding recoveries emit
  recoveries_absent raw k [] h = refl
  recoveries_absent raw k (w ∷ ws) h = ground (arith, h, recoveries_absent raw k ws)

  alarms_absent :
      (k : ℕ) (ws : List Watched)
      → watches k ws ≡ false
      → transitions k (alarms timeout_ms now ws) ≡ []
  unfolding alarms emit
  alarms_absent k [] h = refl
  alarms_absent k (w ∷ ws) h = ground (arith, h, alarms_absent k ws)

  pub heard-transitions :
      (raw k : ℕ) (ws : List Watched)
      → Distinct ws
      → transitions k (recoveries timeout_ms raw now ws)
        ≡ (if raw == k && is_alarmed k ws then recovery ∷ [] else [])
  unfolding recoveries emit
  heard-transitions raw k [] v = ground arith
  heard-transitions raw k (w ∷ ws) v =
      ground (arith, v.0, recoveries_absent raw k ws, heard-transitions raw k ws v.1)

  pub heard-is_alarmed :
      (raw k : ℕ) (ws : List Watched)
      → is_alarmed k (map (hear raw now) ws) ≡ (is_alarmed k ws && not (raw == k))
  unfolding hear
  heard-is_alarmed raw k [] = refl
  heard-is_alarmed raw k (w ∷ ws) = ground (arith, heard-is_alarmed raw k ws)

  pub check-transitions :
      (k : ℕ) (ws : List Watched)
      → Distinct ws
      → transitions k (alarms timeout_ms now ws)
        ≡ (if is_due_at timeout_ms now k ws then alarm ∷ [] else [])
  unfolding alarms emit
  check-transitions k [] v = refl
  check-transitions k (w ∷ ws) v =
      ground (arith, v.0, alarms_absent k ws, check-transitions k ws v.1)

  pub check-is_alarmed :
      (k : ℕ) (ws : List Watched)
      → is_alarmed k (map (raise timeout_ms now) ws)
        ≡ (is_alarmed k ws || is_due_at timeout_ms now k ws)
  unfolding raise is_due
  check-is_alarmed k [] = refl
  check-is_alarmed k (w ∷ ws) = ground (arith, check-is_alarmed k ws)

  pub due_quiet :
      (k : ℕ) (ws : List Watched) → is_due_at timeout_ms now k ws ≡ true → is_alarmed k ws ≡ false
  unfolding is_due
  due_quiet k [] h = refl
  due_quiet k (w ∷ ws) h = ground (arith, h, due_quiet k ws)

  watches-raise :
      (k : ℕ) (ws : List Watched) → watches k (map (raise timeout_ms now) ws) ≡ watches k ws
  unfolding raise
  watches-raise k [] = refl
  watches-raise k (w ∷ ws) = ground (arith, watches-raise k ws)

  pub raise-Distinct : (ws : List Watched) → Distinct ws → Distinct (map (raise timeout_ms now) ws)
  unfolding raise
  raise-Distinct [] v = tt
  raise-Distinct (w ∷ ws) v = (ground (arith, v.0, watches-raise w.raw ws), raise-Distinct ws v.1)

watches-hear :
    (raw now k : ℕ) (ws : List Watched) → watches k (map (hear raw now) ws) ≡ watches k ws
unfolding hear
watches-hear raw now k [] = refl
watches-hear raw now k (w ∷ ws) = ground (arith, watches-hear raw now k ws)

pub hear-Distinct :
    (raw now : ℕ) (ws : List Watched) → Distinct ws → Distinct (map (hear raw now) ws)
unfolding hear
hear-Distinct raw now [] v = tt
hear-Distinct raw now (w ∷ ws) v =
    (ground (arith, v.0, watches-hear raw now w.raw ws), hear-Distinct raw now ws v.1)

watches-put :
    (k : ℕ) (w : Watched) (ws : List Watched)
    → watches k (put_watched w ws) ≡ (w.raw == k || watches k ws)
unfolding put_watched
watches-put k w [] = ground arith
watches-put k w (x ∷ xs) = ground (arith, watches-put k w xs)

put-Distinct : (w : Watched) (ws : List Watched) → Distinct ws → Distinct (put_watched w ws)
unfolding put_watched
put-Distinct w [] v = (refl, tt)
put-Distinct w (x ∷ xs) v = ground (arith, v.0, v.1, watches-put x.raw w xs, put-Distinct w xs)

put_quiet :
    (k : ℕ) (w : Watched) (ws : List Watched)
    → w.alarmed ≡ false
    → is_alarmed k ws ≡ false
    → is_alarmed k (put_watched w ws) ≡ false
unfolding put_watched
put_quiet k w [] a h = ground (arith, a)
put_quiet k w (x ∷ xs) a h = ground (arith, a, h, put_quiet k w xs)

-- A list in which the keys differ and nothing is alarmed.
pub record IsFresh (ws : List Watched) : Type 0 where
  pub distinct : Distinct ws
  pub quiet : (k : ℕ) → is_alarmed k ws ≡ false

watch_all-IsFresh :
    (style : GroupAddressStyle) (name_of : ℕ → Option Text) (seed : Option ℕ) (gas : List Text)
    (ws : List Watched) {out : List Watched}
    → IsFresh ws
    → watch_all style name_of seed gas ws ≡ ok out
    → IsFresh out
unfolding watch_all
watch_all-IsFresh style name_of seed [] ws v h = subst IsFresh (cc) v
watch_all-IsFresh style name_of seed (a ∷ gas) ws v h =
    let (raw, r, rest) = >>=-eq-ok (of_text a) _ h in
    watch_all-IsFresh style name_of seed gas _
      (record {
        distinct = put-Distinct _ ws v.distinct;
        quiet = λ k. put_quiet k _ ws refl (v.quiet k);
      })
      rest

pub new_watchdog-IsFresh :
    (style : GroupAddressStyle) (name_of : ℕ → Option Text) (seed : Bool) (now : ℕ) (input : Text)
    {ws : List Watched}
    → new_watchdog style name_of seed now input ≡ ok ws
    → IsFresh ws
unfolding new_watchdog
new_watchdog-IsFresh style name_of seed now input h =
    watch_all-IsFresh style name_of (if seed then some now else none) (parse_group_addresses input)
      [] (record { distinct = tt; quiet = λ k. refl }) h
