-- ===== src/Nodes/Watchdog/Unseen.antt =====
-- Addresses that have not been heard since a deployment without the seed.
use node_red_contrib_eelectr.Base.{
  ℕ, ◌<◌, ◌≡◌, refl, arith, true, false, Option, none, List, [], ◌∷◌, ok, All, >>=-eq-ok,
}
use mathlib.Core.Path.{subst}
use node_red_contrib_eelectr.Core.Text.{Text}
use node_red_contrib_eelectr.Core.Address.{GroupAddressStyle}
use node_red_contrib_eelectr.Core.Address.Group.{of_text}
use node_red_contrib_eelectr.Nodes.Watchdog.{
  Watched, alarm, put_watched, watch_all, new_watchdog, is_due, on_check, parse_group_addresses,
}
use node_red_contrib_eelectr.Nodes.Watchdog.Entries.{
  watches, is_due_at, transitions, check-transitions, new_watchdog-IsFresh,
}

abbrev IsUnseen : Watched → Type 0
IsUnseen w = (w.last_seen ≡ none) × (w.alarmed ≡ false)

put-IsUnseen :
    (w : Watched) (ws : List Watched)
    → IsUnseen w
    → All IsUnseen ws
    → All IsUnseen (put_watched w ws)
unfolding put_watched
put-IsUnseen w [] u v = (u, tt)
put-IsUnseen w (x ∷ xs) u v = ground (arith, u, v.0, v.1, put-IsUnseen w xs u)

watch_all-IsUnseen :
    (style : GroupAddressStyle) (name_of : ℕ → Option Text) (gas : List Text) (ws : List Watched)
    {out : List Watched}
    → All IsUnseen ws
    → watch_all style name_of none gas ws ≡ ok out
    → All IsUnseen out
unfolding watch_all
watch_all-IsUnseen style name_of [] ws v h = subst (All IsUnseen) (cc) v
watch_all-IsUnseen style name_of (a ∷ gas) ws v h =
    let (raw, r, rest) = >>=-eq-ok (of_text a) _ h in
    watch_all-IsUnseen style name_of gas _ (put-IsUnseen _ ws (refl, refl) v) rest

deployed-IsUnseen :
    (style : GroupAddressStyle) (name_of : ℕ → Option Text) (deployed : ℕ) (input : Text)
    (ws : List Watched)
    → new_watchdog style name_of false deployed input ≡ ok ws
    → All IsUnseen ws
unfolding new_watchdog
deployed-IsUnseen style name_of deployed input ws h =
    watch_all-IsUnseen style name_of (parse_group_addresses input) [] tt h

unseen-due :
    (timeout_ms now k : ℕ) (ws : List Watched)
    → timeout_ms < now
    → All IsUnseen ws
    → is_due_at timeout_ms now k ws ≡ watches k ws
unfolding is_due
unseen-due timeout_ms now k [] h v = refl
unseen-due timeout_ms now k (w ∷ ws) h v =
    ground (arith, h, v.0, unseen-due timeout_ms now k ws h v.1)

-- Without the seed the first check after deployment raises an alarm for every address, however little
-- time has passed since then: it is enough that the clock, which counts from 1970, is past the timeout.
pub on_check-unseen :
    (style : GroupAddressStyle) (name_of : ℕ → Option Text) (deployed now timeout_ms k : ℕ)
    (input : Text) (ws : List Watched)
    → new_watchdog style name_of false deployed input ≡ ok ws
    → timeout_ms < now
    → watches k ws ≡ true
    → transitions k (on_check timeout_ms now ws).sent ≡ alarm ∷ []
unfolding on_check
on_check-unseen style name_of deployed now timeout_ms k input ws h past w =
    let fresh = new_watchdog-IsFresh style name_of false deployed input h in
    let due =
      unseen-due timeout_ms now k ws past (deployed-IsUnseen style name_of deployed input ws h) in
    rw (check-transitions timeout_ms now k ws fresh.distinct, due, w) refl
