-- ===== src/Examples/Watchers.antt =====
-- Stores and watchdogs on concrete messages.
use node_red_contrib_eelectr.Base.{ℕ, ◌≡◌, refl, arith, false, none, some, List, [], ◌∷◌, ok}
use node_red_contrib_eelectr.Core.Text.{Text, split_on, all_digits, is_field, parse_int, show}
use node_red_contrib_eelectr.Core.Address.{long, bounded}
use node_red_contrib_eelectr.Core.Address.Group
use node_red_contrib_eelectr.Core.GaMatcher.{trim, trim_end}
use node_red_contrib_eelectr.Core.Text.ParseInt.{skip_space, is_space}
use node_red_contrib_eelectr.Nodes.StateStore.{KnxMessage, get}
use node_red_contrib_eelectr.Nodes.Watchdog.{
  Watched, alarm, new_watchdog, on_check, watch_all, parse_group_addresses, put_watched,
}
use node_red_contrib_eelectr.Nodes.Watchdog.Entries.{transitions, is_alarmed}
use node_red_contrib_eelectr.Nodes.Watchdog.Alternation.{check, run, Alternates, run-Alternates}
use node_red_contrib_eelectr.Nodes.Watchdog.Unseen.{on_check-unseen}

-- '1/1/1'
abbrev address : Text
address = b'1' ∷ b'/' ∷ b'1' ∷ b'/' ∷ b'1' ∷ []

abbrev message : ℕ → KnxMessage ℕ
message n = record {
  action = none;
  topic = some address;
  payload = n;
  dpt = none;
  ga_name = none;
  source = none;
}

-- The same address is asked for.
abbrev question : KnxMessage ℕ
question = record (message 0) { action = some get }

abbrev history : List (Text × KnxMessage ℕ)
history = ([], message 5) ∷ ([], message 4) ∷ []

abbrev entries : List Watched
entries =
    record { raw = 0x0901; ga = address; ga_name = none; last_seen = none; alarmed = false } ∷ []

deployed : new_watchdog long (λ k. none) false 1700 address ≡ ok entries
unfolding new_watchdog watch_all parse_group_addresses put_watched trim trim_end skip_space is_space
    Group.of_text Group.of_segments Group.to_string bounded split_on all_digits is_field parse_int
    show
deployed = refl

run-Alternates_example :
    Alternates false
      (transitions 0x0901 (run 300 (check 2000 ∷ check 2600 ∷ []) entries).sent)
      (is_alarmed 0x0901 (run 300 (check 2000 ∷ check 2600 ∷ []) entries).watched)
run-Alternates_example =
    run-Alternates long (λ k. none) false 1700 address 300 0x0901 (check 2000 ∷ check 2600 ∷ [])
      entries deployed

on_check-unseen_example : transitions 0x0901 (on_check 300 1701 entries).sent ≡ alarm ∷ []
on_check-unseen_example =
    on_check-unseen long (λ k. none) 1700 1701 300 0x0901 address entries deployed (omega arith)
      refl
