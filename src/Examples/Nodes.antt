-- ===== src/Examples/Nodes.antt =====
-- Messages and records for the nodes and the monitor.
use node_red_contrib_eelectr.Base.{
  ℕ, ◌≡◌, arith, min, true, false, ltb, some, List, [], ◌∷◌, length, ok,
}
use node_red_contrib_eelectr.Nodes.RateLimit.{Message, new_rate_limit, on_input}
use node_red_contrib_eelectr.Nodes.RateLimit.Window.{
  within, after, passes, output_of, Chronological,
}
use node_red_contrib_eelectr.Nodes.RateLimit.History.{Bounded, on_input-within, passes-Bounded}
use node_red_contrib_eelectr.Runtime.BusMonitor.{BusMonitor, new_bus_monitor, recent, size}
use node_red_contrib_eelectr.Runtime.BusMonitor.Recent as RecentRecords
use node_red_contrib_eelectr.Runtime.BusMonitor.Recent.{Operation, pushes, clears, recent-after}

abbrev message_at : ℕ → Message
message_at t = record { topic = some (b'a' ∷ []); now = t }

abbrev arrivals : List Message
arrivals = message_at 1900 ∷ message_at 1500 ∷ message_at 1000 ∷ []

arrivals-Chronological : Chronological (message_at 2100 ∷ arrivals)
arrivals-Chronological = (omega arith, (omega arith, (omega arith, (omega arith, tt))))

on_input-within_example :
    (on_input (message_at 2100) (after arrivals (new_rate_limit 2 1000 true false))).sent
    ≡ output_of false
        (ltb (within 1000 2100 (passes (b'a' ∷ []) arrivals (new_rate_limit 2 1000 true false))) 2)
on_input-within_example =
    on_input-within 2 1000 true false (message_at 2100) arrivals arrivals-Chronological

passes-Bounded_example :
    Bounded 2 1000
      (passes (b'a' ∷ []) (message_at 2100 ∷ arrivals) (new_rate_limit 2 1000 true false))
passes-Bounded_example =
    passes-Bounded 2 1000 true false (b'a' ∷ []) (message_at 2100 ∷ arrivals) arrivals-Chronological

abbrev history : List (Operation ℕ)
history = pushes 5 ∷ pushes 4 ∷ pushes 3 ∷ clears ∷ pushes 1 ∷ []

recent-after_example :
    (m : BusMonitor ℕ) × (new_bus_monitor 2 ≡ ok m)
    × (recent 9 (RecentRecords.after history m)
        ≡ RecentRecords.take_last (min 9 2) (RecentRecords.since_clear history))
    × (size (RecentRecords.after history m) ≡ min (length (RecentRecords.since_clear history)) 2)
recent-after_example = recent-after 2 9 history (omega arith)
