-- ===== src/Runtime/BusMonitor.antt =====
-- src/runtime/busMonitor.ts: the bounded buffer of recent telegrams. The records are only stored, so
-- their type is a parameter; limits and sizes are natural numbers.
pub mod Recent
use node_red_contrib_eelectr.Base.{
  ℕ, zero, suc, ◌-◌, min, Bool, ltb, leb, ◌==◌, if◌then◌else◌, List, [], ◌∷◌, ◌++◌, length, drop,
  Result, ok, ◌>>=◌, ◌>>◌, throw_if, range_error,
}

pub record BusMonitor {ℓ} (R : Type ℓ) : Type ℓ where
  pub buffer : List R
  pub max : ℕ

-- What the listeners of the emitter get.
pub data Event {ℓ} (R : Type ℓ) : Type ℓ where
  telegram : R → Event R
  cleared : Event R

pub record Outcome {ℓ} (R : Type ℓ) : Type ℓ where
  pub monitor : BusMonitor R
  pub event : Event R

-- The constructor.
unfoldable pub new_bus_monitor {ℓ} : {R : Type ℓ} → ℕ → Result (BusMonitor R)
new_bus_monitor max_size = do
  throw_if (ltb max_size 1) range_error
  ok (record { buffer = []; max = max_size })

unfoldable pub push {ℓ} : {R : Type ℓ} → R → BusMonitor R → Outcome R
push r m =
    let buffer = m.buffer ++ r ∷ [] in
    record {
      monitor = record m { buffer = if ltb m.max (length buffer) then drop 1 buffer else buffer };
      event = telegram r;
    }

-- `buffer.slice(-n)` for `n` up to the length; `-0` is 0, where the slice begins at the front.
unfoldable pub slice_last {ℓ} : {R : Type ℓ} → ℕ → List R → List R
slice_last n buffer = if n == 0 then buffer else drop (length buffer - n) buffer

unfoldable pub recent {ℓ} : {R : Type ℓ} → ℕ → BusMonitor R → List R
recent limit m = if leb limit 0 then [] else slice_last (min limit (length m.buffer)) m.buffer

unfoldable pub clear {ℓ} : {R : Type ℓ} → BusMonitor R → Outcome R
clear m = record { monitor = record m { buffer = [] }; event = cleared }

unfoldable pub size {ℓ} : {R : Type ℓ} → BusMonitor R → ℕ
size m = length m.buffer
