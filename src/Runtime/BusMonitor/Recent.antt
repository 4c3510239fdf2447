-- ===== src/Runtime/BusMonitor/Recent.antt =====
-- The buffer holds the latest records since it was cleared.
use node_red_contrib_eelectr.Base.{
  ℕ, zero, suc, ◌+◌, ◌-◌, ◌≤◌, ◌≡◌, refl, arith, ap, ◌∙◌, min, List, [], ◌∷◌, ◌++◌, length,
  length-append, drop, drop-append, ok,
}
use node_red_contrib_eelectr.Runtime.BusMonitor.{
  BusMonitor, new_bus_monitor, push, slice_last, recent, clear, size,
}

pub data Operation {ℓ} (R : Type ℓ) : Type ℓ where
  pushes : R → Operation R
  clears : Operation R

module _ {R : Type 0} where
  -- The operations on a monitor, the last one first.
  abbrev pub after : List (Operation R) → BusMonitor R → BusMonitor R
  after [] m = m
  after (pushes r ∷ earlier) m = (push r (after earlier m)).monitor
  after (clears ∷ earlier) m = (clear (after earlier m)).monitor

  -- The records since the last time that it was cleared, in order.
  abbrev pub since_clear : List (Operation R) → List R
  since_clear [] = []
  since_clear (pushes r ∷ earlier) = since_clear earlier ++ r ∷ []
  since_clear (clears ∷ earlier) = []

  -- The last `n` of a list, all of it if there are fewer.
  abbrev pub take_last : ℕ → List R → List R
  take_last n xs = drop (length xs - n) xs

  length-drop : (n : ℕ) (xs : List R) → length (drop n xs) ≡ length xs - n
  length-drop zero xs = omega arith
  length-drop (suc n) [] = omega arith
  length-drop (suc n) (x ∷ xs) = ground (arith, length-drop n xs)

  drop-nil : (n : ℕ) → drop {A = R} n [] ≡ []
  drop-nil zero = refl
  drop-nil (suc n) = refl

  drop-drop : (m n : ℕ) (xs : List R) → drop m (drop n xs) ≡ drop (n + m) xs
  drop-drop m zero xs = ap (λ k. drop k xs) (omega arith)
  drop-drop m (suc n) [] = ground (arith, drop-nil m, drop-nil (suc n + m))
  drop-drop m (suc n) (x ∷ xs) = drop-drop m n xs ∙ ap (λ k. drop k (x ∷ xs)) shifted
    where
      shifted : suc (n + m) ≡ suc n + m
      shifted = omega arith

  drop-length : (xs : List R) → drop (length xs) xs ≡ []
  drop-length [] = refl
  drop-length (x ∷ xs) = drop-length xs

  -- A push onto the latest records of a history gives the latest ones of the longer history.
  push-take_last :
      (max : ℕ) (r : R) (history : List R) (m : BusMonitor R)
      → m.max ≡ max
      → 1 ≤ max
      → m.buffer ≡ take_last max history
      → (push r m).monitor ≡ record { buffer = take_last max (history ++ r ∷ []); max = max }
  unfolding push
  push-take_last max r history m hm h1 hb =
      let skipped = length history - max in
      ground (
        arith,
        hm,
        hb,
        length-append history (r ∷ []),
        length-append (take_last max history) (r ∷ []),
        length-drop skipped history,
        drop-append skipped history (r ∷ []) (omega arith),
        drop-drop 1 skipped (history ++ r ∷ []),
      )

  after_lem :
      (max : ℕ) (ops : List (Operation R))
      → 1 ≤ max
      → after ops (record { buffer = []; max = max })
        ≡ record { buffer = take_last max (since_clear ops); max = max }
  unfolding clear
  after_lem max [] h = ground (arith, drop-nil (0 - max))
  after_lem max (pushes r ∷ earlier) h =
      let e = after_lem max earlier h in
      push-take_last max r (since_clear earlier) (after earlier (record { buffer = []; max = max }))
        (ap (λ m. m.max) e) h (ap (λ m. m.buffer) e)
  after_lem max (clears ∷ earlier) h = ground (arith, after_lem max earlier h)

  -- A monitor of a positive size exists, and after any operations on it the recent records are, up to the
  -- limit and to its size, the latest of those that were pushed since it was last cleared, in
  -- the order in which they were.
  pub recent-after :
      (max limit : ℕ) (ops : List (Operation R))
      → 1 ≤ max
      → (m : BusMonitor R) × (new_bus_monitor max ≡ ok m)
        × (recent limit (after ops m) ≡ take_last (min limit max) (since_clear ops))
        × (size (after ops m) ≡ min (length (since_clear ops)) max)
  unfolding new_bus_monitor recent slice_last size
  recent-after max limit ops h =
      let history = since_clear ops in
      let skipped = length history - max in
      let e = after_lem max ops h in
      (
        record { buffer = []; max = max },
        ground (arith, h),
        ground (
          arith,
          e,
          length-drop skipped history,
          drop-drop (length (drop skipped history) - min limit (length (drop skipped history)))
              skipped history,
          drop-length history,
        ),
        ground (arith, e, length-drop skipped history),
      )
