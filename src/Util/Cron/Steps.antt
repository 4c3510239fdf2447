-- ===== src/Util/Cron/Steps.antt =====
-- The numbers of a piece.
use node_red_contrib_eelectr.Base.{
  ℕ, zero, suc, ◌+◌, ◌-◌, ◌%◌, ◌<◌, ◌≡◌, refl, ap, arith, Bool, true, ◌&&◌, ◌||◌, ◌==◌, leb, List,
  [], ◌∷◌, ◌++◌,
}
use native.Mathlib.Decide.{dec_lt}
use native.Mathlib.Nat.{mod-eq_of_lt, mod-eq-sub-mod}
use node_red_contrib_eelectr.Util.Cron.{has, steps, add_all}

-- What a step from `lo` to `hi` reaches.
abbrev pub reaches : ℕ → ℕ → ℕ → ℕ → Bool
reaches lo hi step v = leb lo v && (leb v hi && (v - lo) % step == 0)

regroup : (v lo step : ℕ) → v - (lo + step) ≡ v - lo - step
regroup v lo step = omega arith

step_on :
    (lo hi step v : ℕ)
    → 0 < step
    → leb lo hi ≡ true
    → (lo == v || reaches (lo + step) hi step v) ≡ reaches lo hi step v
step_on lo hi step v p h = elim (dec_lt v (lo + step)) [
  | yes near ↦ ground (arith, p, h, near, mod-eq_of_lt {n = v - lo} {m = step})
  | no far ↦ ground (
    arith,
    p,
    h,
    far,
    mod-eq-sub-mod {n = v - lo} {m = step} (omega arith),
    ap (λ (t : ℕ). t % step) (regroup v lo step),
  )
]

pub has-steps :
    (rounds lo hi step v : ℕ)
    → 0 < step
    → hi < lo + rounds
    → has v (steps rounds lo hi step) ≡ reaches lo hi step v
unfolding has steps
has-steps zero lo hi step v p h = ground arith
has-steps (suc rounds) lo hi step v p h =
    ground (arith, p, h, step_on lo hi step v p, has-steps rounds (lo + step) hi step v p)

pub has-append : (v : ℕ) (xs ys : List ℕ) → has v (xs ++ ys) ≡ (has v xs || has v ys)
unfolding has
has-append v [] ys = refl
has-append v (x ∷ xs) ys = ground (arith, has-append v xs ys)

pub has-add_all :
    (v : ℕ) (xs values : List ℕ) → has v (add_all xs values) ≡ (has v xs || has v values)
unfolding has add_all
has-add_all v [] values = refl
has-add_all v (x ∷ xs) values = ground (
  arith,
  has-add_all v xs values,
  has-add_all v xs (values ++ (x ∷ [])),
  has-append v values (x ∷ []),
)
