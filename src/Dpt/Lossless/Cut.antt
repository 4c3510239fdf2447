-- ===== src/Dpt/Lossless/Cut.antt =====
-- What is left of a number that no guard has found to be an integer.
use node_red_contrib_eelectr.Base.{
  ℕ, ◌≤◌, ◌<◌, ◌≡◌, refl, arith, Bool, true, false, not, ◌&&◌, ltb, leb, Result, ok, err, ◌>>=◌,
  conversion_error, Bool-cases, inl, inr,
}
use node_red_contrib_eelectr.Dpt.Codec.{pos, negsuc, fits_in}
use node_red_contrib_eelectr.Dpt.JsNumber.{
  JsNumber, whole, above, below, infinite, nan, whole_part, unless_outside,
}
use node_red_contrib_eelectr.Dpt.Lossless.Ranges.{in_range-fits, in_range_refuses}

-- An integer of a range.
abbrev pub is_in : ℕ → ℕ → JsNumber → Bool
is_in min max (whole v) = fits_in min max v
is_in min max _ = false

-- A number that is neither below the range nor above it.
abbrev pub passes : ℕ → ℕ → JsNumber → Bool
passes min max (whole v) = fits_in min max v
passes min max (above n) = leb min n && ltb n max
passes min max (below n) = false
passes min max (infinite negative) = false
passes min max nan = true

abbrev pub is_nan : JsNumber → Bool
is_nan nan = true
is_nan _ = false

-- The number without its fraction, and 0 for NaN.
abbrev pub cut : JsNumber → JsNumber
cut v = whole (pos (whole_part v))

pub passes-is_in : (min max : ℕ) (v : JsNumber) → is_in min max v ≡ true → passes min max v ≡ true
passes-is_in min max (whole v) h = h
passes-is_in min max (above n) h = absurd (ground arith)
passes-is_in min max (below n) h = absurd (ground arith)
passes-is_in min max (infinite negative) h = absurd (ground arith)
passes-is_in min max nan h = refl

pub cut-is_in : (min max : ℕ) (v : JsNumber) → is_in min max v ≡ true → cut v ≡ v
unfolding whole_part
cut-is_in min max (whole (pos n)) h = refl
cut-is_in min max (whole (negsuc n)) h = absurd (ground (arith, h))
cut-is_in min max (above n) h = absurd (ground (arith, h))
cut-is_in min max (below n) h = absurd (ground (arith, h))
cut-is_in min max (infinite negative) h = absurd (ground (arith, h))
cut-is_in min max nan h = absurd (ground (arith, h))

pub is_nan-is_in : (min max : ℕ) (v : JsNumber) → is_in min max v ≡ true → is_nan v ≡ false
is_nan-is_in min max (whole v) h = refl
is_nan-is_in min max (above n) h = refl
is_nan-is_in min max (below n) h = refl
is_nan-is_in min max (infinite negative) h = refl
is_nan-is_in min max nan h = absurd (ground (arith, h))

pub record Taken (min max : ℕ) (v : JsNumber) : Type 0 where
  pub n : ℕ
  pub is_n : whole_part v ≡ n
  pub taken : unless_outside min max v ≡ ok n
  pub high : n ≤ max
  pub low : 0 < min → leb min n ≡ not (is_nan v)

pub unless_outside-passes : (min max : ℕ) (v : JsNumber) → passes min max v ≡ true → Taken min max v
unfolding unless_outside whole_part
unless_outside-passes min max (whole (negsuc n)) h = absurd (ground (arith, h))
unless_outside-passes min max (whole (pos n)) h =
    let r = in_range-fits min max (pos n) h in
    record {
      n = n;
      is_n = refl;
      taken = rw r.taken (ground (arith, r.is_n));
      high = ground (arith, h);
      low = λ p. ground (arith, h);
    }
unless_outside-passes min max (above n) h = record {
  n = n;
  is_n = refl;
  taken = ground (arith, h);
  high = ground (arith, h);
  low = λ p. ground (arith, h);
}
unless_outside-passes min max (below n) h = absurd (ground (arith, h))
unless_outside-passes min max (infinite negative) h = absurd (ground (arith, h))
unless_outside-passes min max nan h = record {
  n = 0;
  is_n = refl;
  taken = refl;
  high = omega arith;
  low = λ p. ground (arith, p);
}

pub unless_outside_refuses :
    (min max : ℕ) (v : JsNumber)
    → passes min max v ≡ false
    → unless_outside min max v ≡ err conversion_error
unfolding unless_outside
unless_outside_refuses min max (whole v) h = in_range_refuses min max v h
unless_outside_refuses min max (above n) h = ground (arith, h)
unless_outside_refuses min max (below n) h = refl
unless_outside_refuses min max (infinite negative) h = refl
unless_outside_refuses min max nan h = absurd (ground (arith, h))

-- A chain of range tests of which one fails.
pub chain_refuses :
    {W : Type 0} (min max : ℕ) (v : JsNumber) (rest : ℕ → Result W) (others : Bool)
    → (passes min max v && others) ≡ false
    → ((n : ℕ) → others ≡ false → rest n ≡ err conversion_error)
    → (unless_outside min max v >>= rest) ≡ err conversion_error
chain_refuses min max v rest others h next = elim (Bool-cases (passes min max v)) [
  | inr a ↦ rw (unless_outside_refuses min max v a) refl
  | inl a ↦
      let r = unless_outside-passes min max v a in rw r.taken (next r.n (ground (arith, a, h)))
]
