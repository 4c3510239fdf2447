-- ===== src/Dpt/Lossless/Dates.antt =====
-- The codec of a date.
use node_red_contrib_eelectr.Base.{
  ℕ, ◌+◌, ◌-◌, ◌≤◌, ◌<◌, ◌≡◌, ◌∙◌, not, ◌||◌, Result, ltb, refl, arith, Bool, true, false, ◌&&◌,
  leb, if◌then◌else◌, [], ◌∷◌, ok, err, conversion_error, Bool-cases, inl, inr,
}
use node_red_contrib_eelectr.Base.Bits.{bit_and-mask}
use node_red_contrib_eelectr.Core.Apci.{apci_npdu_length}
use node_red_contrib_eelectr.Dpt.Codec.{pos, negsuc, buffer_from, fits_in}
use node_red_contrib_eelectr.Dpt.Times.{Dpt11Value, dpt11, short_year, year_short}
use node_red_contrib_eelectr.Dpt.Lossless.{IsCodec, Sent, Written}
use node_red_contrib_eelectr.Dpt.JsNumber.{JsNumber, whole, above, below, infinite, nan, whole_part}
use node_red_contrib_eelectr.Dpt.Lossless.Cut.{
  is_in, passes, is_nan, cut, passes-is_in, cut-is_in, is_nan-is_in, unless_outside-passes,
  chain_refuses,
}
use node_red_contrib_eelectr.Dpt.Lossless.Clocks.{three_bytes_lem}

abbrev pub valid_date : Dpt11Value → Bool
valid_date v = is_in 1 31 v.day && is_in 1 12 v.month && is_in 1990 2089 v.year

-- A year of which a fraction may be left, so that it is below 2090.
abbrev passes_year : JsNumber → Bool
passes_year (whole v) = fits_in 1990 2089 v
passes_year (above n) = leb 1990 n && ltb n 2090
passes_year (below n) = false
passes_year (infinite negative) = false
passes_year nan = false

abbrev pub accepts_date : Dpt11Value → Bool
accepts_date v = passes 1 31 v.day && passes 1 12 v.month && passes_year v.year

-- A date without its fractions; a day or a month of 0, which NaN leaves, is no date.
abbrev pub cut_date : Dpt11Value → Result Dpt11Value
cut_date v =
    if is_nan v.day || is_nan v.month
    then err conversion_error
    else ok (record { year = cut v.year; month = cut v.month; day = cut v.day })

record StoredYear (v : JsNumber) : Type 0 where
  pub n : ℕ
  pub taken : year_short v ≡ ok n
  pub small : n < 100
  pub back : (if leb 90 n then 1900 + n else 2000 + n) ≡ whole_part v

stored_short_year :
    (y : ℕ)
    → 1990 ≤ y
    → y < 2090
    → (n : ℕ) × (short_year y ≡ ok n) × (n < 100) × ((if leb 90 n then 1900 + n else 2000 + n) ≡ y)
unfolding short_year
stored_short_year y h k = elim (Bool-cases (leb 2000 y)) [
  | inl a ↦ (y - 2000, ground (arith, a, h, k), ground (arith, a, h, k), ground (arith, a, h, k))
  | inr a ↦ (y - 1900, ground (arith, a, h, k), ground (arith, a, h, k), ground (arith, a, h, k))
]

year-passes : (v : JsNumber) → passes_year v ≡ true → StoredYear v
unfolding year_short whole_part
year-passes (whole (negsuc n)) h = absurd (ground (arith, h))
year-passes (whole (pos y)) h =
    let (n, taken, small, back) = stored_short_year y (ground (arith, h)) (ground (arith, h)) in
    record { n = n; taken = taken; small = small; back = back }
year-passes (above y) h =
    let (n, taken, small, back) = stored_short_year y (ground (arith, h)) (ground (arith, h)) in
    record { n = n; taken = taken; small = small; back = back }
year-passes (below n) h = absurd (ground (arith, h))
year-passes (infinite negative) h = absurd (ground (arith, h))
year-passes nan h = absurd (ground (arith, h))

year_refuses : (v : JsNumber) → passes_year v ≡ false → year_short v ≡ err conversion_error
unfolding year_short short_year
year_refuses (whole (negsuc n)) h = refl
year_refuses (whole (pos y)) h = ground (arith, h)
year_refuses (above y) h = ground (arith, h)
year_refuses (below n) h = refl
year_refuses (infinite negative) h = refl
year_refuses nan h = refl

date_decoded :
    (a b c : ℕ)
    → a ≤ 31
    → b ≤ 12
    → c < 100
    → dpt11.decode (buffer_from (a ∷ b ∷ c ∷ [])) ≡ (
        if not (leb 1 a) || not (leb 1 b)
        then err conversion_error
        else ok (record {
          year = whole (pos (if leb 90 c then 1900 + c else 2000 + c));
          month = whole (pos b);
          day = whole (pos a);
        }))
unfolding dpt11
date_decoded a b c ha hb hc =
    rw (three_bytes_lem a b c (omega (arith, ha)) (omega (arith, hb)) (omega (arith, hc)))
      (ground (arith, bit_and-mask 5 a, bit_and-mask 4 b, bit_and-mask 7 c, ha, hb, hc))

either_nan :
    (a b : Bool) (r : Result Dpt11Value)
    → (if not (not a) || not (not b) then err conversion_error else r)
      ≡ (if a || b then err conversion_error else r)
either_nan true b r = refl
either_nan false true r = refl
either_nan false false r = refl

dpt11-takes : (v : Dpt11Value) → accepts_date v ≡ true → Written dpt11 v (cut_date v)
unfolding apci_npdu_length dpt11
dpt11-takes v h =
    let day = unless_outside-passes 1 31 v.day (ground (arith, h)) in
    let month = unless_outside-passes 1 12 v.month (ground (arith, h)) in
    let year = year-passes v.year (ground (arith, h)) in
    record {
      apdu = buffer_from (day.n ∷ month.n ∷ year.n ∷ []);
      encoded = rw day.taken (rw month.taken (rw year.taken refl));
      carried = omega arith;
      short = omega arith;
      decoded =
          date_decoded day.n month.n year.n day.high month.high year.small
          ∙ rw (day.low (omega arith)) (
              rw (month.low (omega arith)) (
                rw year.back (
                  rw (← day.is_n)
                    (rw (← month.is_n) (either_nan (is_nan v.day) (is_nan v.month) _)))));
    }

dpt11-refuses : (v : Dpt11Value) → accepts_date v ≡ false → dpt11.encode v ≡ err conversion_error
unfolding dpt11
dpt11-refuses v h =
    let year = passes_year v.year in
    let month = passes 1 12 v.month && year in
    chain_refuses 1 31 v.day _ month (ground (arith, h))
      λ _ h1. chain_refuses 1 12 v.month _ year h1 λ _ h2. rw (year_refuses v.year h2) refl

cut_date-valid : (v : Dpt11Value) → valid_date v ≡ true → cut_date v ≡ ok v
cut_date-valid v h = rw (cut-is_in 1 31 v.day (ground (arith, h))) (
    rw (cut-is_in 1 12 v.month (ground (arith, h))) (
      rw (cut-is_in 1990 2089 v.year (ground (arith, h))) (
        rw (is_nan-is_in 1 31 v.day (ground (arith, h)))
          (rw (is_nan-is_in 1 12 v.month (ground (arith, h))) refl))))

passes_year-valid : (v : JsNumber) → is_in 1990 2089 v ≡ true → passes_year v ≡ true
passes_year-valid (whole v) h = h
passes_year-valid (above n) h = absurd (ground (arith, h))
passes_year-valid (below n) h = absurd (ground (arith, h))
passes_year-valid (infinite negative) h = absurd (ground (arith, h))
passes_year-valid nan h = absurd (ground (arith, h))

accepts_date-valid : (v : Dpt11Value) → valid_date v ≡ true → accepts_date v ≡ true
accepts_date-valid v h = ground (
  arith,
  passes-is_in 1 31 v.day (ground (arith, h)),
  passes-is_in 1 12 v.month (ground (arith, h)),
  passes_year-valid v.year (ground (arith, h)),
)

dpt11-sends : (v : Dpt11Value) → valid_date v ≡ true → Sent dpt11 v v
dpt11-sends v h =
    let w = dpt11-takes v (accepts_date-valid v h) in
    record {
      apdu = w.apdu;
      encoded = w.encoded;
      carried = w.carried;
      short = w.short;
      decoded = w.decoded ∙ cut_date-valid v h;
    }

pub dpt11-IsCodec : IsCodec dpt11 valid_date accepts_date (λ v. v) cut_date
dpt11-IsCodec = record { sends = dpt11-sends; takes = dpt11-takes; refuses = dpt11-refuses }
