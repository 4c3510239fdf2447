-- ===== src/Dpt/Lossless/Datetimes.antt =====
-- The codec of a date with a time.
use node_red_contrib_eelectr.Base.{
  ℕ, ◌+◌, ◌-◌, ◌*◌, ◌/◌, ◌^◌, ◌<◌, ◌≡◌, refl, sym, ap, ◌∙◌, arith, Bool, true, false, ◌&&◌, bit_and,
  bit_or, some, [], ◌∷◌, ok, err, conversion_error,
}
use node_red_contrib_eelectr.Base.Bits.{bit_and-mask, bit_or-fields, bit_and-low}
use native.Mathlib.Nat.{mod-eq_of_lt}
use node_red_contrib_eelectr.Core.Apci.{apci_npdu_length}
use node_red_contrib_eelectr.Dpt.Codec.{pos, negsuc, buffer_from}
use node_red_contrib_eelectr.Dpt.Times.{
  day_index, day_or, quality_byte, eight_bytes, Dpt19Value, dpt19,
}
use node_red_contrib_eelectr.Dpt.Lossless.{IsCodec, Sent, sent-Written}
use node_red_contrib_eelectr.Dpt.JsNumber.{JsNumber, whole, above, below, infinite, nan, whole_part}
use node_red_contrib_eelectr.Dpt.Lossless.Cut.{
  is_in, passes, cut, passes-is_in, cut-is_in, Taken, unless_outside-passes, unless_outside_refuses,
  chain_refuses,
}
use node_red_contrib_eelectr.Dpt.Lossless.ClockFlags.{
  truthy, quality_or, flag_byte, flags_of, quality_byte_lem, flags_lem,
}
use mathlib.Core.Path.{subst}
use node_red_contrib_eelectr.Dpt.Lossless.Clocks.{day_name-index}

abbrev pub valid_datetime : Dpt19Value → Bool
valid_datetime v =
    is_in 1900 2155 v.year
    && is_in 1 12 v.month
    && is_in 1 31 v.day
    && is_in 0 24 v.hour
    && is_in 0 59 v.minutes
    && is_in 0 59 v.seconds

abbrev pub accepts_datetime : Dpt19Value → Bool
accepts_datetime v =
    passes 1900 2155 v.year
    && passes 1 12 v.month
    && passes 1 31 v.day
    && passes 0 24 v.hour
    && passes 0 59 v.minutes
    && passes 0 59 v.seconds

-- What is left out is read as any day, as a flag that is not set and as a synchronised clock.
abbrev pub filled_in : Dpt19Value → Dpt19Value
filled_in v = record v {
  day_of_week = some (day_or v.day_of_week);
  fault = some (truthy v.fault);
  working_day = some (truthy v.working_day);
  working_day_valid = some (truthy v.working_day_valid);
  summer_time = some (truthy v.summer_time);
  clock_quality = some (quality_or v.clock_quality);
}

-- A year is cut after the base year is taken off, so that NaN becomes the base year.
abbrev pub cut_datetime : Dpt19Value → Dpt19Value
cut_datetime v = record v {
  year = whole (pos (1900 + (whole_part v.year - 1900)));
  month = cut v.month;
  day = cut v.day;
  hour = cut v.hour;
  minutes = cut v.minutes;
  seconds = cut v.seconds;
}

-- The masks of the encoder change nothing.
masked : (k n : ℕ) → n < 2 ^ k → bit_and n (2 ^ k - 1) ≡ n
masked k n h = bit_and-mask k n ∙ mod-eq_of_lt h

-- The day and the hour in one byte.
record DayHour (q n : ℕ) : Type 0 where
  pub joined : bit_or (bit_and q 7 * 32) (bit_and n 31) ≡ q * 32 + n
  pub day : bit_and ((q * 32 + n) / 32) 7 ≡ q
  pub hour : bit_and (q * 32 + n) 31 ≡ n

day_hour : (q n : ℕ) → q < 8 → n < 32 → DayHour q n
day_hour q n hq hn = record {
  joined = rw (masked 3 q hq) (rw (masked 5 n hn) (bit_or-fields 5 q n hn));
  day = ground (arith, bit_and-mask 3 ((q * 32 + n) / 32), hq, hn);
  hour = bit_and-low 5 q n hn;
}

eight_bytes_lem :
    (a b c d e f g h : ℕ)
    → a < 256
    → b < 256
    → c < 256
    → d < 256
    → e < 256
    → f < 256
    → g < 256
    → h < 256
    → eight_bytes (buffer_from (a ∷ b ∷ c ∷ d ∷ e ∷ f ∷ g ∷ h ∷ []))
      ≡ ok (a ∷ b ∷ c ∷ d ∷ e ∷ f ∷ g ∷ h ∷ [])
unfolding eight_bytes
eight_bytes_lem a b c d e f g h ha hb hc hd he hf hg hh = rw (mod-eq_of_lt ha) (
    rw (mod-eq_of_lt hb) (
      rw (mod-eq_of_lt hc) (
        rw (mod-eq_of_lt hd) (
          rw (mod-eq_of_lt he)
            (rw (mod-eq_of_lt hf) (rw (mod-eq_of_lt hg) (rw (mod-eq_of_lt hh) refl)))))))

-- The six numbers of a value that is accepted.
record Numbers (v : Dpt19Value) : Type 0 where
  pub year : Taken 1900 2155 v.year
  pub month : Taken 1 12 v.month
  pub day : Taken 1 31 v.day
  pub hour : Taken 0 24 v.hour
  pub minutes : Taken 0 59 v.minutes
  pub seconds : Taken 0 59 v.seconds

numbers : (v : Dpt19Value) → accepts_datetime v ≡ true → Numbers v
numbers v h = record {
  year = unless_outside-passes 1900 2155 v.year (ground (arith, h));
  month = unless_outside-passes 1 12 v.month (ground (arith, h));
  day = unless_outside-passes 1 31 v.day (ground (arith, h));
  hour = unless_outside-passes 0 24 v.hour (ground (arith, h));
  minutes = unless_outside-passes 0 59 v.minutes (ground (arith, h));
  seconds = unless_outside-passes 0 59 v.seconds (ground (arith, h));
}

year_back :
    (v : JsNumber) (y : Taken 1900 2155 v) → 1900 + (y.n - 1900) ≡ 1900 + (whole_part v - 1900)
year_back v y = rw y.is_n refl

kept :
    (k min max : ℕ) (v : JsNumber) (r : Taken min max v)
    → max < 2 ^ k
    → whole (pos (bit_and r.n (2 ^ k - 1))) ≡ cut v
kept k min max v r h =
    ap (λ n. whole (pos n)) (masked k r.n (omega (arith, r.high, h)) ∙ sym r.is_n)

sent_numbers : (v : Dpt19Value) → Numbers v → Sent dpt19 v (filled_in (cut_datetime v))
unfolding apci_npdu_length dpt19
sent_numbers v parts =
    let year = parts.year in
    let month = parts.month in
    let day = parts.day in
    let hour = parts.hour in
    let minutes = parts.minutes in
    let seconds = parts.seconds in
    let (named, small) = day_name-index (day_or v.day_of_week) in
    let q = day_index (day_or v.day_of_week) in
    let both = day_hour q hour.n small (omega (arith, hour.high)) in
    let flags =
      flags_of (truthy v.fault) (truthy v.working_day) (truthy v.working_day_valid)
        (truthy v.summer_time) in
    let x =
      flag_byte (truthy v.fault) (truthy v.working_day) (truthy v.working_day_valid)
        (truthy v.summer_time) in
    let (quality, clock) = quality_byte_lem v.clock_quality in
    record {
      apdu = buffer_from (
          (year.n - 1900)
          ∷ month.n
          ∷ day.n
          ∷ (q * 32 + hour.n)
          ∷ minutes.n
          ∷ seconds.n
          ∷ x
          ∷ quality_byte v.clock_quality
          ∷ []);
      encoded = rw year.taken (
          rw month.taken (
            rw day.taken (
              rw hour.taken (
                rw minutes.taken (
                  rw seconds.taken (
                    rw (masked 4 month.n (omega (arith, month.high))) (
                      rw (masked 5 day.n (omega (arith, day.high))) (
                        rw both.joined (
                          rw (masked 6 minutes.n (omega (arith, minutes.high))) (
                            rw (masked 6 seconds.n (omega (arith, seconds.high)))
                              (rw (flags_lem v) refl)))))))))));
      carried = omega arith;
      short = omega arith;
      decoded =
          rw
            (eight_bytes_lem (year.n - 1900) month.n day.n (q * 32 + hour.n) minutes.n seconds.n x
              (quality_byte v.clock_quality) (omega (arith, year.high)) (omega (arith, month.high))
              (omega (arith, day.high)) (omega (arith, small, hour.high))
              (omega (arith, minutes.high)) (omega (arith, seconds.high)) flags.bounded quality)
            (rw (year_back v.year year) (
              rw (kept 4 1 12 v.month month (omega arith)) (
                rw (kept 5 1 31 v.day day (omega arith)) (
                  rw both.day (
                    rw named (
                      rw both.hour (
                        rw (← hour.is_n) (
                          rw (kept 6 0 59 v.minutes minutes (omega arith)) (
                            rw (kept 6 0 59 v.seconds seconds (omega arith)) (
                              rw flags.first (
                                rw flags.second
                                  (rw flags.third (rw flags.fourth (rw clock refl))))))))))))));
    }

dpt19-accepts :
    (v : Dpt19Value) → accepts_datetime v ≡ true → Sent dpt19 v (filled_in (cut_datetime v))
dpt19-accepts v h = sent_numbers v (numbers v h)

cut_year-is_in :
    (v : JsNumber) → is_in 1900 2155 v ≡ true → whole (pos (1900 + (whole_part v - 1900))) ≡ v
unfolding whole_part
cut_year-is_in (whole (pos n)) h = ground (arith, h)
cut_year-is_in (whole (negsuc n)) h = absurd (ground (arith, h))
cut_year-is_in (above n) h = absurd (ground (arith, h))
cut_year-is_in (below n) h = absurd (ground (arith, h))
cut_year-is_in (infinite negative) h = absurd (ground (arith, h))
cut_year-is_in nan h = absurd (ground (arith, h))

cut_datetime-valid : (v : Dpt19Value) → valid_datetime v ≡ true → cut_datetime v ≡ v
cut_datetime-valid v h = rw (cut_year-is_in v.year (ground (arith, h))) (
    rw (cut-is_in 1 12 v.month (ground (arith, h))) (
      rw (cut-is_in 1 31 v.day (ground (arith, h))) (
        rw (cut-is_in 0 24 v.hour (ground (arith, h))) (
          rw (cut-is_in 0 59 v.minutes (ground (arith, h)))
            (rw (cut-is_in 0 59 v.seconds (ground (arith, h))) refl)))))

accepts_datetime-valid : (v : Dpt19Value) → valid_datetime v ≡ true → accepts_datetime v ≡ true
accepts_datetime-valid v h = ground (
  arith,
  passes-is_in 1900 2155 v.year (ground (arith, h)),
  passes-is_in 1 12 v.month (ground (arith, h)),
  passes-is_in 1 31 v.day (ground (arith, h)),
  passes-is_in 0 24 v.hour (ground (arith, h)),
  passes-is_in 0 59 v.minutes (ground (arith, h)),
  passes-is_in 0 59 v.seconds (ground (arith, h)),
)

dpt19-sends : (v : Dpt19Value) → valid_datetime v ≡ true → Sent dpt19 v (filled_in v)
dpt19-sends v h =
    subst (λ w. Sent dpt19 v (filled_in w)) (cut_datetime-valid v h)
      (dpt19-accepts v (accepts_datetime-valid v h))

dpt19-refuses :
    (v : Dpt19Value) → accepts_datetime v ≡ false → dpt19.encode v ≡ err conversion_error
unfolding dpt19
dpt19-refuses v h =
    let seconds = passes 0 59 v.seconds in
    let minutes = passes 0 59 v.minutes && seconds in
    let hour = passes 0 24 v.hour && minutes in
    let day = passes 1 31 v.day && hour in
    let month = passes 1 12 v.month && day in
    chain_refuses 1900 2155 v.year _ month (ground (arith, h)) λ _ h1.
      chain_refuses 1 12 v.month _ day h1 λ _ h2. chain_refuses 1 31 v.day _ hour h2 λ _ h3.
        chain_refuses 0 24 v.hour _ minutes h3 λ _ h4.
          chain_refuses 0 59 v.minutes _ seconds h4
            λ _ h5. rw (unless_outside_refuses 0 59 v.seconds h5) refl

pub dpt19-IsCodec :
    IsCodec dpt19 valid_datetime accepts_datetime filled_in (λ v. ok (filled_in (cut_datetime v)))
dpt19-IsCodec = record {
  sends = dpt19-sends;
  takes = λ v h. sent-Written dpt19 v (filled_in (cut_datetime v)) (dpt19-accepts v h);
  refuses = dpt19-refuses;
}
