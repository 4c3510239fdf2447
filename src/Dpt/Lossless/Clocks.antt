-- ===== src/Dpt/Lossless/Clocks.antt =====
-- The codec of a time, and what the other codecs with days and hours use of it.
use node_red_contrib_eelectr.Base.{
  ℕ, ◌+◌, ◌*◌, ◌/◌, ◌<◌, ◌≡◌, refl, arith, Bool, true, false, ◌&&◌, bit_and, some, [], ◌∷◌, ok, err,
  conversion_error,
}
use node_red_contrib_eelectr.Base.Bits.{bit_and-mask, bit_and-shifted, bit_or-fields, bit_and-low}
use node_red_contrib_eelectr.Core.Apci.{apci_npdu_length}
use node_red_contrib_eelectr.Dpt.Codec.{buffer_from}
use node_red_contrib_eelectr.Dpt.Times.{
  KnxDay, no_day, monday, tuesday, wednesday, thursday, friday, saturday, sunday, day_index,
  day_name, day_or, three_bytes, Dpt10Value, dpt10,
}
use node_red_contrib_eelectr.Dpt.Lossless.{IsCodec, Sent, sent-Written}
use node_red_contrib_eelectr.Dpt.Lossless.Cut.{
  is_in, passes, cut, passes-is_in, cut-is_in, unless_outside-passes, unless_outside_refuses,
  chain_refuses,
}
use mathlib.Core.Path.{subst}

pub day_name-index : (d : KnxDay) → (day_name (day_index d) ≡ d) × (day_index d < 8)
unfolding day_name day_index
day_name-index no_day = (refl, omega arith)
day_name-index monday = (refl, omega arith)
day_name-index tuesday = (refl, omega arith)
day_name-index wednesday = (refl, omega arith)
day_name-index thursday = (refl, omega arith)
day_name-index friday = (refl, omega arith)
day_name-index saturday = (refl, omega arith)
day_name-index sunday = (refl, omega arith)

abbrev pub valid_time : Dpt10Value → Bool
valid_time v = is_in 0 23 v.hour && is_in 0 59 v.minutes && is_in 0 59 v.seconds

abbrev pub accepts_time : Dpt10Value → Bool
accepts_time v = passes 0 23 v.hour && passes 0 59 v.minutes && passes 0 59 v.seconds

-- A time without a day is read as one of no day.
abbrev pub with_day : Dpt10Value → Dpt10Value
with_day v = record v { day = some (day_or v.day) }

abbrev pub cut_time : Dpt10Value → Dpt10Value
cut_time v = record v { hour = cut v.hour; minutes = cut v.minutes; seconds = cut v.seconds }

pub three_bytes_lem :
    (a b c : ℕ)
    → a < 256
    → b < 256
    → c < 256
    → three_bytes (buffer_from (a ∷ b ∷ c ∷ [])) ≡ ok (a, b, c)
unfolding three_bytes
three_bytes_lem a b c ha hb hc = ground (arith, ha, hb, hc)

pub day_bits : (q n : ℕ) → q < 8 → n < 32 → bit_and (q * 32 + n) 0xe0 / 32 ≡ q
day_bits q n hq hn = ground (arith, bit_and-shifted 5 q n 7 hn, bit_and-mask 3 q, hq, hn)

dpt10-accepts : (v : Dpt10Value) → accepts_time v ≡ true → Sent dpt10 v (with_day (cut_time v))
unfolding apci_npdu_length dpt10
dpt10-accepts v h =
    let hour = unless_outside-passes 0 23 v.hour (ground (arith, h)) in
    let minutes = unless_outside-passes 0 59 v.minutes (ground (arith, h)) in
    let seconds = unless_outside-passes 0 59 v.seconds (ground (arith, h)) in
    let (named, small) = day_name-index (day_or v.day) in
    let q = day_index (day_or v.day) in
    record {
      apdu = buffer_from ((q * 32 + hour.n) ∷ minutes.n ∷ seconds.n ∷ []);
      encoded = rw hour.taken (
          rw minutes.taken
            (rw seconds.taken (rw (bit_or-fields 5 q hour.n (omega (arith, hour.high))) refl)));
      carried = omega arith;
      short = omega arith;
      decoded =
          rw
            (three_bytes_lem (q * 32 + hour.n) minutes.n seconds.n (omega (arith, small, hour.high))
              (omega (arith, minutes.high)) (omega (arith, seconds.high)))
            (ground (
              arith,
              bit_and-low 5 q hour.n (omega (arith, hour.high)),
              day_bits q hour.n small (omega (arith, hour.high)),
              named,
              bit_and-mask 6 minutes.n,
              bit_and-mask 6 seconds.n,
              hour.is_n,
              minutes.is_n,
              seconds.is_n,
              minutes.high,
              seconds.high,
            ));
    }

cut_time-valid : (v : Dpt10Value) → valid_time v ≡ true → cut_time v ≡ v
cut_time-valid v h = rw (cut-is_in 0 23 v.hour (ground (arith, h))) (
    rw (cut-is_in 0 59 v.minutes (ground (arith, h)))
      (rw (cut-is_in 0 59 v.seconds (ground (arith, h))) refl))

accepts_time-valid : (v : Dpt10Value) → valid_time v ≡ true → accepts_time v ≡ true
accepts_time-valid v h = ground (
  arith,
  passes-is_in 0 23 v.hour (ground (arith, h)),
  passes-is_in 0 59 v.minutes (ground (arith, h)),
  passes-is_in 0 59 v.seconds (ground (arith, h)),
)

dpt10-sends : (v : Dpt10Value) → valid_time v ≡ true → Sent dpt10 v (with_day v)
dpt10-sends v h =
    subst (λ w. Sent dpt10 v (with_day w)) (cut_time-valid v h)
      (dpt10-accepts v (accepts_time-valid v h))

dpt10-refuses : (v : Dpt10Value) → accepts_time v ≡ false → dpt10.encode v ≡ err conversion_error
unfolding dpt10
dpt10-refuses v h =
    let seconds = passes 0 59 v.seconds in
    let minutes = passes 0 59 v.minutes && seconds in
    chain_refuses 0 23 v.hour _ minutes (ground (arith, h)) λ _ h1.
      chain_refuses 0 59 v.minutes _ seconds h1
        λ _ h2. rw (unless_outside_refuses 0 59 v.seconds h2) refl

pub dpt10-IsCodec : IsCodec dpt10 valid_time accepts_time with_day (λ v. ok (with_day (cut_time v)))
dpt10-IsCodec = record {
  sends = dpt10-sends;
  takes = λ v h. sent-Written dpt10 v (with_day (cut_time v)) (dpt10-accepts v h);
  refuses = dpt10-refuses;
}
