-- ===== src/Dpt/Times.antt =====
-- src/dpt/dpt10.ts, dpt11.ts and dpt19.ts.
use node_red_contrib_eelectr.Base.{
  ℕ, ◌+◌, ◌-◌, Bool, true, false, not, ◌||◌, ◌==◌, ltb, leb, ◌&&◌, if◌then◌else◌, bit_and, bit_or,
  Option, none, some, [], ◌∷◌, Bytes, length, byte_at, Result, ok, err, ◌>>=◌, ◌>>◌, throw_if,
  conversion_error,
}
use node_red_contrib_eelectr.Base.Bits.{shl, shr}
use node_red_contrib_eelectr.Core.Apci.{ApduValue, small, bytes}
use node_red_contrib_eelectr.Dpt.Codec.{pos, negsuc, DptCodec, buffer_from}
use node_red_contrib_eelectr.Dpt.JsNumber.{
  JsNumber, whole, above, below, infinite, nan, unless_outside,
}

-- `no_day` is also what dpt19.ts calls 'any'.
pub data KnxDay : Type 0 where
  no_day monday tuesday wednesday thursday friday saturday sunday : KnxDay

unfoldable pub day_index : KnxDay → ℕ
day_index no_day = 0
day_index monday = 1
day_index tuesday = 2
day_index wednesday = 3
day_index thursday = 4
day_index friday = 5
day_index saturday = 6
day_index sunday = 7

unfoldable pub day_name : ℕ → KnxDay
day_name n =
    if n == 1
    then monday
    else if n == 2
    then tuesday
    else if n == 3
    then wednesday
    else if n == 4
    then thursday
    else if n == 5
    then friday
    else if n == 6
    then saturday
    else if n == 7
    then sunday
    else no_day

unfoldable pub day_or : Option KnxDay → KnxDay
day_or none = no_day
day_or (some d) = d

unfoldable pub three_bytes : ApduValue → Result (ℕ × ℕ × ℕ)
three_bytes (bytes (a ∷ b ∷ c ∷ [])) = ok (a, b, c)
three_bytes _ = err conversion_error

pub record Dpt10Value : Type 0 where
  pub hour : JsNumber
  pub minutes : JsNumber
  pub seconds : JsNumber
  pub day : Option KnxDay

unfoldable pub dpt10 : DptCodec Dpt10Value
dpt10 = record {
  decode = λ apdu. do
    (a, b, c) ← three_bytes apdu
    ok (record {
      hour = whole (pos (bit_and a 0x1f));
      minutes = whole (pos (bit_and b 0x3f));
      seconds = whole (pos (bit_and c 0x3f));
      day = some (day_name (shr (bit_and a 0xe0) 5));
    });
  encode = λ v. do
    hour ← unless_outside 0 23 v.hour
    minutes ← unless_outside 0 59 v.minutes
    seconds ← unless_outside 0 59 v.seconds
    ok (buffer_from (bit_or (shl (day_index (day_or v.day)) 5) hour ∷ minutes ∷ seconds ∷ []));
}

pub record Dpt11Value : Type 0 where
  pub year : JsNumber
  pub month : JsNumber
  pub day : JsNumber

unfoldable pub short_year : ℕ → Result ℕ
short_year year =
    if leb 2000 year && ltb year 2090
    then ok (year - 2000)
    else if leb 1990 year && ltb year 2000
    then ok (year - 1900)
    else err conversion_error

-- The tests of the year come out the same for a fraction and its integer part, and the byte takes the latter.
unfoldable pub year_short : JsNumber → Result ℕ
year_short (whole (pos year)) = short_year year
year_short (whole (negsuc n)) = err conversion_error
year_short (above year) = short_year year
year_short (below n) = err conversion_error
year_short (infinite negative) = err conversion_error
year_short nan = err conversion_error

unfoldable pub dpt11 : DptCodec Dpt11Value
dpt11 = record {
  decode = λ apdu. do
    (a, b, c) ← three_bytes apdu
    let day = bit_and a 0x1f
    let month = bit_and b 0x0f
    let short = bit_and c 0x7f
    throw_if (ltb day 1 || ltb 31 day || ltb month 1 || ltb 12 month) conversion_error
    ok (record {
      year = whole (pos (if leb 90 short then 1900 + short else 2000 + short));
      month = whole (pos month);
      day = whole (pos day);
    });
  encode = λ v. do
    day ← unless_outside 1 31 v.day
    month ← unless_outside 1 12 v.month
    short ← year_short v.year
    ok (buffer_from (day ∷ month ∷ short ∷ []));
}

pub data ClockQuality : Type 0 where
  synchronised unsynchronised : ClockQuality

pub record Dpt19Value : Type 0 where
  pub year : JsNumber
  pub month : JsNumber
  pub day : JsNumber
  pub hour : JsNumber
  pub minutes : JsNumber
  pub seconds : JsNumber
  pub day_of_week : Option KnxDay
  pub fault : Option Bool
  pub working_day : Option Bool
  pub working_day_valid : Option Bool
  pub summer_time : Option Bool
  pub clock_quality : Option ClockQuality

-- A truthy flag sets its bit.
unfoldable pub bit_if : Option Bool → ℕ → ℕ → ℕ
bit_if (some true) bit flags = bit_or flags bit
bit_if (some false) bit flags = flags
bit_if none bit flags = flags

unfoldable pub quality_byte : Option ClockQuality → ℕ
quality_byte (some unsynchronised) = 0x80
quality_byte (some synchronised) = 0
quality_byte none = 0

unfoldable pub eight_bytes : ApduValue → Result Bytes
eight_bytes (small v) = err conversion_error
eight_bytes (bytes b) = do throw_if (not (length b == 8)) conversion_error; ok b

unfoldable pub dpt19 : DptCodec Dpt19Value
dpt19 = record {
  decode = λ apdu. do
    b ← eight_bytes apdu
    ok (record {
      year = whole (pos (1900 + byte_at b 0));
      month = whole (pos (bit_and (byte_at b 1) 0x0f));
      day = whole (pos (bit_and (byte_at b 2) 0x1f));
      hour = whole (pos (bit_and (byte_at b 3) 0x1f));
      minutes = whole (pos (bit_and (byte_at b 4) 0x3f));
      seconds = whole (pos (bit_and (byte_at b 5) 0x3f));
      day_of_week = some (day_name (bit_and (shr (byte_at b 3) 5) 7));
      fault = some (not (bit_and (byte_at b 6) 0x80 == 0));
      working_day = some (not (bit_and (byte_at b 6) 0x40 == 0));
      working_day_valid = some (not (bit_and (byte_at b 6) 0x20 == 0));
      summer_time = some (not (bit_and (byte_at b 6) 0x01 == 0));
      clock_quality =
          some (if not (bit_and (byte_at b 7) 0x80 == 0) then unsynchronised else synchronised);
    });
  encode = λ v. do
    year ← unless_outside 1900 2155 v.year
    month ← unless_outside 1 12 v.month
    day ← unless_outside 1 31 v.day
    hour ← unless_outside 0 24 v.hour
    minutes ← unless_outside 0 59 v.minutes
    seconds ← unless_outside 0 59 v.seconds
    let dow = day_index (day_or v.day_of_week)
    let flags =
        bit_if v.summer_time 0x01
          (bit_if v.working_day_valid 0x20 (bit_if v.working_day 0x40 (bit_if v.fault 0x80 0)))
    -- Of NaN, the byte takes 0 here too.
    ok (
        buffer_from (
          (year - 1900)
          ∷ bit_and month 0x0f
          ∷ bit_and day 0x1f
          ∷ bit_or (shl (bit_and dow 7) 5) (bit_and hour 0x1f)
          ∷ bit_and minutes 0x3f
          ∷ bit_and seconds 0x3f
          ∷ flags
          ∷ quality_byte v.clock_quality
          ∷ []));
}
