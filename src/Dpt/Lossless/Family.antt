-- ===== src/Dpt/Lossless/Family.antt =====
-- All codecs together.
use node_red_contrib_eelectr.Base.{
  ◌≡◌, Bool, true, false, Result, ok, err, conversion_error, Bool-cases, ◌⊎◌, inl, inr,
}
use node_red_contrib_eelectr.Dpt.Codec.{ℤ, DptCodec, fits_in, fits_signed}
use node_red_contrib_eelectr.Dpt.Numbers.{dpt5, dpt6, dpt7, dpt8, dpt12, dpt13, dpt20}
use node_red_contrib_eelectr.Dpt.Flags.{
  dpt1, Dpt2Value, dpt2, Dpt3Value, dpt3, dpt17, Dpt18Value, dpt18, SceneInfo, dpt26,
}
use node_red_contrib_eelectr.Dpt.Times.{Dpt10Value, dpt10, Dpt11Value, dpt11, Dpt19Value, dpt19}
use node_red_contrib_eelectr.Dpt.Lossless.{IsCodec, Sent, Written, lossless-IsCodec}
use node_red_contrib_eelectr.Dpt.Lossless.Integers.{
  dpt5-IsLossless, dpt6-IsLossless, dpt7-IsLossless, dpt8-IsLossless, dpt12-IsLossless,
  dpt13-IsLossless, dpt20-IsLossless,
}
use node_red_contrib_eelectr.Dpt.Lossless.Bits.{
  dpt1-IsLossless, dpt2-IsLossless, dpt3-IsLossless, dpt17-IsLossless, dpt18-IsLossless,
  dpt26-IsLossless,
}
use node_red_contrib_eelectr.Dpt.Lossless.Clocks.{
  valid_time, accepts_time, cut_time, with_day, dpt10-IsCodec,
}
use node_red_contrib_eelectr.Dpt.Lossless.Dates.{valid_date, accepts_date, cut_date, dpt11-IsCodec}
use node_red_contrib_eelectr.Dpt.Lossless.Datetimes.{
  valid_datetime, accepts_datetime, cut_datetime, filled_in, dpt19-IsCodec,
}
use node_red_contrib_eelectr.Dpt.Colours.{RgbColor, dpt232, RgbwColor, dpt251, Dpt235Value, dpt235}
use node_red_contrib_eelectr.Dpt.Lossless.Channels.{
  valid_colour, dpt232-IsLossless, valid_rgbw, with_validity, dpt251-IsLossless,
}
use node_red_contrib_eelectr.Dpt.Lossless.Energy.{valid_energy, with_flags, dpt235-IsLossless}

-- The main numbers of the datapoint types.
pub data Main : Type 0 where
  main_1 main_2 main_3 main_5 main_6 main_7 main_8 main_10 main_11 main_12 main_13 main_17 main_18
        main_19 main_20 main_26 main_232 main_235 main_251 :
      Main

abbrev pub Value : Main → Type 0
Value main_1 = Bool
Value main_2 = Dpt2Value
Value main_3 = Dpt3Value
Value main_10 = Dpt10Value
Value main_11 = Dpt11Value
Value main_18 = Dpt18Value
Value main_19 = Dpt19Value
Value main_26 = SceneInfo
Value main_232 = RgbColor
Value main_235 = Dpt235Value
Value main_251 = RgbwColor
Value _ = ℤ

abbrev pub codec : (d : Main) → DptCodec (Value d)
codec main_1 = dpt1
codec main_2 = dpt2
codec main_3 = dpt3
codec main_5 = dpt5
codec main_6 = dpt6
codec main_7 = dpt7
codec main_8 = dpt8
codec main_10 = dpt10
codec main_11 = dpt11
codec main_12 = dpt12
codec main_13 = dpt13
codec main_17 = dpt17
codec main_18 = dpt18
codec main_19 = dpt19
codec main_20 = dpt20
codec main_26 = dpt26
codec main_232 = dpt232
codec main_235 = dpt235
codec main_251 = dpt251

-- The documented ranges.
abbrev pub valid : (d : Main) → Value d → Bool
valid main_1 v = true
valid main_2 v = true
valid main_3 v = fits_in 0 7 v.step_code
valid main_5 v = fits_in 0 255 v
valid main_6 v = fits_signed 128 v
valid main_7 v = fits_in 0 0xffff v
valid main_8 v = fits_signed 0x8000 v
valid main_10 v = valid_time v
valid main_11 v = valid_date v
valid main_12 v = fits_in 0 0xffffffff v
valid main_13 v = fits_signed 0x80000000 v
valid main_17 v = fits_in 0 63 v
valid main_18 v = fits_in 0 63 v.scene_number
valid main_19 v = valid_datetime v
valid main_20 v = fits_in 0 255 v
valid main_26 v = fits_in 0 63 v.scene_number
valid main_232 v = valid_colour v
valid main_235 v = valid_energy v
valid main_251 v = valid_rgbw v

-- A value with what was left out.
abbrev pub complete : (d : Main) → Value d → Value d
complete main_10 v = with_day v
complete main_19 v = filled_in v
complete main_235 v = with_flags v
complete main_251 v = with_validity v
complete _ v = v

-- What a codec takes: the valid values, and for a time, a date or both also fractions within the range and NaN.
abbrev pub accepts : (d : Main) → Value d → Bool
accepts main_10 v = accepts_time v
accepts main_11 v = accepts_date v
accepts main_19 v = accepts_datetime v
accepts d v = valid d v

-- What a codec reads of what it took.
abbrev pub read_cut : (d : Main) → Value d → Result (Value d)
read_cut main_10 v = ok (with_day (cut_time v))
read_cut main_11 v = cut_date v
read_cut main_19 v = ok (filled_in (cut_datetime v))
read_cut d v = ok (complete d v)

pub codec-IsCodec : (d : Main) → IsCodec (codec d) (valid d) (accepts d) (complete d) (read_cut d)
codec-IsCodec main_1 = lossless-IsCodec _ _ _ dpt1-IsLossless
codec-IsCodec main_2 = lossless-IsCodec _ _ _ dpt2-IsLossless
codec-IsCodec main_3 = lossless-IsCodec _ _ _ dpt3-IsLossless
codec-IsCodec main_5 = lossless-IsCodec _ _ _ dpt5-IsLossless
codec-IsCodec main_6 = lossless-IsCodec _ _ _ dpt6-IsLossless
codec-IsCodec main_7 = lossless-IsCodec _ _ _ dpt7-IsLossless
codec-IsCodec main_8 = lossless-IsCodec _ _ _ dpt8-IsLossless
codec-IsCodec main_10 = dpt10-IsCodec
codec-IsCodec main_11 = dpt11-IsCodec
codec-IsCodec main_12 = lossless-IsCodec _ _ _ dpt12-IsLossless
codec-IsCodec main_13 = lossless-IsCodec _ _ _ dpt13-IsLossless
codec-IsCodec main_17 = lossless-IsCodec _ _ _ dpt17-IsLossless
codec-IsCodec main_18 = lossless-IsCodec _ _ _ dpt18-IsLossless
codec-IsCodec main_19 = dpt19-IsCodec
codec-IsCodec main_20 = lossless-IsCodec _ _ _ dpt20-IsLossless
codec-IsCodec main_26 = lossless-IsCodec _ _ _ dpt26-IsLossless
codec-IsCodec main_232 = lossless-IsCodec _ _ _ dpt232-IsLossless
codec-IsCodec main_235 = lossless-IsCodec _ _ _ dpt235-IsLossless
codec-IsCodec main_251 = lossless-IsCodec _ _ _ dpt251-IsLossless

-- A codec with a main number of 1, 2, 3, 5 (without a scale), 6, 7, 8, 10, 11, 12, 13, 17, 18, 19, 20, 26, 232, 235
-- or 251. A value whose numbers are integers in the documented ranges is written as a payload that a frame can carry,
-- and the same value is read back from it, with the default for each day, flag and quality that was left out. Every
-- other value is refused with a conversion error, with one exception: a time (10), a date (11) or both (19) whose
-- numbers are not all integers, but of which each is NaN or within its range (a year of a date is not NaN, and may lie
-- above 2089 and below 2090). It is written too, and read back without the fractions, and with 0 for NaN, or
-- with 1900 for a year of NaN; the date is an error to read if its day or its month was NaN. The numbers of the other
-- codecs are integers here.
pub decode-encode :
    (d : Main) (v : Value d)
    → ((valid d v ≡ true) × Sent (codec d) v (complete d v))
      ⊎ (((valid d v ≡ false) × (accepts d v ≡ true) × Written (codec d) v (read_cut d v))
          ⊎ ((valid d v ≡ false)
              × (accepts d v ≡ false)
              × ((codec d).encode v ≡ err conversion_error)))
decode-encode d v =
    let c = codec-IsCodec d in
    elim (Bool-cases (valid d v)) [
      | inl h ↦ inl (h, c.sends v h)
      | inr h ↦ inr (elim (Bool-cases (accepts d v)) [
        | inl a ↦ inl (h, a, c.takes v a)
        | inr a ↦ inr (h, a, c.refuses v a)
      ])
    ]
