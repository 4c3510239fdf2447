-- ===== src/Dpt/Lossless/ClockFlags.antt =====
-- The flags and the quality of a date with a time.
use node_red_contrib_eelectr.Base.{
  ℕ, ◌<◌, ◌≡◌, refl, arith, Bool, true, false, not, ◌==◌, if◌then◌else◌, bit_and, Option, none,
  some,
}
use node_red_contrib_eelectr.Dpt.Times.{
  ClockQuality, synchronised, unsynchronised, bit_if, quality_byte, Dpt19Value,
}

abbrev pub truthy : Option Bool → Bool
truthy (some b) = b
truthy none = false

abbrev pub quality_or : Option ClockQuality → ClockQuality
quality_or (some q) = q
quality_or none = synchronised

bit_if_lem :
    (o : Option Bool) (bit flags : ℕ) → bit_if o bit flags ≡ bit_if (some (truthy o)) bit flags
unfolding bit_if
bit_if_lem none bit flags = refl
bit_if_lem (some true) bit flags = refl
bit_if_lem (some false) bit flags = refl

abbrev pub flag_byte : Bool → Bool → Bool → Bool → ℕ
flag_byte a b c d =
    bit_if (some d) 0x01 (bit_if (some c) 0x20 (bit_if (some b) 0x40 (bit_if (some a) 0x80 0)))

pub record ReadFlags (a b c d : Bool) : Type 0 where
  pub bounded : flag_byte a b c d < 256
  pub first : not (bit_and (flag_byte a b c d) 0x80 == 0) ≡ a
  pub second : not (bit_and (flag_byte a b c d) 0x40 == 0) ≡ b
  pub third : not (bit_and (flag_byte a b c d) 0x20 == 0) ≡ c
  pub fourth : not (bit_and (flag_byte a b c d) 0x01 == 0) ≡ d

pub flags_of : (a b c d : Bool) → ReadFlags a b c d
unfolding bit_if
flags_of true true true true = record {
  bounded = omega arith;
  first = refl;
  second = refl;
  third = refl;
  fourth = refl;
}
flags_of true true true false = record {
  bounded = omega arith;
  first = refl;
  second = refl;
  third = refl;
  fourth = refl;
}
flags_of true true false true = record {
  bounded = omega arith;
  first = refl;
  second = refl;
  third = refl;
  fourth = refl;
}
flags_of true true false false = record {
  bounded = omega arith;
  first = refl;
  second = refl;
  third = refl;
  fourth = refl;
}
flags_of true false true true = record {
  bounded = omega arith;
  first = refl;
  second = refl;
  third = refl;
  fourth = refl;
}
flags_of true false true false = record {
  bounded = omega arith;
  first = refl;
  second = refl;
  third = refl;
  fourth = refl;
}
flags_of true false false true = record {
  bounded = omega arith;
  first = refl;
  second = refl;
  third = refl;
  fourth = refl;
}
flags_of true false false false = record {
  bounded = omega arith;
  first = refl;
  second = refl;
  third = refl;
  fourth = refl;
}
flags_of false true true true = record {
  bounded = omega arith;
  first = refl;
  second = refl;
  third = refl;
  fourth = refl;
}
flags_of false true true false = record {
  bounded = omega arith;
  first = refl;
  second = refl;
  third = refl;
  fourth = refl;
}
flags_of false true false true = record {
  bounded = omega arith;
  first = refl;
  second = refl;
  third = refl;
  fourth = refl;
}
flags_of false true false false = record {
  bounded = omega arith;
  first = refl;
  second = refl;
  third = refl;
  fourth = refl;
}
flags_of false false true true = record {
  bounded = omega arith;
  first = refl;
  second = refl;
  third = refl;
  fourth = refl;
}
flags_of false false true false = record {
  bounded = omega arith;
  first = refl;
  second = refl;
  third = refl;
  fourth = refl;
}
flags_of false false false true = record {
  bounded = omega arith;
  first = refl;
  second = refl;
  third = refl;
  fourth = refl;
}
flags_of false false false false = record {
  bounded = omega arith;
  first = refl;
  second = refl;
  third = refl;
  fourth = refl;
}

pub quality_byte_lem :
    (o : Option ClockQuality)
    → (quality_byte o < 256)
      × ((if not (bit_and (quality_byte o) 0x80 == 0) then unsynchronised else synchronised)
          ≡ quality_or o)
unfolding quality_byte
quality_byte_lem none = (omega arith, refl)
quality_byte_lem (some synchronised) = (omega arith, refl)
quality_byte_lem (some unsynchronised) = (omega arith, refl)

pub flags_lem :
    (v : Dpt19Value)
    → bit_if v.summer_time 0x01
        (bit_if v.working_day_valid 0x20 (bit_if v.working_day 0x40 (bit_if v.fault 0x80 0)))
      ≡ flag_byte
          (truthy v.fault)
          (truthy v.working_day)
          (truthy v.working_day_valid)
          (truthy v.summer_time)
flags_lem v = rw (bit_if_lem v.fault 0x80 0) (
    rw (bit_if_lem v.working_day 0x40 (bit_if (some (truthy v.fault)) 0x80 0)) (
      rw
        (bit_if_lem v.working_day_valid 0x20
          (bit_if (some (truthy v.working_day)) 0x40 (bit_if (some (truthy v.fault)) 0x80 0)))
        (bit_if_lem v.summer_time 0x01 (
          bit_if (some (truthy v.working_day_valid)) 0x20
            (bit_if (some (truthy v.working_day)) 0x40 (bit_if (some (truthy v.fault)) 0x80 0))))))
