-- ===== src/Dpt/Lossless/Channels.antt =====
-- The codecs of colours and of energy with a tariff.
use node_red_contrib_eelectr.Base.{
  ℕ, ◌<◌, ◌≡◌, refl, arith, Bool, true, false, not, ◌&&◌, ◌==◌, bit_and, Option, none, some, [],
  ◌∷◌, ok, err, conversion_error,
}
use native.Mathlib.Nat.{mod-eq_of_lt}
use node_red_contrib_eelectr.Core.Apci.{apci_npdu_length}
use node_red_contrib_eelectr.Dpt.Codec.{buffer_from, fits_in}
use node_red_contrib_eelectr.Dpt.Colours.{
  RgbColor, dpt232, six_bytes, bit_unless_false, Validity, validity_of, RgbwColor, dpt251,
}
use node_red_contrib_eelectr.Dpt.Lossless.{IsLossless, Sent}
use node_red_contrib_eelectr.Dpt.Lossless.Ranges.{in_range-fits, in_range_refuses, chain_refuses}
use node_red_contrib_eelectr.Dpt.Lossless.Clocks.{three_bytes_lem}

abbrev pub valid_colour : RgbColor → Bool
valid_colour v = fits_in 0 255 v.red && fits_in 0 255 v.green && fits_in 0 255 v.blue

dpt232-sends : (v : RgbColor) → valid_colour v ≡ true → Sent dpt232 v v
unfolding apci_npdu_length dpt232
dpt232-sends v h =
    let r = in_range-fits 0 255 v.red (ground (arith, h)) in
    let g = in_range-fits 0 255 v.green (ground (arith, h)) in
    let b = in_range-fits 0 255 v.blue (ground (arith, h)) in
    record {
      apdu = buffer_from (r.n ∷ g.n ∷ b.n ∷ []);
      encoded = rw r.taken (rw g.taken (rw b.taken refl));
      carried = omega arith;
      short = omega arith;
      decoded =
          rw
            (three_bytes_lem r.n g.n b.n (omega (arith, r.high)) (omega (arith, g.high))
              (omega (arith, b.high)))
            (rw (← r.is_n) (rw (← g.is_n) (rw (← b.is_n) refl)));
    }

dpt232-refuses : (v : RgbColor) → valid_colour v ≡ false → dpt232.encode v ≡ err conversion_error
unfolding dpt232
dpt232-refuses v h =
    let blue = fits_in 0 255 v.blue in
    let green = fits_in 0 255 v.green && blue in
    chain_refuses 0 255 v.red _ green (ground (arith, h)) λ _ h1.
      chain_refuses 0 255 v.green _ blue h1 λ _ h2. rw (in_range_refuses 0 255 v.blue h2) refl

pub dpt232-IsLossless : IsLossless dpt232 valid_colour (λ v. v)
dpt232-IsLossless = record { sends = dpt232-sends; refuses = dpt232-refuses }

abbrev pub valid_rgbw : RgbwColor → Bool
valid_rgbw v =
    fits_in 0 255 v.red && fits_in 0 255 v.green && fits_in 0 255 v.blue && fits_in 0 255 v.white

abbrev pub unless_false : Option Bool → Bool
unless_false (some b) = b
unless_false none = true

-- A channel is valid unless it is said not to be.
abbrev pub with_validity : RgbwColor → RgbwColor
with_validity v =
    let val = validity_of v.validity in
    record v {
      validity = some (record {
        red = some (unless_false val.red);
        green = some (unless_false val.green);
        blue = some (unless_false val.blue);
        white = some (unless_false val.white);
      });
    }

pub unless_lem :
    (o : Option Bool) (bit flags : ℕ)
    → bit_unless_false o bit flags ≡ bit_unless_false (some (unless_false o)) bit flags
unfolding bit_unless_false
unless_lem none bit flags = refl
unless_lem (some true) bit flags = refl
unless_lem (some false) bit flags = refl

abbrev channel_byte : Bool → Bool → Bool → Bool → ℕ
channel_byte a b c d =
    bit_unless_false (some d) 1
      (bit_unless_false (some c) 2 (bit_unless_false (some b) 4 (bit_unless_false (some a) 8 0)))

record ReadChannels (a b c d : Bool) : Type 0 where
  pub bounded : channel_byte a b c d < 256
  pub first : not (bit_and (channel_byte a b c d) 8 == 0) ≡ a
  pub second : not (bit_and (channel_byte a b c d) 4 == 0) ≡ b
  pub third : not (bit_and (channel_byte a b c d) 2 == 0) ≡ c
  pub fourth : not (bit_and (channel_byte a b c d) 1 == 0) ≡ d

channel_bits : (a b c d : Bool) → ReadChannels a b c d
unfolding bit_unless_false
channel_bits true true true true = record {
  bounded = omega arith;
  first = refl;
  second = refl;
  third = refl;
  fourth = refl;
}
channel_bits true true true false = record {
  bounded = omega arith;
  first = refl;
  second = refl;
  third = refl;
  fourth = refl;
}
channel_bits true true false true = record {
  bounded = omega arith;
  first = refl;
  second = refl;
  third = refl;
  fourth = refl;
}
channel_bits true true false false = record {
  bounded = omega arith;
  first = refl;
  second = refl;
  third = refl;
  fourth = refl;
}
channel_bits true false true true = record {
  bounded = omega arith;
  first = refl;
  second = refl;
  third = refl;
  fourth = refl;
}
channel_bits true false true false = record {
  bounded = omega arith;
  first = refl;
  second = refl;
  third = refl;
  fourth = refl;
}
channel_bits true false false true = record {
  bounded = omega arith;
  first = refl;
  second = refl;
  third = refl;
  fourth = refl;
}
channel_bits true false false false = record {
  bounded = omega arith;
  first = refl;
  second = refl;
  third = refl;
  fourth = refl;
}
channel_bits false true true true = record {
  bounded = omega arith;
  first = refl;
  second = refl;
  third = refl;
  fourth = refl;
}
channel_bits false true true false = record {
  bounded = omega arith;
  first = refl;
  second = refl;
  third = refl;
  fourth = refl;
}
channel_bits false true false true = record {
  bounded = omega arith;
  first = refl;
  second = refl;
  third = refl;
  fourth = refl;
}
channel_bits false true false false = record {
  bounded = omega arith;
  first = refl;
  second = refl;
  third = refl;
  fourth = refl;
}
channel_bits false false true true = record {
  bounded = omega arith;
  first = refl;
  second = refl;
  third = refl;
  fourth = refl;
}
channel_bits false false true false = record {
  bounded = omega arith;
  first = refl;
  second = refl;
  third = refl;
  fourth = refl;
}
channel_bits false false false true = record {
  bounded = omega arith;
  first = refl;
  second = refl;
  third = refl;
  fourth = refl;
}
channel_bits false false false false = record {
  bounded = omega arith;
  first = refl;
  second = refl;
  third = refl;
  fourth = refl;
}

channels_lem :
    (val : Validity)
    → bit_unless_false val.white 1
        (bit_unless_false val.blue 2 (bit_unless_false val.green 4 (bit_unless_false val.red 8 0)))
      ≡ channel_byte
          (unless_false val.red)
          (unless_false val.green)
          (unless_false val.blue)
          (unless_false val.white)
channels_lem val = rw (unless_lem val.red 8 0) (
    rw (unless_lem val.green 4 (bit_unless_false (some (unless_false val.red)) 8 0)) (
      rw
        (unless_lem val.blue 2 (
          bit_unless_false (some (unless_false val.green)) 4
            (bit_unless_false (some (unless_false val.red)) 8 0)))
        (unless_lem val.white 1 (
          bit_unless_false (some (unless_false val.blue)) 2 (
            bit_unless_false (some (unless_false val.green)) 4
              (bit_unless_false (some (unless_false val.red)) 8 0))))))

six_bytes_lem :
    (a b c d e f : ℕ)
    → a < 256
    → b < 256
    → c < 256
    → d < 256
    → e < 256
    → f < 256
    → six_bytes (buffer_from (a ∷ b ∷ c ∷ d ∷ e ∷ f ∷ [])) ≡ ok (a ∷ b ∷ c ∷ d ∷ e ∷ f ∷ [])
unfolding six_bytes
six_bytes_lem a b c d e f ha hb hc hd he hf = rw (mod-eq_of_lt ha) (
    rw (mod-eq_of_lt hb) (
      rw (mod-eq_of_lt hc)
        (rw (mod-eq_of_lt hd) (rw (mod-eq_of_lt he) (rw (mod-eq_of_lt hf) refl)))))

dpt251-sends : (v : RgbwColor) → valid_rgbw v ≡ true → Sent dpt251 v (with_validity v)
unfolding apci_npdu_length dpt251
dpt251-sends v h =
    let r = in_range-fits 0 255 v.red (ground (arith, h)) in
    let g = in_range-fits 0 255 v.green (ground (arith, h)) in
    let b = in_range-fits 0 255 v.blue (ground (arith, h)) in
    let w = in_range-fits 0 255 v.white (ground (arith, h)) in
    let val = validity_of v.validity in
    let x =
      channel_byte (unless_false val.red) (unless_false val.green) (unless_false val.blue)
        (unless_false val.white) in
    let bits =
      channel_bits (unless_false val.red) (unless_false val.green) (unless_false val.blue)
        (unless_false val.white) in
    record {
      apdu = buffer_from (r.n ∷ g.n ∷ b.n ∷ w.n ∷ 0 ∷ x ∷ []);
      encoded = rw r.taken (rw g.taken (rw b.taken (rw w.taken (rw (channels_lem val) refl))));
      carried = omega arith;
      short = omega arith;
      decoded =
          rw
            (six_bytes_lem r.n g.n b.n w.n 0 x (omega (arith, r.high)) (omega (arith, g.high))
              (omega (arith, b.high)) (omega (arith, w.high)) (omega arith) bits.bounded)
            (rw (← r.is_n) (
              rw (← g.is_n) (
                rw (← b.is_n) (
                  rw (← w.is_n)
                    (rw bits.first (rw bits.second (rw bits.third (rw bits.fourth refl))))))));
    }

dpt251-refuses : (v : RgbwColor) → valid_rgbw v ≡ false → dpt251.encode v ≡ err conversion_error
unfolding dpt251
dpt251-refuses v h =
    let white = fits_in 0 255 v.white in
    let blue = fits_in 0 255 v.blue && white in
    let green = fits_in 0 255 v.green && blue in
    chain_refuses 0 255 v.red _ green (ground (arith, h)) λ _ h1.
      chain_refuses 0 255 v.green _ blue h1 λ _ h2.
        chain_refuses 0 255 v.blue _ white h2 λ _ h3. rw (in_range_refuses 0 255 v.white h3) refl

pub dpt251-IsLossless : IsLossless dpt251 valid_rgbw with_validity
dpt251-IsLossless = record { sends = dpt251-sends; refuses = dpt251-refuses }
