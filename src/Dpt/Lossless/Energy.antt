-- ===== src/Dpt/Lossless/Energy.antt =====
-- The codec of an energy with a tariff.
use node_red_contrib_eelectr.Base.{
  ℕ, ◌≡◌, refl, arith, Bool, true, false, not, ◌&&◌, ◌==◌, bit_and, Option, some, [], ◌∷◌, ◌++◌, ok,
  err, read_u32, u32_be, conversion_error, Bool-cases, inl, inr,
}
use node_red_contrib_eelectr.Core.Apci.{apci_npdu_length, bytes}
use node_red_contrib_eelectr.Dpt.Codec.{fits_in, fits_signed}
use node_red_contrib_eelectr.Dpt.Colours.{six_bytes, bit_unless_false, Dpt235Value, dpt235}
use node_red_contrib_eelectr.Dpt.Lossless.{IsLossless, Sent}
use node_red_contrib_eelectr.Dpt.Lossless.Ranges.{
  in_range-fits, in_range_refuses, to_signed-fits, to_signed_refuses,
}
use node_red_contrib_eelectr.Dpt.Lossless.Channels.{unless_false, unless_lem}

abbrev pub valid_energy : Dpt235Value → Bool
valid_energy v = fits_signed 0x80000000 v.energy && fits_in 0 254 v.tariff

abbrev pub with_flags : Dpt235Value → Dpt235Value
with_flags v = record v {
  energy_valid = some (unless_false v.energy_valid);
  tariff_valid = some (unless_false v.tariff_valid);
}

abbrev validity_byte : Bool → Bool → ℕ
validity_byte a b = bit_unless_false (some b) 2 (bit_unless_false (some a) 1 0)

validity_bits :
    (a b : Bool)
    → (not (bit_and (validity_byte a b) 1 == 0) ≡ a)
      × (not (bit_and (validity_byte a b) 2 == 0) ≡ b)
unfolding bit_unless_false
validity_bits true true = (refl, refl)
validity_bits true false = (refl, refl)
validity_bits false true = (refl, refl)
validity_bits false false = (refl, refl)

validity_lem :
    (a b : Option Bool)
    → bit_unless_false b 2 (bit_unless_false a 1 0)
      ≡ validity_byte (unless_false a) (unless_false b)
validity_lem a b =
    rw (unless_lem a 1 0) (unless_lem b 2 (bit_unless_false (some (unless_false a)) 1 0))

six_bytes_energy :
    (n t x : ℕ) → six_bytes (bytes (u32_be n ++ (t ∷ x ∷ []))) ≡ ok (u32_be n ++ (t ∷ x ∷ []))
unfolding six_bytes
six_bytes_energy n t x = refl

energy_back : (n t x : ℕ) → read_u32 (u32_be n ++ (t ∷ x ∷ [])) 0 ≡ n
energy_back n t x = omega arith

dpt235-sends : (v : Dpt235Value) → valid_energy v ≡ true → Sent dpt235 v (with_flags v)
unfolding apci_npdu_length dpt235
dpt235-sends v h =
    let e = to_signed-fits 0x80000000 v.energy (ground (arith, h)) in
    let t = in_range-fits 0 254 v.tariff (ground (arith, h)) in
    let x = validity_byte (unless_false v.energy_valid) (unless_false v.tariff_valid) in
    let (energy_bit, tariff_bit) =
      validity_bits (unless_false v.energy_valid) (unless_false v.tariff_valid) in
    record {
      apdu = bytes (u32_be e.n ++ (t.n ∷ x ∷ []));
      encoded = rw e.taken (rw t.taken (rw (validity_lem v.energy_valid v.tariff_valid) refl));
      carried = omega arith;
      short = omega arith;
      decoded = rw (six_bytes_energy e.n t.n x) (
          rw (energy_back e.n t.n x)
            (rw e.back (rw (← t.is_n) (rw energy_bit (rw tariff_bit refl)))));
    }

dpt235-refuses : (v : Dpt235Value) → valid_energy v ≡ false → dpt235.encode v ≡ err conversion_error
unfolding dpt235
dpt235-refuses v h = elim (Bool-cases (fits_signed 0x80000000 v.energy)) [
  | inr a ↦ rw (to_signed_refuses 0x80000000 v.energy (omega arith) a) refl
  | inl a ↦
      rw (to_signed-fits 0x80000000 v.energy a).taken
        (rw (in_range_refuses 0 254 v.tariff (ground (arith, a, h))) refl)
]

pub dpt235-IsLossless : IsLossless dpt235 valid_energy with_flags
dpt235-IsLossless = record { sends = dpt235-sends; refuses = dpt235-refuses }
