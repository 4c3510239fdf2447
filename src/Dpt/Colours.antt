-- ===== src/Dpt/Colours.antt =====
-- src/dpt/dpt232.ts, dpt235.ts and dpt251.ts: values of several bytes.
use node_red_contrib_eelectr.Base.{
  ℕ, Bool, true, false, not, ◌==◌, bit_and, bit_or, Option, none, some, [], ◌∷◌, ◌++◌, Bytes,
  length, byte_at, read_u32, u32_be, Result, ok, err, ◌>>=◌, ◌>>◌, throw_if, conversion_error,
}
use node_red_contrib_eelectr.Core.Apci.{ApduValue, small, bytes}
use node_red_contrib_eelectr.Dpt.Codec.{
  ℤ, pos, DptCodec, buffer_from, in_range, to_signed, from_signed,
}
use node_red_contrib_eelectr.Dpt.Times.{three_bytes}

pub record RgbColor : Type 0 where
  pub red : ℤ
  pub green : ℤ
  pub blue : ℤ

unfoldable pub dpt232 : DptCodec RgbColor
dpt232 = record {
  decode = λ apdu. do
    (r, g, b) ← three_bytes apdu
    ok (record { red = pos r; green = pos g; blue = pos b });
  encode = λ v. do
    r ← in_range 0 255 v.red
    g ← in_range 0 255 v.green
    b ← in_range 0 255 v.blue
    ok (buffer_from (r ∷ g ∷ b ∷ []));
}

unfoldable pub six_bytes : ApduValue → Result Bytes
six_bytes (small v) = err conversion_error
six_bytes (bytes b) = do throw_if (not (length b == 6)) conversion_error; ok b

-- `v !== false` sets the bit.
unfoldable pub bit_unless_false : Option Bool → ℕ → ℕ → ℕ
bit_unless_false (some false) bit flags = flags
bit_unless_false (some true) bit flags = bit_or flags bit
bit_unless_false none bit flags = bit_or flags bit

pub record Validity : Type 0 where
  pub red : Option Bool
  pub green : Option Bool
  pub blue : Option Bool
  pub white : Option Bool

pub record RgbwColor : Type 0 where
  pub red : ℤ
  pub green : ℤ
  pub blue : ℤ
  pub white : ℤ
  pub validity : Option Validity

abbrev all_valid : Validity
all_valid = record { red = none; green = none; blue = none; white = none }

-- Without `validity`, each of the four tests holds.
unfoldable pub validity_of : Option Validity → Validity
validity_of none = all_valid
validity_of (some val) = val

unfoldable pub dpt251 : DptCodec RgbwColor
dpt251 = record {
  decode = λ apdu. do
    b ← six_bytes apdu
    let flags = byte_at b 5
    ok (record {
      red = pos (byte_at b 0);
      green = pos (byte_at b 1);
      blue = pos (byte_at b 2);
      white = pos (byte_at b 3);
      validity = some (record {
        red = some (not (bit_and flags 8 == 0));
        green = some (not (bit_and flags 4 == 0));
        blue = some (not (bit_and flags 2 == 0));
        white = some (not (bit_and flags 1 == 0));
      });
    });
  encode = λ v. do
    r ← in_range 0 255 v.red
    g ← in_range 0 255 v.green
    b ← in_range 0 255 v.blue
    w ← in_range 0 255 v.white
    let val = validity_of v.validity
    let flags =
        bit_unless_false val.white 1 (
          bit_unless_false val.blue 2 (bit_unless_false val.green 4 (bit_unless_false val.red 8 0)))
    ok (buffer_from (r ∷ g ∷ b ∷ w ∷ 0 ∷ flags ∷ []));
}

pub record Dpt235Value : Type 0 where
  pub energy : ℤ
  pub tariff : ℤ
  pub energy_valid : Option Bool
  pub tariff_valid : Option Bool

unfoldable pub dpt235 : DptCodec Dpt235Value
dpt235 = record {
  decode = λ apdu. do
    b ← six_bytes apdu
    ok (record {
      energy = from_signed 0x80000000 (read_u32 b 0);
      tariff = pos (byte_at b 4);
      energy_valid = some (not (bit_and (byte_at b 5) 1 == 0));
      tariff_valid = some (not (bit_and (byte_at b 5) 2 == 0));
    });
  encode = λ v. do
    energy ← to_signed 0x80000000 v.energy
    tariff ← in_range 0 254 v.tariff
    let validity = bit_unless_false v.tariff_valid 2 (bit_unless_false v.energy_valid 1 0)
    ok (bytes (u32_be energy ++ (tariff ∷ validity ∷ [])));
}
