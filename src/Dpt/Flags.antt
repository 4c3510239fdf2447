-- ===== src/Dpt/Flags.antt =====
-- src/dpt/dpt1.ts, dpt2.ts, dpt3.ts, dpt17.ts, dpt18.ts and dpt26.ts.
use node_red_contrib_eelectr.Base.{
  ℕ, Bool, not, ◌==◌, if◌then◌else◌, bit_and, bit_or, [], ◌∷◌, Result, ok, err, ◌>>=◌,
  conversion_error,
}
use node_red_contrib_eelectr.Core.Apci.{ApduValue, small, bytes}
use node_red_contrib_eelectr.Dpt.Codec.{ℤ, pos, DptCodec, buffer_from, in_range, one_byte}

-- The small payload, or the first byte.
unfoldable pub raw_of : ApduValue → Result ℕ
raw_of (small v) = ok v
raw_of (bytes []) = err conversion_error
raw_of (bytes (b ∷ bs)) = ok b

unfoldable pub dpt1 : DptCodec Bool
dpt1 = record {
  decode = λ apdu. (do raw ← raw_of apdu; ok (bit_and raw 0x01 == 1));
  encode = λ value. ok (small (if value then 1 else 0));
}

pub record Dpt2Value : Type 0 where
  pub control : Bool
  pub value : Bool

unfoldable pub dpt2 : DptCodec Dpt2Value
dpt2 = record {
  decode = λ apdu. do
    raw ← raw_of apdu
    ok (record { control = not (bit_and raw 2 == 0); value = not (bit_and raw 1 == 0) });
  encode = λ v. ok (small (bit_or (if v.control then 2 else 0) (if v.value then 1 else 0)));
}

pub record Dpt3Value : Type 0 where
  pub control : Bool
  pub step_code : ℤ

unfoldable pub dpt3 : DptCodec Dpt3Value
dpt3 = record {
  decode = λ apdu. do
    raw ← raw_of apdu
    ok (record { control = not (bit_and raw 8 == 0); step_code = pos (bit_and raw 7) });
  encode = λ v. do
    step_code ← in_range 0 7 v.step_code
    ok (small (bit_or (if v.control then 8 else 0) (bit_and step_code 7)));
}

unfoldable pub dpt17 : DptCodec ℤ
dpt17 = record {
  decode = λ apdu. (do b ← one_byte apdu; ok (pos (bit_and b 0x3f)));
  encode = λ value. (do n ← in_range 0 63 value; ok (buffer_from (bit_and n 0x3f ∷ [])));
}

-- `learns` is whether `control` is 'learn' and not 'activate'.
pub record Dpt18Value : Type 0 where
  pub learns : Bool
  pub scene_number : ℤ

unfoldable pub dpt18 : DptCodec Dpt18Value
dpt18 = record {
  decode = λ apdu. do
    raw ← one_byte apdu
    ok (record { learns = not (bit_and raw 0x80 == 0); scene_number = pos (bit_and raw 0x3f) });
  encode = λ v. do
    n ← in_range 0 63 v.scene_number
    ok (buffer_from (bit_or (if v.learns then 0x80 else 0) (bit_and n 0x3f) ∷ []));
}

pub record SceneInfo : Type 0 where
  pub scene_number : ℤ
  pub active : Bool

unfoldable pub dpt26 : DptCodec SceneInfo
dpt26 = record {
  decode = λ apdu. do
    b ← one_byte apdu
    ok (record { scene_number = pos (bit_and b 0x3f); active = not (bit_and b 0x40 == 0) });
  encode = λ value. do
    n ← in_range 0 63 value.scene_number
    ok (buffer_from (bit_or (if value.active then 0x40 else 0) (bit_and n 0x3f) ∷ []));
}
