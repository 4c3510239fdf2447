-- ===== src/Dpt/Numbers.antt =====
-- src/dpt/dpt5.ts (the sub-types without a scale), dpt6.ts, dpt7.ts, dpt8.ts, dpt12.ts, dpt13.ts and dpt20.ts.
use node_red_contrib_eelectr.Base.{[], ◌∷◌, read_u16, read_u32, u16_be, u32_be, ok, ◌>>=◌}
use node_red_contrib_eelectr.Core.Apci.{bytes}
use node_red_contrib_eelectr.Dpt.Codec.{
  ℤ, pos, DptCodec, buffer_from, in_range, to_signed, from_signed, one_byte, two_bytes, four_bytes,
}

unfoldable pub dpt5 : DptCodec ℤ
dpt5 = record {
  decode = λ apdu. (do b ← one_byte apdu; ok (pos b));
  encode = λ v. (do n ← in_range 0 255 v; ok (buffer_from (n ∷ [])));
}

unfoldable pub dpt6 : DptCodec ℤ
dpt6 = record {
  decode = λ apdu. (do b ← one_byte apdu; ok (from_signed 128 b));
  encode = λ v. (do n ← to_signed 128 v; ok (buffer_from (n ∷ [])));
}

unfoldable pub dpt7 : DptCodec ℤ
dpt7 = record {
  decode = λ apdu. (do (a, b) ← two_bytes apdu; ok (pos (read_u16 (a ∷ b ∷ []) 0)));
  encode = λ v. (do n ← in_range 0 0xffff v; ok (bytes (u16_be n)));
}

unfoldable pub dpt8 : DptCodec ℤ
dpt8 = record {
  decode = λ apdu. (do (a, b) ← two_bytes apdu; ok (from_signed 0x8000 (read_u16 (a ∷ b ∷ []) 0)));
  encode = λ v. (do n ← to_signed 0x8000 v; ok (bytes (u16_be n)));
}

unfoldable pub dpt12 : DptCodec ℤ
dpt12 = record {
  decode = λ apdu. (do (a, b, c, d) ← four_bytes apdu; ok (pos (read_u32 (a ∷ b ∷ c ∷ d ∷ []) 0)));
  encode = λ v. (do n ← in_range 0 0xffffffff v; ok (bytes (u32_be n)));
}

unfoldable pub dpt13 : DptCodec ℤ
dpt13 = record {
  decode = λ apdu. do
    (a, b, c, d) ← four_bytes apdu
    ok (from_signed 0x80000000 (read_u32 (a ∷ b ∷ c ∷ d ∷ []) 0));
  encode = λ v. (do n ← to_signed 0x80000000 v; ok (bytes (u32_be n)));
}

unfoldable pub dpt20 : DptCodec ℤ
dpt20 = record {
  decode = λ apdu. (do b ← one_byte apdu; ok (pos b));
  encode = λ v. (do n ← in_range 0 255 v; ok (buffer_from (n ∷ [])));
}
