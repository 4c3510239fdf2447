-- ===== src/Core/Text/ParseInt/Hex.antt =====
-- Hexadecimal text: `toString('hex')` of a buffer, and `Buffer.from(s, 'hex')`, which stops at the
-- first pair that is not hexadecimal.
use node_red_contrib_eelectr.Base.{
  ℕ, zero, suc, ◌+◌, ◌-◌, ◌*◌, ◌/◌, ◌%◌, ◌<◌, ◌≡◌, refl, arith, Bool, true, ◌&&◌, ◌==◌, ltb,
  if◌then◌else◌, Option, none, some, [], ◌∷◌, ◌++◌, Bytes, IsByte, All, ==_iff,
}
use node_red_contrib_eelectr.Core.Text.{Text}
use node_red_contrib_eelectr.Core.Text.ParseInt.{
  digit_value, parse_int_radix, byte_of, skip_space, is_space, signed_value, with_sign, unsigned,
  digits_value, starts_number, strip_hex_mark, prefix_value,
}

unfoldable pub hex_digit : ℕ → ℕ
hex_digit n = if ltb n 10 then b'0' + n else b'a' + (n - 10)

-- One byte as two lower-case digits.
unfoldable pub hex_byte : ℕ → Text
unfolding hex_digit
hex_byte b = hex_digit (b / 16) ∷ hex_digit (b % 16) ∷ []

unfoldable pub to_hex : Bytes → Text
to_hex [] = []
to_hex (b ∷ bs) = hex_byte b ++ to_hex bs

nibble : ℕ → Option ℕ
nibble c = elim (digit_value c) [ none ↦ none | some v ↦ if ltb v 16 then some v else none ]

pair_value : Option ℕ → Option ℕ → Option ℕ
pair_value (some a) (some b) = some (a * 16 + b)
pair_value _ _ = none

unfoldable pub from_hex : Text → Bytes
unfolding pair_value nibble
from_hex (a ∷ b ∷ cs) = elim (pair_value (nibble a) (nibble b)) [
  | none ↦ []
  | some v ↦ v ∷ from_hex cs
]
from_hex _ = []

-- Every value below a bound, by evaluation.
all_below : ℕ → (ℕ → Bool) → Bool
all_below zero p = true
all_below (suc n) p = p n && all_below n p

all_below_at : (n : ℕ) (p : ℕ → Bool) (x : ℕ) → all_below n p ≡ true → x < n → p x ≡ true
unfolding all_below
all_below_at zero p x h l = absurd (omega arith)
all_below_at (suc n) p x h l = ground (arith, all_below_at n p x)

nibble-hex_digit : (n : ℕ) → n < 16 → nibble (hex_digit n) ≡ some n
unfolding nibble hex_digit digit_value
nibble-hex_digit n h = ground arith

-- The bytes come back from their hexadecimal text.
pub from_hex-to_hex : (bs : Bytes) → All IsByte bs → from_hex (to_hex bs) ≡ bs
unfolding from_hex to_hex hex_byte
from_hex-to_hex [] h = refl
from_hex-to_hex (b ∷ bs) h = ground (
  arith,
  nibble-hex_digit (b / 16) (omega arith),
  nibble-hex_digit (b % 16) (omega arith),
  from_hex-to_hex bs h.1,
)

hex_byte_table : all_below 256 (λ b. byte_of (parse_int_radix 16 (hex_byte b)) == b) ≡ true
unfolding all_below byte_of parse_int_radix hex_byte skip_space is_space signed_value with_sign
    unsigned digits_value starts_number strip_hex_mark prefix_value digit_value
hex_byte_table = refl

-- Two hexadecimal digits are read back by `parseInt(s, 16)`.
pub byte_of-hex_byte : (b : ℕ) → b < 256 → byte_of (parse_int_radix 16 (hex_byte b)) ≡ b
byte_of-hex_byte b h = (==_iff _ b).0 (all_below_at 256 _ b hex_byte_table h)
