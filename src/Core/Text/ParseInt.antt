-- ===== src/Core/Text/ParseInt.antt =====
-- JavaScript's `Number.parseInt(s, radix)` for the radixes 10 and 16, which src/core/bodies applies to
-- segments of a text. Values are exact integers here; JavaScript rounds those above 2 ^ 53.
pub mod Hex
use node_red_contrib_eelectr.Base.{
  ℕ, zero, suc, ◌+◌, ◌-◌, ◌*◌, ◌%◌, ◌≤◌, ◌<◌, ◌≡◌, refl, arith, Bool, true, false, ◌&&◌, ◌||◌, ◌==◌,
  leb, ltb, if◌then◌else◌, Option, none, some, List, [], ◌∷◌, Bool-cases, inl, inr, ◌∙◌, ap, length,
}
use node_red_contrib_eelectr.Core.Text.{
  Text, is_digit, all_digits, parse_from, parse_int, show, show_nonempty, show-digits,
  parse_int-show,
}

-- `WhiteSpace` and `LineTerminator` of the language.
unfoldable pub is_space : ℕ → Bool
is_space c =
    leb 9 c && leb c 13
    || c == 0x20
    || c == 0xa0
    || c == 0x1680
    || leb 0x2000 c && leb c 0x200a
    || c == 0x2028
    || c == 0x2029
    || c == 0x202f
    || c == 0x205f
    || c == 0x3000
    || c == 0xfeff

unfoldable pub skip_space : Text → Text
skip_space [] = []
skip_space (c ∷ cs) = if is_space c then skip_space cs else c ∷ cs

-- The value of a digit in any radix up to 36.
unfoldable pub digit_value : ℕ → Option ℕ
digit_value c =
    if leb b'0' c && leb c b'9'
    then some (c - b'0')
    else if leb b'a' c && leb c b'z'
    then some (c - b'a' + 10)
    else if leb b'A' c && leb c b'Z'
    then some (c - b'A' + 10)
    else none

-- The value of the longest prefix of digits, with those already read.
prefix_value : ℕ → ℕ → Text → ℕ
prefix_value radix acc [] = acc
prefix_value radix acc (c ∷ cs) = elim (digit_value c) [
  | none ↦ acc
  | some v ↦ if ltb v radix then prefix_value radix (acc * radix + v) cs else acc
]

starts_number : ℕ → Text → Bool
starts_number radix [] = false
starts_number radix (c ∷ cs) = elim (digit_value c) [ none ↦ false | some v ↦ ltb v radix ]

strip_hex_mark : ℕ → Text → Text
strip_hex_mark radix (z ∷ x ∷ cs) =
    if radix == 16 && z == b'0' && (x == b'x' || x == b'X') then cs else z ∷ x ∷ cs
strip_hex_mark radix s = s

digits_value : ℕ → Text → Option ℕ
digits_value radix s = if starts_number radix s then some (prefix_value radix 0 s) else none

with_sign : Bool → Option ℕ → Option (Bool × ℕ)
with_sign neg none = none
with_sign neg (some n) = some (neg, n)

unsigned : ℕ → Text → Option ℕ
unsigned radix s = digits_value radix (strip_hex_mark radix s)

-- The sign and the magnitude; `none` for `NaN`.
signed_value : ℕ → Text → Option (Bool × ℕ)
signed_value radix [] = none
signed_value radix (c ∷ cs) =
    if c == b'-'
    then with_sign true (unsigned radix cs)
    else if c == b'+'
    then with_sign false (unsigned radix cs)
    else with_sign false (unsigned radix (c ∷ cs))

pub parse_int_radix : ℕ → Text → Option (Bool × ℕ)
parse_int_radix radix s = signed_value radix (skip_space s)

-- What a store into a byte buffer keeps of such a value; `NaN` is stored as 0.
unfoldable pub byte_of : Option (Bool × ℕ) → ℕ
byte_of none = 0
byte_of (some (true, n)) = (256 - n % 256) % 256
byte_of (some (false, n)) = n % 256

-- A text of decimal digits is read as `parse_int` reads it.
prefix_value-digits :
    (acc : ℕ) (s : Text) → all_digits s ≡ true → prefix_value 10 acc s ≡ parse_from acc s
unfolding all_digits prefix_value parse_from digit_value
prefix_value-digits acc [] h = refl
prefix_value-digits acc (c ∷ cs) h = ground (arith, prefix_value-digits (acc * 10 + (c - b'0')) cs)

pub digit_not_space : (c : ℕ) → is_digit c ≡ true → is_space c ≡ false
unfolding is_space
digit_not_space c h = ground arith

strip_hex_mark_ten : (s : Text) → strip_hex_mark 10 s ≡ s
unfolding strip_hex_mark
strip_hex_mark_ten [] = refl
strip_hex_mark_ten (c ∷ []) = refl
strip_hex_mark_ten (c ∷ d ∷ cs) = refl

pub skip_space-digit : (c : ℕ) (cs : Text) → is_digit c ≡ true → skip_space (c ∷ cs) ≡ c ∷ cs
unfolding skip_space
skip_space-digit c cs h = rw (digit_not_space c h)

unsigned-digits :
    (c : ℕ) (cs : Text)
    → all_digits (c ∷ cs) ≡ true
    → unsigned 10 (c ∷ cs) ≡ some (parse_from 0 (c ∷ cs))
unfolding all_digits unsigned digits_value starts_number digit_value
unsigned-digits c cs h =
    rw (strip_hex_mark_ten (c ∷ cs)) (ground (arith, prefix_value-digits 0 (c ∷ cs)))

parse_int_radix-digits :
    (c : ℕ) (cs : Text)
    → all_digits (c ∷ cs) ≡ true
    → parse_int_radix 10 (c ∷ cs) ≡ some (false, parse_from 0 (c ∷ cs))
unfolding all_digits parse_int_radix signed_value with_sign
parse_int_radix-digits c cs h =
    rw (skip_space-digit c cs (ground arith)) (ground (arith, unsigned-digits c cs h))

byte_of-digits :
    (s : Text)
    → all_digits s ≡ true
    → 1 ≤ length s
    → byte_of (parse_int_radix 10 s) ≡ parse_int s % 256
unfolding parse_int byte_of
byte_of-digits [] h l = absurd (omega arith)
byte_of-digits (c ∷ cs) h l = rw (parse_int_radix-digits c cs h)

-- A printed byte is read back, whatever the text's length.
pub byte_of-show : (n : ℕ) → n < 256 → byte_of (parse_int_radix 10 (show n)) ≡ n
byte_of-show n h =
    byte_of-digits (show n) (show-digits n) (show_nonempty n) ∙ rw (parse_int-show n) (omega arith)

-- A printed number is read back in full.
pub parse_int_radix-show : (n : ℕ) → parse_int_radix 10 (show n) ≡ some (false, n)
unfolding parse_int
parse_int_radix-show n = read_back (show n) (show-digits n) (show_nonempty n) (parse_int-show n)
  where
    read_back :
        (s : Text)
        → all_digits s ≡ true
        → 1 ≤ length s
        → parse_int s ≡ n
        → parse_int_radix 10 s ≡ some (false, n)
    read_back [] d l e = absurd (omega arith)
    read_back (c ∷ cs) d l e = rw (parse_int_radix-digits c cs d) (ap (λ v. some (false, v)) e)
