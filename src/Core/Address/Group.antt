-- ===== src/Core/Address/Group.antt =====
-- The class GroupAddress of src/core/address.ts.
use node_red_contrib_eelectr.Base.{
  ℕ, not, Option, none, some, List, [], ◌∷◌, ◌++◌, leb, if◌then◌else◌, Bytes, length, u16_be,
  bit_and, bit_or, Result, ok, err, ◌>>=◌, ◌>>◌, throw_if, ◌&&◌, could_not_parse_address,
}
use node_red_contrib_eelectr.Base.Bits.{shl, shr}
use node_red_contrib_eelectr.Core.Text.{Text, all_digits, is_field, parse_int, show, split_on}
use node_red_contrib_eelectr.Core.Address.{
  read_uint16_be, of_number, bounded, GroupAddress, GroupAddressStyle, long, short, free,
}

abbrev pub max_main : ℕ
max_main = 0x1f

abbrev pub max_middle : ℕ
max_middle = 0x07

abbrev pub max_sub_long : ℕ
max_sub_long = 0xff

abbrev pub max_sub_short : ℕ
max_sub_short = 0x07ff

-- The pattern `RE`: two or three fields of digits between slashes.
unfoldable pub of_segments : List Text → Result ℕ
of_segments (m ∷ s ∷ []) = do
  throw_if (not (is_field 2 m && is_field 4 s)) could_not_parse_address
  main ← bounded max_main m
  sub ← bounded max_sub_short s
  ok (bit_or (shl main 11) sub)
of_segments (m ∷ d ∷ s ∷ []) = do
  throw_if (not (is_field 2 m && is_field 2 d && is_field 4 s)) could_not_parse_address
  main ← bounded max_main m
  middle ← bounded max_middle d
  sub ← bounded max_sub_long s
  ok (bit_or (bit_or (shl main 11) (shl middle 8)) sub)
of_segments _ = err could_not_parse_address

unfoldable pub of_text : Text → Result ℕ
of_text s =
    if leb 1 (length s) && all_digits s
    then of_number (parse_int s)
    else of_segments (split_on b'/' s)

unfoldable pub from_knx : Bytes → GroupAddressStyle → Result GroupAddress
from_knx buf style = do
  n ← read_uint16_be buf
  raw ← of_number n
  ok (record { raw = raw; style = style })

unfoldable pub to_knx : GroupAddress → Bytes
to_knx a = u16_be a.raw

-- `null` for the style that has no such part.
unfoldable pub main : GroupAddress → Option ℕ
main a = elim a.style [ free ↦ none | _ ↦ some (bit_and (shr a.raw 11) max_main) ]

unfoldable pub middle : GroupAddress → Option ℕ
middle a = elim a.style [ long ↦ some (bit_and (shr a.raw 8) max_middle) | _ ↦ none ]

unfoldable pub sub : GroupAddress → ℕ
sub a = elim a.style [
  | short ↦ bit_and a.raw max_sub_short
  | long ↦ bit_and a.raw max_sub_long
  | free ↦ a.raw
]

show_part : Option ℕ → Text
show_part none = b'n' ∷ b'u' ∷ b'l' ∷ b'l' ∷ []
show_part (some n) = show n

unfoldable pub to_string : GroupAddress → Text
unfolding main middle sub show_part
to_string a = elim a.style [
  | long ↦ show_part (main a) ++ b'/' ∷ (show_part (middle a) ++ b'/' ∷ show (sub a))
  | short ↦ show_part (main a) ++ b'/' ∷ show (sub a)
  | free ↦ show (sub a)
]
