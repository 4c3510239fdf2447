-- ===== src/Core/Address/Individual.antt =====
-- The class IndividualAddress of src/core/address.ts.
use node_red_contrib_eelectr.Base.{
  ℕ, Bool, not, List, [], ◌∷◌, ◌++◌, leb, ◌==◌, if◌then◌else◌, Bytes, length, u16_be, bit_and,
  bit_or, Result, ok, err, ◌>>=◌, ◌>>◌, throw_if, ◌&&◌, could_not_parse_address,
}
use node_red_contrib_eelectr.Base.Bits.{shl, shr}
use node_red_contrib_eelectr.Core.Text.{Text, all_digits, is_field, parse_int, show, split_on}
use node_red_contrib_eelectr.Core.Address.{read_uint16_be, of_number, bounded, IndividualAddress}

abbrev pub max_area : ℕ
max_area = 0x0f

abbrev pub max_main : ℕ
max_main = 0x0f

abbrev pub max_line : ℕ
max_line = 0xff

-- The pattern `RE`: three fields of digits between dots.
unfoldable pub of_segments : List Text → Result ℕ
of_segments (a ∷ m ∷ l ∷ []) = do
  throw_if (not (is_field 2 a && is_field 2 m && is_field 3 l)) could_not_parse_address
  area ← bounded max_area a
  main ← bounded max_main m
  line ← bounded max_line l
  ok (bit_or (bit_or (shl area 12) (shl main 8)) line)
of_segments _ = err could_not_parse_address

unfoldable pub of_text : Text → Result ℕ
of_text s =
    if leb 1 (length s) && all_digits s
    then of_number (parse_int s)
    else of_segments (split_on b'.' s)

unfoldable pub from_knx : Bytes → Result IndividualAddress
from_knx buf = do n ← read_uint16_be buf; raw ← of_number n; ok (record { raw = raw })

unfoldable pub to_knx : IndividualAddress → Bytes
to_knx a = u16_be a.raw

unfoldable pub area : IndividualAddress → ℕ
area a = bit_and (shr a.raw 12) max_area

unfoldable pub main : IndividualAddress → ℕ
main a = bit_and (shr a.raw 8) max_main

unfoldable pub line : IndividualAddress → ℕ
line a = bit_and a.raw max_line

unfoldable pub is_device : IndividualAddress → Bool
unfolding line
is_device a = not (line a == 0)

unfoldable pub to_string : IndividualAddress → Text
to_string a = show (area a) ++ b'.' ∷ (show (main a) ++ b'.' ∷ show (line a))
