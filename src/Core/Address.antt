-- ===== src/Core/Address.antt =====
-- src/core/address.ts: individual and group addresses. A number argument of a constructor is a
-- natural number here; the source rejects every other number.
pub mod Individual
pub mod Group
pub mod Notation
use node_red_contrib_eelectr.Base.{
  ℕ, ◌+◌, ◌/◌, ◌%◌, ◌^◌, ◌≡◌, Bool, true, false, not, Option, none, some, List, [], ◌∷◌, ◌++◌, leb,
  ltb, ◌==◌, if◌then◌else◌, Bytes, length, u16_be, read_u16, bit_and, bit_or, Result, ok, err,
  ◌>>=◌, ◌>>◌, throw_if, could_not_parse_address, ◌&&◌,
}
use node_red_contrib_eelectr.Base.Bits.{shl, shr}
use node_red_contrib_eelectr.Core.Text.{Text, all_digits, is_field, parse_int, show, split_on}

abbrev pub u16_max : ℕ
u16_max = 0xffff

-- `readUint16BE`.
unfoldable pub read_uint16_be : Bytes → Result ℕ
read_uint16_be buf = do throw_if (ltb (length buf) 2) could_not_parse_address; ok (read_u16 buf 0)

-- What both `coerce` functions do with a number.
unfoldable pub of_number : ℕ → Result ℕ
of_number n = if leb n u16_max then ok n else err could_not_parse_address

-- A field of a parsed notation with its upper limit.
unfoldable pub bounded : ℕ → Text → Result ℕ
bounded max s = if leb (parse_int s) max then ok (parse_int s) else err could_not_parse_address

pub record IndividualAddress : Type 0 where
  pub raw : ℕ

pub data GroupAddressStyle : Type 0 where
  long short free : GroupAddressStyle

pub record GroupAddress : Type 0 where
  pub raw : ℕ
  pub style : GroupAddressStyle
