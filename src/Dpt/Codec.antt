-- ===== src/Dpt/Codec.antt =====
-- The interface DPTCodec of src/dpt/registry.ts, and what the codecs of src/dpt share. A number is an
-- integer where the codec refuses every other number: the guard that does so has nothing left to refuse.
use node_red_contrib_eelectr.Base.{
  ℕ, ◌*◌, ◌-◌, ◌%◌, Bool, false, ◌||◌, ltb, leb, ◌&&◌, if◌then◌else◌, List, [], ◌∷◌, map, Result,
  ok, err, ◌>>◌, throw_if, conversion_error,
}
use node_red_contrib_eelectr.Core.Apci.{ApduValue, bytes}

pub data ℤ : Type 0 where
  pos : ℕ → ℤ
  negsuc : ℕ → ℤ

pub record DptCodec (V : Type 0) : Type 0 where
  pub decode : ApduValue → Result V
  pub encode : V → Result ApduValue

-- `Buffer.from([...])`.
abbrev pub buffer_from : List ℕ → ApduValue
buffer_from xs = bytes (map (λ x. x % 256) xs)

-- `v < min || v > max` throws.
unfoldable pub in_range : ℕ → ℕ → ℤ → Result ℕ
in_range min max (negsuc n) = err conversion_error
in_range min max (pos n) = do throw_if (ltb n min || ltb max n) conversion_error; ok n

abbrev pub fits_in : ℕ → ℕ → ℤ → Bool
fits_in min max (negsuc n) = false
fits_in min max (pos n) = leb min n && leb n max

-- Two's complement around `half`, the power of two that the sign bit stands for.
unfoldable pub to_signed : ℕ → ℤ → Result ℕ
to_signed half (pos n) = do throw_if (ltb (half - 1) n) conversion_error; ok n
to_signed half (negsuc n) = do throw_if (ltb (half - 1) n) conversion_error; ok (2 * half - 1 - n)

unfoldable pub from_signed : ℕ → ℕ → ℤ
from_signed half x = if ltb x half then pos x else negsuc (2 * half - 1 - x)

abbrev pub fits_signed : ℕ → ℤ → Bool
fits_signed half (pos n) = ltb n half
fits_signed half (negsuc n) = ltb n half

unfoldable pub one_byte : ApduValue → Result ℕ
one_byte (bytes (b ∷ [])) = ok b
one_byte _ = err conversion_error

unfoldable pub two_bytes : ApduValue → Result (ℕ × ℕ)
two_bytes (bytes (a ∷ b ∷ [])) = ok (a, b)
two_bytes _ = err conversion_error

unfoldable pub four_bytes : ApduValue → Result (ℕ × ℕ × ℕ × ℕ)
four_bytes (bytes (a ∷ b ∷ c ∷ d ∷ [])) = ok (a, b, c, d)
four_bytes _ = err conversion_error
