-- ===== src/Dpt/JsNumber.antt =====
-- Numbers that no guard has found to be integers: those of src/dpt/dpt10.ts, dpt11.ts and dpt19.ts.
use node_red_contrib_eelectr.Base.{
  ℕ, Bool, ◌||◌, ltb, leb, Result, ok, err, ◌>>◌, throw_if, conversion_error,
}
use node_red_contrib_eelectr.Dpt.Codec.{ℤ, pos, negsuc, in_range}

-- An integer, a number between `n` and `n + 1`, one between `- n - 1` and `- n`, an infinity, whose sign is given,
-- or NaN. No more than this counts for a comparison with an integer and for the integer part.
pub data JsNumber : Type 0 where
  whole : ℤ → JsNumber
  above : ℕ → JsNumber
  below : ℕ → JsNumber
  infinite : Bool → JsNumber
  nan : JsNumber

-- What a byte or a mask takes of a number that is not negative.
unfoldable pub whole_part : JsNumber → ℕ
whole_part (whole (pos n)) = n
whole_part (whole (negsuc n)) = 0
whole_part (above n) = n
whole_part (below n) = 0
whole_part (infinite negative) = 0
whole_part nan = 0

-- `v < min || v > max` throws; NaN is neither. Then what a byte or a mask takes of `v`.
unfoldable pub unless_outside : ℕ → ℕ → JsNumber → Result ℕ
unless_outside min max (whole v) = in_range min max v
unless_outside min max (above n) = do throw_if (ltb n min || leb max n) conversion_error; ok n
unless_outside min max (below n) = err conversion_error
unless_outside min max (infinite negative) = err conversion_error
unless_outside min max nan = ok 0
