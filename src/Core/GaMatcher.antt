-- ===== src/Core/GaMatcher.antt =====
-- src/core/gaMatcher.ts: patterns of group addresses. A compiled pattern is what its closure holds.
pub mod Patterns
use node_red_contrib_eelectr.Base.{
  ℕ, Bool, true, false, not, ◌&&◌, ◌||◌, ◌==◌, ltb, if◌then◌else◌, Option, none, some, List, [],
  ◌∷◌, bit_and, Result, ok, err, ◌>>=◌, ◌>>◌, throw_if, plain_error,
}
use node_red_contrib_eelectr.Base.Bits.{shr}
use node_red_contrib_eelectr.Core.Text.{Text, split_on}
use node_red_contrib_eelectr.Core.Text.ParseInt.{is_space, skip_space, parse_int_radix}
use node_red_contrib_eelectr.Core.Address.Group
use node_red_contrib_eelectr.Base.{list_eq}

pub data GaMatcher : Type 0 where
  exact : ℕ → GaMatcher
  wildcard : Option ℕ → Option ℕ → Option ℕ → GaMatcher

-- `pattern.includes('*')`.
unfoldable pub includes : ℕ → Text → Bool
includes c [] = false
includes c (d ∷ s) = d == c || includes c s

unfoldable pub is_empty : Text → Bool
is_empty [] = true
is_empty (c ∷ s) = false

unfoldable pub trim_end : Text → Text
unfolding is_empty
trim_end [] = []
trim_end (c ∷ s) = let rest = trim_end s in if is_space c && is_empty rest then [] else c ∷ rest

unfoldable pub trim : Text → Text
trim s = trim_end (skip_space s)

abbrev pub star : Text
star = b'*' ∷ []

segment_value : ℕ → Option (Bool × ℕ) → Result (Option ℕ)
segment_value max none = err plain_error
segment_value max (some (negative, n)) = do
  throw_if (negative && not (n == 0) || ltb max n) plain_error
  ok (some n)

-- One segment, with its limit.
unfoldable pub compile_segment : ℕ → Text → Result (Option ℕ)
unfolding segment_value
compile_segment max part =
    if list_eq (trim part) star then ok none else segment_value max (parse_int_radix 10 (trim part))

compile_parts : List Text → Result GaMatcher
compile_parts (main ∷ middle ∷ sub ∷ []) = do
  m ← compile_segment 31 main
  d ← compile_segment 7 middle
  s ← compile_segment 255 sub
  ok (wildcard m d s)
compile_parts _ = err plain_error

compile_exact : Text → Result GaMatcher
compile_exact text = do raw ← Group.of_text text; ok (exact raw)

unfoldable pub compile_ga_pattern : Text → Result GaMatcher
unfolding compile_exact compile_parts
compile_ga_pattern text =
    if not (includes b'*' text) then compile_exact text else compile_parts (split_on b'/' text)

agrees : Option ℕ → ℕ → Bool
agrees none n = true
agrees (some e) n = n == e

unfoldable pub matches : GaMatcher → ℕ → Bool
unfolding agrees
matches (exact target) raw = raw == target
matches (wildcard m d s) raw =
    agrees m (bit_and (shr raw 11) 0x1f)
    && agrees d (bit_and (shr raw 8) 0x07)
    && agrees s (bit_and raw 0xff)

compile_all : List Text → Result (List GaMatcher)
compile_all [] = ok []
compile_all (p ∷ ps) = do m ← compile_ga_pattern p; ms ← compile_all ps; ok (m ∷ ms)

-- The compiled list, `none` for `null`.
unfoldable pub compile_ga_patterns : List Text → Result (Option (List GaMatcher))
unfolding compile_all
compile_ga_patterns [] = ok none
compile_ga_patterns (p ∷ ps) = do ms ← compile_all (p ∷ ps); ok (some ms)

unfoldable pub matches_some : List GaMatcher → ℕ → Bool
matches_some [] raw = false
matches_some (m ∷ ms) raw = matches m raw || matches_some ms raw
