-- ===== src/Core/GaMatcher/Patterns.antt =====
-- What the patterns match.
use node_red_contrib_eelectr.Base.{
  ℕ, ◌/◌, ◌%◌, ◌≤◌, ◌≡◌, refl, arith, ap, ◌∙◌, Bool, true, false, ◌&&◌, ◌||◌, ◌==◌, Option, none,
  some, [], ◌∷◌, ◌++◌, ok,
}
use node_red_contrib_eelectr.Base.Bits.{bit_and-mask}
use node_red_contrib_eelectr.Core.Text.{
  Text, all_digits, show, show-digits, split_on, split_on-append, split_on-digits,
}
use node_red_contrib_eelectr.Core.Text.ParseInt.{
  is_space, skip_space, digit_not_space, parse_int_radix-show,
}
use node_red_contrib_eelectr.Base.{list_eq}
use node_red_contrib_eelectr.Core.GaMatcher.{
  GaMatcher, wildcard, includes, trim_end, trim, star, compile_segment, compile_parts,
  compile_ga_pattern, agrees, matches, is_empty, segment_value,
}

-- How a segment is written, and whether a number is one that it stands for.
abbrev pub segment_text : Option ℕ → Text
segment_text none = star
segment_text (some n) = show n

abbrev pub pattern_text : Option ℕ → Option ℕ → Option ℕ → Text
pattern_text m d s = segment_text m ++ b'/' ∷ (segment_text d ++ b'/' ∷ segment_text s)

abbrev pub stands_for : Option ℕ → ℕ → Bool
stands_for none n = true
stands_for (some e) n = n == e

abbrev pub IsSegment : ℕ → Option ℕ → Type 0
IsSegment max none = Unit {0}
IsSegment max (some n) = n ≤ max

abbrev pub is_star : Option ℕ → Bool
is_star none = true
is_star (some n) = false

trim_end-digits : (s : Text) → all_digits s ≡ true → trim_end s ≡ s
unfolding trim_end all_digits
trim_end-digits [] h = refl
trim_end-digits (c ∷ s) h = ground (arith, digit_not_space c, trim_end-digits s)

pub trim-digits : (s : Text) → all_digits s ≡ true → trim s ≡ s
unfolding trim skip_space all_digits trim_end
trim-digits [] h = refl
trim-digits (c ∷ s) h = ground (arith, digit_not_space c, trim_end-digits (c ∷ s))

pub not_star : (s : Text) → all_digits s ≡ true → list_eq s star ≡ false
unfolding all_digits list_eq
not_star [] h = refl
not_star (c ∷ s) h = ground arith

compile_segment-text :
    (max : ℕ) (o : Option ℕ) → IsSegment max o → compile_segment max (segment_text o) ≡ ok o
unfolding compile_segment segment_value trim trim_end skip_space is_space list_eq is_empty
compile_segment-text max none h = refl
compile_segment-text max (some n) h = ground (
  arith,
  trim-digits (show n) (show-digits n),
  not_star (show n) (show-digits n),
  parse_int_radix-show n,
)

pub includes-append :
    (c : ℕ) (xs ys : Text) → includes c (xs ++ ys) ≡ (includes c xs || includes c ys)
unfolding includes
includes-append c [] ys = refl
includes-append c (x ∷ xs) ys = ground (arith, includes-append c xs ys)

split_segment :
    (o : Option ℕ) (ys : Text)
    → split_on b'/' (segment_text o ++ b'/' ∷ ys) ≡ segment_text o ∷ split_on b'/' ys
unfolding split_on
split_segment none ys = ground arith
split_segment (some n) ys = split_on-append b'/' (show n) ys refl (show-digits n)

split_last : (o : Option ℕ) → split_on b'/' (segment_text o) ≡ segment_text o ∷ []
unfolding split_on
split_last none = refl
split_last (some n) = split_on-digits b'/' (show n) refl (show-digits n)

includes-segment : (o : Option ℕ) → is_star o ≡ true → includes b'*' (segment_text o) ≡ true
unfolding includes
includes-segment none h = refl
includes-segment (some n) h = absurd (ground arith)

includes-pattern :
    (m d s : Option ℕ)
    → (is_star m || is_star d || is_star s) ≡ true
    → includes b'*' (pattern_text m d s) ≡ true
unfolding includes
includes-pattern m d s h =
    let rest = segment_text d ++ b'/' ∷ segment_text s in
    ground (
      arith,
      h,
      includes-append b'*' (segment_text m) (b'/' ∷ rest),
      includes-append b'*' (segment_text d) (b'/' ∷ segment_text s),
      includes-segment m,
      includes-segment d,
      includes-segment s,
    )

split-pattern :
    (m d s : Option ℕ)
    → split_on b'/' (pattern_text m d s) ≡ segment_text m ∷ segment_text d ∷ segment_text s ∷ []
split-pattern m d s =
    split_segment m (segment_text d ++ b'/' ∷ segment_text s)
    ∙ ap (λ t. segment_text m ∷ t) (split_segment d (segment_text s))
    ∙ ap (λ t. segment_text m ∷ segment_text d ∷ t) (split_last s)

compile-pattern :
    (m d s : Option ℕ)
    → IsSegment 31 m
    → IsSegment 7 d
    → IsSegment 255 s
    → (is_star m || is_star d || is_star s) ≡ true
    → compile_ga_pattern (pattern_text m d s) ≡ ok (wildcard m d s)
unfolding compile_ga_pattern compile_parts
compile-pattern m d s hm hd hs h = ground (
  arith,
  includes-pattern m d s h,
  split-pattern m d s,
  compile_segment-text 31 m hm,
  compile_segment-text 7 d hd,
  compile_segment-text 255 s hs,
)

agrees_lem : (o : Option ℕ) (n : ℕ) → agrees o n ≡ stands_for o n
unfolding agrees
agrees_lem none n = refl
agrees_lem (some e) n = refl

-- A pattern of three segments, each a number within its limit or a star and at least one of them a star,
-- compiles. What it compiles to matches a group address exactly if the main group, the middle group
-- and the subgroup of the address, in arithmetic, each equal the number of their segment or face
-- a star.
pub matches-compile_ga_pattern :
    (m d s : Option ℕ) (raw : ℕ)
    → IsSegment 31 m
    → IsSegment 7 d
    → IsSegment 255 s
    → (is_star m || is_star d || is_star s) ≡ true
    → (c : GaMatcher) × (compile_ga_pattern (pattern_text m d s) ≡ ok c)
      × (matches c raw ≡ (
          stands_for m (raw / 2048 % 32)
          && stands_for d (raw / 256 % 8)
          && stands_for s (raw % 256)))
unfolding matches
matches-compile_ga_pattern m d s raw hm hd hs h = (
  wildcard m d s,
  compile-pattern m d s hm hd hs h,
  ground (
    arith,
    bit_and-mask 5 (raw / 2048),
    bit_and-mask 3 (raw / 256),
    bit_and-mask 8 raw,
    agrees_lem m (raw / 2048 % 32),
    agrees_lem d (raw / 256 % 8),
    agrees_lem s (raw % 256),
  ),
)
