-- ===== src/Util/Cron/Pieces.antt =====
-- One piece of a field: how it is written, and which numbers it stands for.
use node_red_contrib_eelectr.Base.{
  ℕ, suc, ◌-◌, ◌≤◌, ◌<◌, ◌≡◌, refl, ap, ◌∙◌, arith, Bool, true, false, ◌==◌, leb, Option, none,
  some, List, [], ◌∷◌, ◌++◌, length, ok, list_eq,
}
use node_red_contrib_eelectr.Core.Text.{
  Text, is_digit, all_digits, show, show-digits, show_nonempty, split_on-append, split_on-digits,
}
use node_red_contrib_eelectr.Core.Text.ParseInt.{parse_int_radix, parse_int_radix-show}
use node_red_contrib_eelectr.Core.GaMatcher.{includes, star}
use node_red_contrib_eelectr.Core.GaMatcher.Patterns.{not_star, includes-append}
use node_red_contrib_eelectr.Util.Cron.{
  has, cut_at, infinite_from, step_of, bound_of, range_of, single, span_of, steps, expand,
  expand_cut, expand_piece,
}
use node_red_contrib_eelectr.Util.Cron.Steps.{reaches, has-steps}

pub data Span : Type 0 where
  every : Span
  at : ℕ → Span
  between : ℕ → ℕ → Span

pub record Piece : Type 0 where
  pub span : Span
  pub step : Option ℕ

abbrev pub span_text : Span → Text
span_text every = star
span_text (at n) = show n
span_text (between a b) = show a ++ b'-' ∷ show b

abbrev pub step_text : Option ℕ → Text
step_text none = []
step_text (some n) = b'/' ∷ show n

abbrev pub piece_text : Piece → Text
piece_text p = span_text p.span ++ step_text p.step

abbrev pub lo_of : ℕ → Span → ℕ
lo_of min every = min
lo_of min (at n) = n
lo_of min (between a b) = a

abbrev pub hi_of : ℕ → Span → ℕ
hi_of max every = max
hi_of max (at n) = n
hi_of max (between a b) = b

abbrev pub step_or_one : Option ℕ → ℕ
step_or_one none = 1
step_or_one (some n) = n

-- The numbers from the lower bound to the upper one, a step apart. A single number is both bounds, so
-- a step behind it changes nothing.
abbrev pub accepts : ℕ → ℕ → Piece → ℕ → Bool
accepts min max p v = reaches (lo_of min p.span) (hi_of max p.span) (step_or_one p.step) v

pub record IsPiece (min max : ℕ) (p : Piece) : Type 0 where
  pub low : min ≤ lo_of min p.span
  pub high : hi_of max p.span ≤ max
  pub ordered : lo_of min p.span ≤ hi_of max p.span
  pub steps_on : 0 < step_or_one p.step
  pub finite : leb infinite_from (step_or_one p.step) ≡ false

pub includes-digits :
    (c : ℕ) (s : Text) → is_digit c ≡ false → all_digits s ≡ true → includes c s ≡ false
unfolding includes all_digits
includes-digits c [] h d = refl
includes-digits c (x ∷ s) h d = ground (arith, h, d, includes-digits c s h)

cut_at_absent : (c : ℕ) (s : Text) → includes c s ≡ false → cut_at c s ≡ none
unfolding includes cut_at
cut_at_absent c [] h = refl
cut_at_absent c (x ∷ s) h = ground (arith, h, cut_at_absent c s)

cut_at-append : (c : ℕ) (s t : Text) → includes c s ≡ false → cut_at c (s ++ c ∷ t) ≡ some (s, t)
unfolding includes cut_at
cut_at-append c [] t h = ground arith
cut_at-append c (x ∷ s) t h = ground (arith, h, cut_at-append c s t)

-- A character that no span and no step is written with.
pub span_free :
    (c : ℕ) (s : Span)
    → is_digit c ≡ false
    → (c == b'*') ≡ false
    → (c == b'-') ≡ false
    → includes c (span_text s) ≡ false
unfolding includes
span_free c every d e f = ground (arith, e)
span_free c (at n) d e f = includes-digits c (show n) d (show-digits n)
span_free c (between a b) d e f = ground (
  arith,
  d,
  f,
  includes-append c (show a) (b'-' ∷ show b),
  includes-digits c (show a) d (show-digits a),
  includes-digits c (show b) d (show-digits b),
)

bound_of-show : (n : ℕ) → bound_of (parse_int_radix 10 (show n)) ≡ ok n
unfolding bound_of
bound_of-show n = rw (parse_int_radix-show n) refl

range_not_star : (s t : Text) → all_digits s ≡ true → list_eq (s ++ b'-' ∷ t) star ≡ false
unfolding all_digits list_eq
range_not_star [] t d = refl
range_not_star (c ∷ s) t d = ground (arith, d)

pub not_empty : (s : Text) → 1 ≤ length s → list_eq s [] ≡ false
unfolding list_eq
not_empty [] h = absurd (omega arith)
not_empty (c ∷ s) h = refl

range_not_empty : (s t : Text) → list_eq (s ++ b'-' ∷ t) [] ≡ false
unfolding list_eq
range_not_empty [] t = refl
range_not_empty (c ∷ s) t = refl

includes_first : (c : ℕ) (s : Text) → includes c (c ∷ s) ≡ true
unfolding includes
includes_first c s = ground arith

span_of-text :
    (s : Span) (min max : ℕ) → span_of (span_text s) min max ≡ ok (lo_of min s, hi_of max s)
unfolding span_of range_of single list_eq
span_of-text every min max = refl
span_of-text (at n) min max = ground (
  arith,
  not_star (show n) (show-digits n),
  not_empty (show n) (show_nonempty n),
  includes-digits b'-' (show n) refl (show-digits n),
  bound_of-show n,
)
span_of-text (between a b) min max = ground (
  arith,
  range_not_star (show a) (show b) (show-digits a),
  range_not_empty (show a) (show b),
  includes-append b'-' (show a) (b'-' ∷ show b),
  includes_first b'-' (show b),
  split_on-append b'-' (show a) (show b) refl (show-digits a),
  split_on-digits b'-' (show b) refl (show-digits b),
  bound_of-show a,
  bound_of-show b,
)

expand_span :
    (p : Piece) (min max : ℕ)
    → IsPiece min max p
    → (vs : List ℕ) × (expand (span_text p.span) (ok (step_or_one p.step)) min max ≡ ok vs)
      × ((v : ℕ) → has v vs ≡ accepts min max p v)
unfolding expand
expand_span p min max h =
    let lo = lo_of min p.span in
    let hi = hi_of max p.span in
    (
      steps (suc (hi - lo)) lo hi (step_or_one p.step),
      ground (arith, span_of-text p.span min max, h.low, h.high, h.ordered),
      λ v.
          has-steps (suc (hi - lo)) lo hi (step_or_one p.step) v h.steps_on
            (omega (arith, h.ordered)),
    )

append-nil : (s : Text) → s ++ [] ≡ s
append-nil [] = refl
append-nil (c ∷ s) = ap (λ (t : Text). c ∷ t) (append-nil s)

step_of-show :
    (n : ℕ) → 0 < n → leb infinite_from n ≡ false → step_of (parse_int_radix 10 (show n)) ≡ ok n
unfolding step_of
step_of-show n p q = rw (parse_int_radix-show n) (ground (arith, p, q))

-- The piece is cut at its slash, and the span and the step are read from the two sides.
expand_piece-cut :
    (s : Span) (step : Option ℕ) (min max : ℕ)
    → 0 < step_or_one step
    → leb infinite_from (step_or_one step) ≡ false
    → expand_piece (span_text s ++ step_text step) min max
      ≡ expand (span_text s) (ok (step_or_one step)) min max
unfolding expand_piece expand_cut
expand_piece-cut s none min max p q =
    rw (append-nil (span_text s))
      (rw (cut_at_absent b'/' (span_text s) (span_free b'/' s refl refl refl)) refl)
expand_piece-cut s (some n) min max p q =
    rw (cut_at-append b'/' (span_text s) (show n) (span_free b'/' s refl refl refl))
      (rw (step_of-show n p q) refl)

-- A piece that is written out expands to the numbers that it stands for.
pub expand_piece-text :
    (p : Piece) (min max : ℕ)
    → IsPiece min max p
    → (vs : List ℕ) × (expand_piece (piece_text p) min max ≡ ok vs)
      × ((v : ℕ) → has v vs ≡ accepts min max p v)
expand_piece-text p min max h =
    let (vs, r, q) = expand_span p min max h in
    (vs, expand_piece-cut p.span p.step min max h.steps_on h.finite ∙ r, q)
