-- ===== src/Util/Cron/Fields.antt =====
-- A field: pieces that commas separate.
use node_red_contrib_eelectr.Base.{
  ℕ, ◌≤◌, ◌≡◌, refl, ap, arith, ◌∙◌, Bool, true, false, not, ◌&&◌, ◌||◌, Option, none, some, List,
  [], ◌∷◌, ◌++◌, length, ok,
}
use node_red_contrib_eelectr.Core.Text.{
  Text, all_digits, show, show-digits, show_nonempty, split_on,
}
use node_red_contrib_eelectr.Core.Text.ParseInt.{is_space, skip_space, digit_not_space}
use node_red_contrib_eelectr.Core.GaMatcher.{includes, trim, trim_end}
use node_red_contrib_eelectr.Core.GaMatcher.Patterns.{includes-append}
use node_red_contrib_eelectr.Util.Cron.{has, add_all, parse_pieces, parse_field}
use node_red_contrib_eelectr.Util.Cron.Steps.{has-add_all}
use node_red_contrib_eelectr.Util.Cron.Counts.{distinct, distinct-add_all}
use node_red_contrib_eelectr.Util.Cron.Pieces.{
  Span, every, at, between, Piece, IsPiece, span_text, step_text, piece_text, accepts, span_free,
  includes-digits, not_empty, expand_piece-text,
}

unfoldable pub spaceless : Text → Bool
spaceless [] = true
spaceless (c ∷ s) = not (is_space c) && spaceless s

abbrev pub field_text : Piece → List Piece → Text
field_text p [] = piece_text p
field_text p (q ∷ qs) = piece_text p ++ b',' ∷ field_text q qs

abbrev pub accepts_any : ℕ → ℕ → List Piece → ℕ → Bool
accepts_any min max [] v = false
accepts_any min max (p ∷ ps) v = accepts min max p v || accepts_any min max ps v

abbrev pub ArePieces : ℕ → ℕ → List Piece → Type 0
ArePieces min max [] = Unit {0}
ArePieces min max (p ∷ ps) = IsPiece min max p × ArePieces min max ps

pub spaceless-append : (s t : Text) → spaceless (s ++ t) ≡ (spaceless s && spaceless t)
unfolding spaceless
spaceless-append [] t = refl
spaceless-append (c ∷ s) t = ground (arith, spaceless-append s t)

spaceless-digits : (s : Text) → all_digits s ≡ true → spaceless s ≡ true
unfolding spaceless all_digits
spaceless-digits [] h = refl
spaceless-digits (c ∷ s) h = ground (arith, h, digit_not_space c, spaceless-digits s)

spaceless-span : (s : Span) → spaceless (span_text s) ≡ true
unfolding spaceless is_space
spaceless-span every = refl
spaceless-span (at n) = spaceless-digits (show n) (show-digits n)
spaceless-span (between a b) = ground (
  arith,
  spaceless-append (show a) (b'-' ∷ show b),
  spaceless-digits (show a) (show-digits a),
  spaceless-digits (show b) (show-digits b),
)

spaceless-step : (o : Option ℕ) → spaceless (step_text o) ≡ true
unfolding spaceless is_space
spaceless-step none = refl
spaceless-step (some n) = ground (arith, spaceless-digits (show n) (show-digits n))

spaceless-piece : (p : Piece) → spaceless (piece_text p) ≡ true
spaceless-piece p = ground (
  arith,
  spaceless-append (span_text p.span) (step_text p.step),
  spaceless-span p.span,
  spaceless-step p.step,
)

pub spaceless-field : (p : Piece) (ps : List Piece) → spaceless (field_text p ps) ≡ true
unfolding spaceless is_space
spaceless-field p [] = spaceless-piece p
spaceless-field p (q ∷ qs) = ground (
  arith,
  spaceless-append (piece_text p) (b',' ∷ field_text q qs),
  spaceless-piece p,
  spaceless-field q qs,
)

pub trim_end-spaceless : (s : Text) → spaceless s ≡ true → trim_end s ≡ s
unfolding trim_end spaceless
trim_end-spaceless [] h = refl
trim_end-spaceless (c ∷ s) h = ground (arith, h, trim_end-spaceless s)

trim-spaceless : (s : Text) → spaceless s ≡ true → trim s ≡ s
unfolding trim trim_end skip_space spaceless
trim-spaceless [] h = refl
trim-spaceless (c ∷ s) h = ground (arith, h, trim_end-spaceless (c ∷ s))

pub split_on-free : (c : ℕ) (s : Text) → includes c s ≡ false → split_on c s ≡ s ∷ []
unfolding includes split_on
split_on-free c [] h = refl
split_on-free c (x ∷ s) h = ground (arith, h, split_on-free c s)

pub split_on_free-append :
    (c : ℕ) (s t : Text) → includes c s ≡ false → split_on c (s ++ c ∷ t) ≡ s ∷ split_on c t
unfolding includes split_on
split_on_free-append c [] t h = ground arith
split_on_free-append c (x ∷ s) t h = ground (arith, h, split_on_free-append c s t)

no_comma-step : (o : Option ℕ) → includes b',' (step_text o) ≡ false
unfolding includes
no_comma-step none = refl
no_comma-step (some n) = ground (arith, includes-digits b',' (show n) refl (show-digits n))

no_comma-piece : (p : Piece) → includes b',' (piece_text p) ≡ false
no_comma-piece p = ground (
  arith,
  includes-append b',' (span_text p.span) (step_text p.step),
  span_free b',' p.span refl refl refl,
  no_comma-step p.step,
)

pub append_nonempty : (s t : Text) → 1 ≤ length s → 1 ≤ length (s ++ t)
append_nonempty [] t h = absurd (omega arith)
append_nonempty (c ∷ s) t h = omega arith

span_nonempty : (s : Span) → 1 ≤ length (span_text s)
span_nonempty every = omega arith
span_nonempty (at n) = show_nonempty n
span_nonempty (between a b) = append_nonempty (show a) (b'-' ∷ show b) (show_nonempty a)

pub piece_nonempty : (p : Piece) → 1 ≤ length (piece_text p)
piece_nonempty p = append_nonempty (span_text p.span) (step_text p.step) (span_nonempty p.span)

abbrev texts : List Piece → List Text
texts [] = []
texts (p ∷ ps) = piece_text p ∷ texts ps

split-field : (p : Piece) (ps : List Piece) → split_on b',' (field_text p ps) ≡ texts (p ∷ ps)
split-field p [] = split_on-free b',' (piece_text p) (no_comma-piece p)
split-field p (q ∷ qs) =
    split_on_free-append b',' (piece_text p) (field_text q qs) (no_comma-piece p)
    ∙ ap (λ (ts : List Text). piece_text p ∷ ts) (split-field q qs)

parse_pieces-texts :
    (min max : ℕ) (ps : List Piece) (values : List ℕ)
    → ArePieces min max ps
    → (vs : List ℕ) × (parse_pieces (texts ps) min max values ≡ ok vs)
      × ((v : ℕ) → has v vs ≡ (has v values || accepts_any min max ps v))
      × (distinct values ≡ true → distinct vs ≡ true)
unfolding parse_pieces
parse_pieces-texts min max [] values h = (values, refl, λ v. ground arith, λ d. d)
parse_pieces-texts min max (p ∷ ps) values (h, hs) =
    let (xs, r, q) = expand_piece-text p min max h in
    let (vs, r', q', d') = parse_pieces-texts min max ps (add_all xs values) hs in
    (
      vs,
      rw (trim-spaceless (piece_text p) (spaceless-piece p))
          (rw (not_empty (piece_text p) (piece_nonempty p)) (rw r r')),
      λ v. ground (arith, q v, q' v, has-add_all v xs values),
      λ d. d' (distinct-add_all xs values d),
    )

pub parse_field-text :
    (min max : ℕ) (p : Piece) (ps : List Piece)
    → ArePieces min max (p ∷ ps)
    → (vs : List ℕ) × (parse_field (field_text p ps) min max ≡ ok vs)
      × ((v : ℕ) → has v vs ≡ accepts_any min max (p ∷ ps) v)
      × (distinct vs ≡ true)
unfolding parse_field has distinct
parse_field-text min max p ps h =
    let (vs, r, q, d) = parse_pieces-texts min max (p ∷ ps) [] h in
    (vs, ap (λ (ts : List Text). parse_pieces ts min max []) (split-field p ps) ∙ r, q, d refl)
