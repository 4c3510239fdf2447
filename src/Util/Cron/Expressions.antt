-- ===== src/Util/Cron/Expressions.antt =====
-- Whole expressions: five fields, and the dates that they stand for.
use node_red_contrib_eelectr.Base.{
  ℕ, suc, ◌+◌, ◌≤◌, ◌<◌, ◌≡◌, refl, sym, arith, ◌∙◌, Bool, true, false, not, ◌&&◌, ◌||◌, ◌==◌, List,
  [], ◌∷◌, length, ok, if◌then◌else◌, Bool-cases, inl, inr,
}
use node_red_contrib_eelectr.Core.Text.{Text}
use node_red_contrib_eelectr.Core.GaMatcher.{includes}
use node_red_contrib_eelectr.Util.Cron.{
  has, parse_field, compile_parts, compile_cron, CronMatcher, Date, matches,
}
use node_red_contrib_eelectr.Util.Cron.Counts.{covers, covers_ext, length-covers}
use node_red_contrib_eelectr.Util.Cron.Pieces.{Piece, IsPiece, piece_text, accepts}
use node_red_contrib_eelectr.Util.Cron.Fields.{
  field_text, piece_nonempty, accepts_any, ArePieces, spaceless-field, append_nonempty,
  parse_field-text,
}
use node_red_contrib_eelectr.Util.Cron.Words.{IsWord, AreWords, joined, split-words, sevens_absent}

pub record Field : Type 0 where
  pub first : Piece
  pub others : List Piece

abbrev text_of : Field → Text
text_of f = field_text f.first f.others

abbrev IsField : ℕ → ℕ → Field → Type 0
IsField min max f = ArePieces min max (f.first ∷ f.others)

abbrev stands_for : ℕ → ℕ → Field → ℕ → Bool
stands_for min max f v = accepts_any min max (f.first ∷ f.others) v

pub record Expression : Type 0 where
  pub minute_field : Field
  pub hour_field : Field
  pub dom_field : Field
  pub month_field : Field
  pub dow_field : Field

abbrev words_after : Expression → List Text
words_after e =
    text_of e.hour_field ∷ text_of e.dom_field ∷ text_of e.month_field ∷ text_of e.dow_field ∷ []

abbrev pub expression_text : Expression → Text
expression_text e = joined (text_of e.minute_field) (words_after e)

-- Bounds, and no 7 among the days of the week.
pub record IsExpression (e : Expression) : Type 0 where
  pub minute_ok : IsField 0 59 e.minute_field
  pub hour_ok : IsField 0 23 e.hour_field
  pub dom_ok : IsField 1 31 e.dom_field
  pub month_ok : IsField 1 12 e.month_field
  pub dow_ok : IsField 0 6 e.dow_field
  pub no_seven : includes b'7' (text_of e.dow_field) ≡ false

abbrev any_day : Field → Bool
any_day f = covers 31 1 (stands_for 1 31 f)

abbrev any_weekday : Field → Bool
any_weekday f = covers 7 0 (stands_for 0 6 f)

-- The dates of an expression: if both the days of the month and those of the week are restricted, one of the
-- two has to fit, and otherwise both.
abbrev pub falls_on : Expression → Date → Bool
falls_on e d =
    let day = stands_for 1 31 e.dom_field d.dom in
    let weekday = stands_for 0 6 e.dow_field d.dow in
    stands_for 0 59 e.minute_field d.minute
    && (stands_for 0 23 e.hour_field d.hour
        && (stands_for 1 12 e.month_field d.month
            && (if not (any_day e.dom_field) && not (any_weekday e.dow_field)
                then day || weekday
                else day && weekday)))

accepts-range :
    (min max v : ℕ) (p : Piece)
    → IsPiece min max p
    → accepts min max p v ≡ true
    → (min ≤ v) × (v ≤ max)
accepts-range min max v p h r = ground (arith, h.low, h.high, r)

accepts_any-range :
    (min max v : ℕ) (ps : List Piece)
    → ArePieces min max ps
    → accepts_any min max ps v ≡ true
    → (min ≤ v) × (v ≤ max)
accepts_any-range min max v [] h r = absurd (ground (arith, r))
accepts_any-range min max v (p ∷ ps) (h, hs) r = elim (Bool-cases (accepts min max p v)) [
  | inl a ↦ accepts-range min max v p h a
  | inr a ↦ accepts_any-range min max v ps hs (ground (arith, a, r))
]

field_nonempty : (p : Piece) (ps : List Piece) → 1 ≤ length (field_text p ps)
field_nonempty p [] = piece_nonempty p
field_nonempty p (q ∷ qs) =
    append_nonempty (piece_text p) (b',' ∷ field_text q qs) (piece_nonempty p)

text-IsWord : (f : Field) → IsWord (text_of f)
text-IsWord f = record {
  no_space = spaceless-field f.first f.others;
  nonempty = field_nonempty f.first f.others;
}

words_ok : (e : Expression) → AreWords (text_of e.minute_field ∷ words_after e)
words_ok e = (
  text-IsWord e.minute_field,
  (
    text-IsWord e.hour_field,
    (text-IsWord e.dom_field, (text-IsWord e.month_field, (text-IsWord e.dow_field, tt))),
  ),
)

read_field :
    (min max n : ℕ) (f : Field)
    → max < min + n
    → min + n ≤ suc max
    → IsField min max f
    → (vs : List ℕ) × (parse_field (text_of f) min max ≡ ok vs)
      × ((v : ℕ) → has v vs ≡ stands_for min max f v)
      × ((length vs == n) ≡ covers n min (stands_for min max f))
read_field min max n f a b h =
    let (vs, r, q, d) = parse_field-text min max f.first f.others h in
    (
      vs,
      r,
      q,
      length-covers n min vs d (λ v t.
            let (below, above) =
              accepts_any-range min max v (f.first ∷ f.others) h (rw (sym (q v)) t) in
            (below, omega (arith, above, a, b)))
          ∙ covers_ext n min (λ v. has v vs) (stands_for min max f) q,
    )

-- An expression that is written out, with bounds in the ranges of the fields, a space between its fields, no 7
-- among the days of the week, and steps above 0 that parseInt does not read as Infinity, compiles. What it compiles to matches a date exactly if the minute, the hour and the month are
-- each a number of their field, and of the day of the month and the day of the week one is if both fields leave
-- out some day, and both are otherwise. A number of a field is one of a piece's numbers: the ones
-- from the piece's lower bound to its upper bound, a step apart, where a single number is both bounds.
pub matches-compile_cron :
    (e : Expression) (d : Date)
    → IsExpression e
    → (m : CronMatcher) × (compile_cron (expression_text e) ≡ ok m) × (matches m d ≡ falls_on e d)
unfolding compile_cron compile_parts matches
matches-compile_cron e d h =
    let (minutes, r1, q1, l1) =
      read_field 0 59 60 e.minute_field (omega arith) (omega arith) h.minute_ok in
    let (hours, r2, q2, l2) =
      read_field 0 23 24 e.hour_field (omega arith) (omega arith) h.hour_ok in
    let (doms, r3, q3, l3) = read_field 1 31 31 e.dom_field (omega arith) (omega arith) h.dom_ok in
    let (months, r4, q4, l4) =
      read_field 1 12 12 e.month_field (omega arith) (omega arith) h.month_ok in
    let (dows, r5, q5, l5) = read_field 0 6 7 e.dow_field (omega arith) (omega arith) h.dow_ok in
    (
      record { minutes = minutes; hours = hours; doms = doms; months = months; dows = dows },
      rw (split-words (text_of e.minute_field) (words_after e) (words_ok e)) (
          rw (sevens_absent false (text_of e.dow_field) h.no_seven)
            (rw r1 (rw r2 (rw r3 (rw r4 (rw r5 refl)))))),
      rw (q1 d.minute)
          (rw (q2 d.hour) (rw (q4 d.month) (rw (q3 d.dom) (rw (q5 d.dow) (rw l3 (rw l5 refl)))))),
    )
