-- ===== src/Util/Cron.antt =====
-- src/util/cron.ts: expressions of five fields, and the dates that they match. A Set of numbers is a list
-- without duplicates, and a date is what its local getters return.
pub mod Steps
pub mod Counts
pub mod Pieces
pub mod Fields
pub mod Words
pub mod Expressions
use node_red_contrib_eelectr.Base.{
  ℕ, zero, suc, ◌+◌, ◌-◌, ◌^◌, Bool, true, false, not, ◌&&◌, ◌||◌, ◌==◌, ltb, leb, if◌then◌else◌,
  Option, none, some, List, [], ◌∷◌, ◌++◌, length, Result, ok, err, ◌>>=◌, ◌>>◌, throw_if,
  plain_error, list_eq,
}
use node_red_contrib_eelectr.Core.Text.{Text, is_digit, split_on}
use node_red_contrib_eelectr.Core.Text.ParseInt.{is_space, parse_int_radix}
use node_red_contrib_eelectr.Core.GaMatcher.{includes, trim, star}

unfoldable pub has : ℕ → List ℕ → Bool
has v [] = false
has v (x ∷ xs) = x == v || has v xs

-- `piece.indexOf('/')` and the two slices, if there is one.
unfoldable pub cut_at : ℕ → Text → Option (Text × Text)
cut_at c [] = none
cut_at c (d ∷ s) =
    let rest = cut_at c s in
    if d == c then some ([], s) else elim rest [ none ↦ none | some (a, b) ↦ some (d ∷ a, b) ]

-- From here on parseInt gives Infinity, which is no integer.
unfoldable pub infinite_from : ℕ
infinite_from = 2 ^ 1024 - 2 ^ 970

-- A step has to be a positive integer.
unfoldable pub step_of : Option (Bool × ℕ) → Result ℕ
step_of none = err plain_error
step_of (some (negative, n)) = do
  throw_if (negative || (n == 0 || leb infinite_from n)) plain_error
  ok n

-- A bound has to be an integer; one below zero is out of every range.
unfoldable pub bound_of : Option (Bool × ℕ) → Result ℕ
bound_of none = err plain_error
bound_of (some (negative, n)) = do throw_if (negative && not (n == 0)) plain_error; ok n

range_of : List Text → Result (ℕ × ℕ)
range_of (a ∷ b ∷ rest) = do
  lo ← bound_of (parse_int_radix 10 a)
  hi ← bound_of (parse_int_radix 10 b)
  ok (lo, hi)
range_of _ = err plain_error

single : Result ℕ → Result (ℕ × ℕ)
single (err e) = err e
single (ok n) = ok (n, n)

unfoldable pub span_of : Text → ℕ → ℕ → Result (ℕ × ℕ)
unfolding range_of single
span_of body min max =
    if list_eq body star || list_eq body []
    then ok (min, max)
    else if includes b'-' body
    then range_of (split_on b'-' body)
    else single (bound_of (parse_int_radix 10 body))

-- `for (let v = lo; v <= hi; v += step) out.push(v)`, with as many rounds as are left.
unfoldable pub steps : ℕ → ℕ → ℕ → ℕ → List ℕ
steps zero v hi step = []
steps (suc rounds) v hi step =
    let rest = steps rounds (v + step) hi step in if leb v hi then v ∷ rest else []

unfoldable pub expand : Text → Result ℕ → ℕ → ℕ → Result (List ℕ)
expand body step min max = do
  n ← step
  (lo, hi) ← span_of body min max
  throw_if (ltb lo min || (ltb max hi || ltb hi lo)) plain_error
  ok (steps (suc (hi - lo)) lo hi n)

expand_cut : Option (Text × Text) → Text → ℕ → ℕ → Result (List ℕ)
expand_cut none piece min max = expand piece (ok 1) min max
expand_cut (some (body, step)) piece min max =
    expand body (step_of (parse_int_radix 10 step)) min max

unfoldable pub expand_piece : Text → ℕ → ℕ → Result (List ℕ)
unfolding expand_cut
expand_piece piece min max = expand_cut (cut_at b'/' piece) piece min max

-- `values.add(v)` for each `v`.
unfoldable pub add_all : List ℕ → List ℕ → List ℕ
add_all [] values = values
add_all (v ∷ vs) values = add_all vs (if has v values then values else values ++ (v ∷ []))

unfoldable pub parse_pieces : List Text → ℕ → ℕ → List ℕ → Result (List ℕ)
parse_pieces [] min max values = ok values
parse_pieces (piece ∷ pieces) min max values = do
  throw_if (list_eq (trim piece) []) plain_error
  expanded ← expand_piece (trim piece) min max
  parse_pieces pieces min max (add_all expanded values)

unfoldable pub parse_field : Text → ℕ → ℕ → Result (List ℕ)
parse_field raw min max = parse_pieces (split_on b',' raw) min max []

-- `.replace(/\s+/g, ' ')`; the flag tells that the character before was a space.
unfoldable pub collapse : Bool → Text → Text
collapse spaced [] = []
collapse spaced (c ∷ s) =
    let rest = collapse (is_space c) s in
    if is_space c then (if spaced then rest else 0x20 ∷ rest) else c ∷ rest

-- `[\d-]`, and whether a text begins with one.
beside : ℕ → Bool
beside c = is_digit c || c == b'-'

begins_beside : Text → Bool
unfolding beside
begins_beside [] = false
begins_beside (c ∷ s) = beside c

-- `.replace(/(?<![\d-])7(?![\d-])/g, '0')`; the flag is what the lookbehind sees.
unfoldable pub sevens : Bool → Text → Text
unfolding beside begins_beside
sevens behind [] = []
sevens behind (c ∷ s) =
    (if c == b'7' && not (behind || begins_beside s) then b'0' else c) ∷ sevens (beside c) s

pub record CronMatcher : Type 0 where
  pub minutes : List ℕ
  pub hours : List ℕ
  pub doms : List ℕ
  pub months : List ℕ
  pub dows : List ℕ

compile_parts : List Text → Result CronMatcher
compile_parts (minute ∷ hour ∷ dom ∷ month ∷ dow ∷ []) = do
  minutes ← parse_field minute 0 59
  hours ← parse_field hour 0 23
  doms ← parse_field dom 1 31
  months ← parse_field month 1 12
  dows ← parse_field (sevens false dow) 0 6
  ok (record { minutes = minutes; hours = hours; doms = doms; months = months; dows = dows })
compile_parts _ = err plain_error

unfoldable pub compile_cron : Text → Result CronMatcher
unfolding compile_parts
compile_cron expression = compile_parts (split_on 0x20 (collapse false (trim expression)))

-- The month counts from 1, as `getMonth() + 1` does, and Sunday is the day 0.
pub record Date : Type 0 where
  pub minute : ℕ
  pub hour : ℕ
  pub dom : ℕ
  pub month : ℕ
  pub dow : ℕ

unfoldable pub matches : CronMatcher → Date → Bool
matches m d =
    has d.minute m.minutes
    && (has d.hour m.hours
        && (has d.month m.months
            && (if not (length m.doms == 31) && not (length m.dows == 7)
                then has d.dom m.doms || has d.dow m.dows
                else has d.dom m.doms && has d.dow m.dows)))
