-- ===== src/Core/Text.antt =====
-- Decimal text as the address classes of src/core read and print it. A string is the list of its
-- character codes. `show` is a template literal's `${n}`, `parse_int` is `Number.parseInt(s, 10)`
-- on a string of digits, and `split_on` stands for a regular expression's literal separators.
pub mod ParseInt
use node_red_contrib_eelectr.Base.{
  ℕ, zero, suc, ◌+◌, ◌-◌, ◌*◌, ◌/◌, ◌%◌, ◌^◌, ◌≤◌, ◌<◌, ◌≡◌, refl, Bool, true, false, ◌&&◌, List,
  [], ◌∷◌, ◌++◌, arith, ltb, leb, ◌==◌, if◌then◌else◌, length, length-append,
}
use native.Mathlib.Nat.{pow-suc}

abbrev pub Text : Type 0
Text = List ℕ

-- `\d`.
abbrev pub is_digit : ℕ → Bool
is_digit c = leb b'0' c && leb c b'9'

unfoldable pub all_digits : Text → Bool
all_digits [] = true
all_digits (c ∷ cs) = is_digit c && all_digits cs

-- `\d{1,m}` on a whole segment.
unfoldable pub is_field : ℕ → Text → Bool
unfolding all_digits
is_field m s = leb 1 (length s) && leb (length s) m && all_digits s

parse_from : ℕ → Text → ℕ
parse_from acc [] = acc
parse_from acc (c ∷ cs) = parse_from (acc * 10 + (c - b'0')) cs

unfoldable pub parse_int : Text → ℕ
unfolding parse_from
parse_int = parse_from 0

show_loop : ℕ → ℕ → Text
show_loop zero n = []
show_loop (suc f) n =
    let front = show_loop f (n / 10) in
    if ltb n 10 then (b'0' + n) ∷ [] else front ++ ((b'0' + n % 10) ∷ [])

-- Each round divides by ten, so `n + 1` rounds are enough.
unfoldable pub show : ℕ → Text
unfolding show_loop
show n = show_loop (suc n) n

abbrev push : ℕ → List Text → List Text
push c [] = (c ∷ []) ∷ []
push c (s ∷ ss) = (c ∷ s) ∷ ss

unfoldable pub split_on : ℕ → Text → List Text
split_on sep [] = [] ∷ []
split_on sep (c ∷ cs) = if c == sep then [] ∷ split_on sep cs else push c (split_on sep cs)

all_digits-append :
    (xs ys : Text) → all_digits xs ≡ true → all_digits ys ≡ true → all_digits (xs ++ ys) ≡ true
unfolding all_digits
all_digits-append [] ys h k = k
all_digits-append (x ∷ xs) ys h k = ground (arith, all_digits-append xs ys)

parse_from_snoc :
    (acc c : ℕ) (xs : Text) → parse_from acc (xs ++ c ∷ []) ≡ parse_from acc xs * 10 + (c - b'0')
unfolding parse_from
parse_from_snoc acc c [] = refl
parse_from_snoc acc c (x ∷ xs) = parse_from_snoc (acc * 10 + (x - b'0')) c xs

parse-show_loop : (f n : ℕ) → n < f → parse_from 0 (show_loop f n) ≡ n
unfolding parse_from show_loop
parse-show_loop zero n h = absurd (omega arith)
parse-show_loop (suc f) n h =
    ground
      (arith, parse-show_loop f (n / 10), parse_from_snoc 0 (b'0' + n % 10) (show_loop f (n / 10)))

show_loop-digits : (f n : ℕ) → all_digits (show_loop f n) ≡ true
unfolding all_digits show_loop
show_loop-digits zero n = refl
show_loop-digits (suc f) n = ground (
  arith,
  show_loop-digits f (n / 10),
  all_digits-append (show_loop f (n / 10)) ((b'0' + n % 10) ∷ []),
)

show_loop-length :
    (f n k : ℕ)
    → n < f
    → n < 10 ^ suc k
    → (1 ≤ length (show_loop f n)) × (length (show_loop f n) ≤ suc k)
unfolding show_loop
show_loop-length zero n k h p = absurd (omega arith)
show_loop-length (suc f) n zero h p = ground arith
show_loop-length (suc f) n (suc k) h p = ground (
  arith,
  pow-suc 10 (suc k),
  show_loop-length f (n / 10) k,
  length-append (show_loop f (n / 10)) ((b'0' + n % 10) ∷ []),
)

-- Reading back what was printed.
pub parse_int-show : (n : ℕ) → parse_int (show n) ≡ n
unfolding parse_int show
parse_int-show n = parse-show_loop (suc n) n (omega arith)

-- A printed number is not empty.
pub show_nonempty : (n : ℕ) → 1 ≤ length (show n)
unfolding show show_loop
show_nonempty n = ground (arith, length-append (show_loop n (n / 10)) ((b'0' + n % 10) ∷ []))

pub show-digits : (n : ℕ) → all_digits (show n) ≡ true
unfolding show
show-digits n = show_loop-digits (suc n) n

-- A number below 10 ^ (k + 1) is a field of at most k + 1 digits.
pub show-is_field : (k n : ℕ) → n < 10 ^ suc k → is_field (suc k) (show n) ≡ true
unfolding is_field show
show-is_field k n h = ground (arith, show_loop-length (suc n) n k, show_loop-digits (suc n) n)

-- A separator ends the segment in front of it, if that is made of digits.
pub split_on-append :
    (sep : ℕ) (xs ys : Text)
    → is_digit sep ≡ false
    → all_digits xs ≡ true
    → split_on sep (xs ++ sep ∷ ys) ≡ xs ∷ split_on sep ys
unfolding all_digits split_on
split_on-append sep [] ys h d = ground arith
split_on-append sep (x ∷ xs) ys h d = ground (arith, split_on-append sep xs ys h)

pub split_on-digits :
    (sep : ℕ) (xs : Text) → is_digit sep ≡ false → all_digits xs ≡ true → split_on sep xs ≡ xs ∷ []
unfolding all_digits split_on
split_on-digits sep [] h d = refl
split_on-digits sep (x ∷ xs) h d = ground (arith, split_on-digits sep xs h)

pub not-digits-append :
    (sep : ℕ) (xs ys : Text) → is_digit sep ≡ false → all_digits (xs ++ sep ∷ ys) ≡ false
unfolding all_digits
not-digits-append sep [] ys h = ground arith
not-digits-append sep (x ∷ xs) ys h = ground (arith, not-digits-append sep xs ys h)
