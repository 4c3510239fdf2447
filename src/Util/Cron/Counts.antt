-- ===== src/Util/Cron/Counts.antt =====
-- How many numbers a Set of a range holds.
use node_red_contrib_eelectr.Base.{
  ℕ, zero, suc, ◌+◌, ◌≤◌, ◌<◌, ◌≡◌, refl, arith, Bool, true, false, not, ◌&&◌, ◌==◌, if◌then◌else◌,
  List, [], ◌∷◌, ◌++◌, length, Bool-cases, inl, inr,
}
use node_red_contrib_eelectr.Util.Cron.{has, add_all}
use node_red_contrib_eelectr.Util.Cron.Steps.{has-append}

unfoldable pub distinct : List ℕ → Bool
unfolding has
distinct [] = true
distinct (x ∷ xs) = not (has x xs) && distinct xs

unfoldable count : ℕ → ℕ → (ℕ → Bool) → ℕ
count zero lo f = 0
count (suc n) lo f = (if f lo then 1 else 0) + count n (suc lo) f

-- Whether a test holds of the `n` numbers from `lo` on.
unfoldable pub covers : ℕ → ℕ → (ℕ → Bool) → Bool
covers zero lo f = true
covers (suc n) lo f = f lo && covers n (suc lo) f

distinct-snoc :
    (xs : List ℕ) (v : ℕ) → distinct xs ≡ true → has v xs ≡ false → distinct (xs ++ (v ∷ [])) ≡ true
unfolding distinct has
distinct-snoc [] v d h = refl
distinct-snoc (x ∷ xs) v d h = ground (arith, d, h, distinct-snoc xs v, has-append x xs (v ∷ []))

pub distinct-add_all :
    (xs values : List ℕ) → distinct values ≡ true → distinct (add_all xs values) ≡ true
unfolding add_all
distinct-add_all [] values d = d
distinct-add_all (x ∷ xs) values d = elim (Bool-cases (has x values)) [
  | inl h ↦ rw h (distinct-add_all xs values d)
  | inr h ↦ rw h (distinct-add_all xs (values ++ (x ∷ [])) (distinct-snoc values x d h))
]

count_ext : (n lo : ℕ) (f g : ℕ → Bool) → ((v : ℕ) → f v ≡ g v) → count n lo f ≡ count n lo g
unfolding count
count_ext zero lo f g e = refl
count_ext (suc n) lo f g e = rw (e lo) (rw (count_ext n (suc lo) f g e) refl)

pub covers_ext : (n lo : ℕ) (f g : ℕ → Bool) → ((v : ℕ) → f v ≡ g v) → covers n lo f ≡ covers n lo g
unfolding covers
covers_ext zero lo f g e = refl
covers_ext (suc n) lo f g e = rw (e lo) (rw (covers_ext n (suc lo) f g e) refl)

count_none : (n lo : ℕ) → count n lo (λ v. has v []) ≡ 0
unfolding count has
count_none zero lo = refl
count_none (suc n) lo = ground (arith, count_none n (suc lo))

count_below :
    (n lo x : ℕ) (xs : List ℕ)
    → x < lo
    → count n lo (λ v. has v (x ∷ xs)) ≡ count n lo (λ v. has v xs)
unfolding count has
count_below zero lo x xs h = refl
count_below (suc n) lo x xs h = ground (arith, h, count_below n (suc lo) x xs)

count_more :
    (n lo x : ℕ) (xs : List ℕ)
    → lo ≤ x
    → x < lo + n
    → has x xs ≡ false
    → count n lo (λ v. has v (x ∷ xs)) ≡ suc (count n lo (λ v. has v xs))
unfolding count has
count_more zero lo x xs a b h = absurd (omega arith)
count_more (suc n) lo x xs a b h =
    ground (arith, a, b, h, count_below n (suc lo) x xs, count_more n (suc lo) x xs)

abbrev pub InRange : ℕ → ℕ → List ℕ → Type 0
InRange n lo xs = (v : ℕ) → has v xs ≡ true → (lo ≤ v) × (v < lo + n)

length-count :
    (n lo : ℕ) (xs : List ℕ)
    → distinct xs ≡ true
    → InRange n lo xs
    → length xs ≡ count n lo (λ v. has v xs)
unfolding distinct has
length-count n lo [] d r = ground (arith, count_none n lo)
length-count n lo (x ∷ xs) d r = ground (
  arith,
  d,
  r x,
  count_more n lo x xs,
  length-count n lo xs (ground (arith, d)) (λ v h. r v (ground (arith, h))),
)

count-covers :
    (n lo : ℕ) (f : ℕ → Bool) → (count n lo f ≤ n) × ((count n lo f == n) ≡ covers n lo f)
unfolding count covers
count-covers zero lo f = (omega arith, refl)
count-covers (suc n) lo f = ground (arith, count-covers n (suc lo) f)

-- A Set of numbers of a range is as large as the range exactly if it holds all of them.
pub length-covers :
    (n lo : ℕ) (xs : List ℕ)
    → distinct xs ≡ true
    → InRange n lo xs
    → (length xs == n) ≡ covers n lo (λ v. has v xs)
length-covers n lo xs d r =
    ground (arith, length-count n lo xs d r, count-covers n lo (λ v. has v xs))
