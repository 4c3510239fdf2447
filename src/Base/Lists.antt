-- ===== src/Base/Lists.antt =====
-- Lists measured by native numbers. A Node `Buffer` is a list of byte values.
use Prim.Native.Nat.{ℕ, zero, suc, ◌+◌, ◌-◌, ◌*◌, ◌/◌, ◌%◌, ◌^◌, ◌≤◌, ◌<◌, min}
use mathlib.Core.Path.{◌≡◌, refl, ap}
use mathlib.Core.Bool.{Bool, true, false, ◌&&◌}
use node_red_contrib_eelectr.Base.Tests.{◌==◌}
use mathlib.Core.List.{List, [], ◌∷◌, ◌++◌}
use native.Mathlib.Omega.{arith}

module _ {ℓ} {A : Type ℓ} where
  abbrev pub length : List A → ℕ
  length [] = 0
  length (x ∷ xs) = suc (length xs)

  abbrev pub get_or : List A → ℕ → A → A
  get_or [] i d = d
  get_or (x ∷ xs) zero d = x
  get_or (x ∷ xs) (suc i) d = get_or xs i d

  abbrev pub take : ℕ → List A → List A
  take zero xs = []
  take (suc n) [] = []
  take (suc n) (x ∷ xs) = x ∷ take n xs

  abbrev pub drop : ℕ → List A → List A
  drop zero xs = xs
  drop (suc n) [] = []
  drop (suc n) (x ∷ xs) = drop n xs

  pub length-append : (xs ys : List A) → length (xs ++ ys) ≡ length xs + length ys
  length-append [] ys = omega arith
  length-append (x ∷ xs) ys = omega (arith, length-append xs ys)

  pub length-take : (n : ℕ) (xs : List A) → length (take n xs) ≡ min n (length xs)
  length-take zero xs = omega arith
  length-take (suc n) [] = omega arith
  length-take (suc n) (x ∷ xs) = omega (arith, length-take n xs)

  pub length-drop : (n : ℕ) (xs : List A) → length (drop n xs) ≡ length xs - n
  length-drop zero xs = omega arith
  length-drop (suc n) [] = omega arith
  length-drop (suc n) (x ∷ xs) = omega (arith, length-drop n xs)

  pub take-append : (n : ℕ) (xs ys : List A) → n ≤ length xs → take n (xs ++ ys) ≡ take n xs
  take-append zero xs ys h = refl
  take-append (suc n) [] ys h = absurd (omega arith)
  take-append (suc n) (x ∷ xs) ys h = ap (◌∷◌ x) (take-append n xs ys (omega arith))

  pub drop-append : (n : ℕ) (xs ys : List A) → n ≤ length xs → drop n (xs ++ ys) ≡ drop n xs ++ ys
  drop-append zero xs ys h = refl
  drop-append (suc n) [] ys h = absurd (omega arith)
  drop-append (suc n) (x ∷ xs) ys h = drop-append n xs ys (omega arith)

  pub take-length_append : (xs ys : List A) → take (length xs) (xs ++ ys) ≡ xs
  take-length_append [] ys = refl
  take-length_append (x ∷ xs) ys = ap (◌∷◌ x) (take-length_append xs ys)

  pub drop-length_append : (xs ys : List A) → drop (length xs) (xs ++ ys) ≡ ys
  drop-length_append [] ys = refl
  drop-length_append (x ∷ xs) ys = drop-length_append xs ys

  pub get_or-append :
      (xs ys : List A) (i : ℕ) (d : A) → i < length xs → get_or (xs ++ ys) i d ≡ get_or xs i d
  get_or-append [] ys i d h = absurd (omega arith)
  get_or-append (x ∷ xs) ys zero d h = refl
  get_or-append (x ∷ xs) ys (suc i) d h = get_or-append xs ys i d (omega arith)

  abbrev pub All {κ} : (A → Type κ) → List A → Type κ
  All P [] = Unit {κ}
  All P (x ∷ xs) = P x × All P xs

abbrev pub Bytes : Type 0
Bytes = List ℕ

abbrev pub IsByte : ℕ → Type 0
IsByte b = b < 256

-- `buf[i]`. Every read in the source stands behind a length check, so the default is never seen.
abbrev pub byte_at : Bytes → ℕ → ℕ
byte_at raw i = get_or raw i 0

-- `buf.readUInt16BE(i)`.
abbrev pub read_u16 : Bytes → ℕ → ℕ
read_u16 raw i = byte_at raw i * 256 + byte_at raw (suc i)

-- The two bytes that `writeUInt16BE` stores, for a value in range.
abbrev pub u16_be : ℕ → Bytes
u16_be v = v / 256 ∷ v % 256 ∷ []

module _ {ℓ} {A : Type ℓ} where
  pub take-exact : (n : ℕ) (xs ys : List A) → length xs ≡ n → take n (xs ++ ys) ≡ xs
  take-exact n xs ys h = rw (← h) (take-length_append xs ys)

  pub drop-exact : (n : ℕ) (xs ys : List A) → length xs ≡ n → drop n (xs ++ ys) ≡ ys
  drop-exact n xs ys h = rw (← h) (drop-length_append xs ys)

  pub take-all : (n : ℕ) (xs : List A) → length xs ≤ n → take n xs ≡ xs
  take-all zero [] h = refl
  take-all zero (x ∷ xs) h = absurd (omega arith)
  take-all (suc n) [] h = refl
  take-all (suc n) (x ∷ xs) h = ap (◌∷◌ x) (take-all n xs (omega arith))

-- `buf.readUInt32BE(i)` and the 48-bit reads of the secure bodies.
abbrev pub read_u32 : Bytes → ℕ → ℕ
read_u32 raw i = read_u16 raw i * 2 ^ 16 + read_u16 raw (suc (suc i))

abbrev pub read_u48 : Bytes → ℕ → ℕ
read_u48 raw i = read_u16 raw i * 2 ^ 32 + read_u32 raw (suc (suc i))

-- The four bytes that `writeUInt32BE` stores.
abbrev pub u32_be : ℕ → Bytes
u32_be v = u16_be (v / 2 ^ 16) ++ u16_be (v % 2 ^ 16)

-- The six bytes of `writeUInt48BE`: the high 16 bits, then the low 32.
abbrev pub u48_be : ℕ → Bytes
u48_be v = u16_be (v / 2 ^ 32) ++ u32_be (v % 2 ^ 32)

abbrev pub concat {ℓ} : {A : Type ℓ} → List (List A) → List A
concat [] = []
concat (xs ∷ xss) = xs ++ concat xss

pub take-append_drop {ℓ} : {A : Type ℓ} (n : ℕ) (xs : List A) → take n xs ++ drop n xs ≡ xs
take-append_drop zero xs = refl
take-append_drop (suc n) [] = refl
take-append_drop (suc n) (x ∷ xs) = ap (◌∷◌ x) (take-append_drop n xs)

-- `===` on strings, and `equals` on buffers.
unfoldable pub list_eq : List ℕ → List ℕ → Bool
list_eq [] [] = true
list_eq (a ∷ s) (b ∷ t) = a == b && list_eq s t
list_eq _ _ = false

pub list_eq_self : (k : List ℕ) → list_eq k k ≡ true
unfolding list_eq
list_eq_self [] = refl
list_eq_self (c ∷ k) = ground (arith, list_eq_self k)

pub list_eq_sound : (k l : List ℕ) → list_eq k l ≡ true → k ≡ l
unfolding list_eq
list_eq_sound [] [] h = refl
list_eq_sound [] (d ∷ l) h = absurd (ground arith)
list_eq_sound (c ∷ k) [] h = absurd (ground arith)
list_eq_sound (c ∷ k) (d ∷ l) h = ground (arith, list_eq_sound k l, h)
