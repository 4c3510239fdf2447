-- ===== src/Base/Errors.antt =====
-- src/core/errors.ts and the other errors that the source throws, as values. Messages are left
-- out: a constructor stands for the error class.
use Prim.Native.Nat.{ℕ}
use mathlib.Core.List.{List, [], ◌++◌, append-nil}
use node_red_contrib_eelectr.Base.Lists.{length}
use mathlib.Core.Path.{◌≡◌, refl}
use mathlib.Core.Logic.{◌⊎◌, inl, inr}
use mathlib.Core.Bool.{Bool, true, false}

pub data Error : Type 0 where
  could_not_parse_knxip incomplete_knxip_frame could_not_parse_cemi conversion_error : Error
  could_not_parse_address type_error range_error communication_error plain_error : Error
  unsupported_knxip_service : ℕ → Error

-- What a call of a function returns, or what it throws.
pub data Result {i} (V : Type i) : Type i where
  err : Error → Result V
  ok : V → Result V

-- The rest of a function behind a call: an error passes through it.
infixl 5 ◌>>=◌ ◌>>◌
abbrev pub ◌>>=◌ {i j} : {V : Type i} {W : Type j} → Result V → (V → Result W) → Result W
err thrown >>= rest = err thrown
ok value >>= rest = rest value

-- `if (b) throw e`.
abbrev pub throw_if : Bool → Error → Result (Unit {0})
throw_if false thrown = ok tt
throw_if true thrown = err thrown

abbrev pub ◌>>◌ {i} : {W : Type i} → Result (Unit {0}) → Result W → Result W
test >> rest = test >>= λ _. rest

-- A writer and a parser that agree at a value: the writer succeeds, its output has the announced
-- length, and the parser reads the value back with that many bytes consumed.
pub record RoundTrip {A : Type 0} (to : A → Result (List ℕ)) (from : List ℕ → Result (A × ℕ))
    (n : ℕ) (a : A) : Type 0 where
  pub raw : List ℕ
  pub written : to a ≡ ok raw
  pub counted : length raw ≡ n
  pub parsed : from raw ≡ ok (a, n)

-- The same for a parser that stops by itself, whatever follows.
pub record PrefixRoundTrip {A : Type 0} (to : A → Result (List ℕ)) (from : List ℕ → Result (A × ℕ))
    (n : ℕ) (a : A) : Type 0 where
  pub raw : List ℕ
  pub written : to a ≡ ok raw
  pub counted : length raw ≡ n
  pub parsed : (rest : List ℕ) → from (raw ++ rest) ≡ ok (a, n)

pub closed_round_trip :
    {A : Type 0} (to : A → Result (List ℕ)) (from : List ℕ → Result (A × ℕ)) (n : ℕ) (a : A)
    → PrefixRoundTrip to from n a
    → RoundTrip to from n a
closed_round_trip to from n a p = record {
  raw = p.raw;
  written = p.written;
  counted = p.counted;
  parsed = rw append-nil at (p.parsed []);
}

-- What a call that returns has done: its first part returned, and the rest after it.
pub >>=-eq-ok {i j} :
    {V : Type i} {W : Type j} (m : Result V) (f : V → Result W) {w : W}
    → (m >>= f) ≡ ok w
    → (v : V) × (m ≡ ok v) × (f v ≡ ok w)
>>=-eq-ok (ok v) f h = (v, refl, h)
>>=-eq-ok (err e) f h = cc

-- A test that did not throw was false.
pub throw_if-eq-ok {j} :
    {W : Type j} (b : Bool) (e : Error) (m : Result W) {w : W}
    → (throw_if b e >> m) ≡ ok w
    → (b ≡ false) × (m ≡ ok w)
throw_if-eq-ok false e m h = (refl, h)
throw_if-eq-ok true e m h = cc

pub Result-cases {i} :
    {V : Type i} (r : Result V) → ((e : Error) × (r ≡ err e)) ⊎ ((v : V) × (r ≡ ok v))
Result-cases (err e) = inl (e, refl)
Result-cases (ok v) = inr (v, refl)
