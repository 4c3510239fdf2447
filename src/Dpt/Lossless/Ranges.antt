-- ===== src/Dpt/Lossless/Ranges.antt =====
-- The range tests of the codecs, and the bytes that integers are written in.
use node_red_contrib_eelectr.Base.{
  ℕ, ◌-◌, ◌*◌, ◌/◌, ◌%◌, ◌^◌, ◌≤◌, ◌<◌, ◌≡◌, refl, arith, Bool, true, false, ◌&&◌, [], ◌∷◌, Result,
  ok, err, ◌>>=◌, u16_be, u32_be, read_u16, read_u32, conversion_error, Bool-cases, inl, inr,
}
use node_red_contrib_eelectr.Core.Apci.{bytes}
use node_red_contrib_eelectr.Dpt.Codec.{
  ℤ, pos, negsuc, buffer_from, in_range, fits_in, to_signed, from_signed, fits_signed, one_byte,
  two_bytes, four_bytes,
}

pub record Ranged (min max : ℕ) (v : ℤ) : Type 0 where
  pub n : ℕ
  pub is_n : v ≡ pos n
  pub taken : in_range min max v ≡ ok n
  pub low : min ≤ n
  pub high : n ≤ max

pub in_range-fits : (min max : ℕ) (v : ℤ) → fits_in min max v ≡ true → Ranged min max v
unfolding in_range
in_range-fits min max (negsuc n) h = absurd (ground (arith, h))
in_range-fits min max (pos n) h = record {
  n = n;
  is_n = refl;
  taken = ground (arith, h);
  low = ground (arith, h);
  high = ground (arith, h);
}

pub in_range_refuses :
    (min max : ℕ) (v : ℤ) → fits_in min max v ≡ false → in_range min max v ≡ err conversion_error
unfolding in_range
in_range_refuses min max (negsuc n) h = refl
in_range_refuses min max (pos n) h = ground (arith, h)

pub record Stored (half : ℕ) (v : ℤ) : Type 0 where
  pub n : ℕ
  pub taken : to_signed half v ≡ ok n
  pub high : n < 2 * half
  pub back : from_signed half n ≡ v

pub to_signed-fits : (half : ℕ) (v : ℤ) → fits_signed half v ≡ true → Stored half v
unfolding to_signed from_signed
to_signed-fits half (pos n) h = record {
  n = n;
  taken = ground (arith, h);
  high = ground (arith, h);
  back = ground (arith, h);
}
to_signed-fits half (negsuc n) h = record {
  n = 2 * half - 1 - n;
  taken = ground (arith, h);
  high = ground (arith, h);
  back = ground (arith, h);
}

pub to_signed_refuses :
    (half : ℕ) (v : ℤ)
    → 0 < half
    → fits_signed half v ≡ false
    → to_signed half v ≡ err conversion_error
unfolding to_signed
to_signed_refuses half (pos n) p h = ground (arith, h)
to_signed_refuses half (negsuc n) p h = ground (arith, h)

pub one_byte_lem : (n : ℕ) → n < 256 → one_byte (buffer_from (n ∷ [])) ≡ ok n
unfolding one_byte
one_byte_lem n h = ground (arith, h)

pub record Word (n : ℕ) : Type 0 where
  pub a : ℕ
  pub b : ℕ
  pub two : two_bytes (bytes (u16_be n)) ≡ ok (a, b)
  pub joined : read_u16 (a ∷ b ∷ []) 0 ≡ n

pub two_bytes_lem : (n : ℕ) → Word n
unfolding two_bytes
two_bytes_lem n = record { a = n / 256; b = n % 256; two = refl; joined = omega arith }

pub record Words (n : ℕ) : Type 0 where
  pub a : ℕ
  pub b : ℕ
  pub c : ℕ
  pub d : ℕ
  pub four : four_bytes (bytes (u32_be n)) ≡ ok (a, b, c, d)
  pub joined : read_u32 (a ∷ b ∷ c ∷ d ∷ []) 0 ≡ n

pub four_bytes_lem : (n : ℕ) → Words n
unfolding four_bytes
four_bytes_lem n = record {
  a = n / 2 ^ 16 / 256;
  b = n / 2 ^ 16 % 256;
  c = n % 2 ^ 16 / 256;
  d = n % 2 ^ 16 % 256;
  four = refl;
  joined = omega arith;
}

-- A chain of range tests of which one fails.
pub chain_refuses :
    {W : Type 0} (min max : ℕ) (v : ℤ) (rest : ℕ → Result W) (others : Bool)
    → (fits_in min max v && others) ≡ false
    → ((n : ℕ) → others ≡ false → rest n ≡ err conversion_error)
    → (in_range min max v >>= rest) ≡ err conversion_error
chain_refuses min max v rest others h next = elim (Bool-cases (fits_in min max v)) [
  | inr a ↦ rw (in_range_refuses min max v a) refl
  | inl a ↦ let r = in_range-fits min max v a in rw r.taken (next r.n (ground (arith, a, h)))
]
