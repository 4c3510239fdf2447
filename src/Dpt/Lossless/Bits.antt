-- ===== src/Dpt/Lossless/Bits.antt =====
-- The codecs of flags and scenes.
use node_red_contrib_eelectr.Base.{
  ℕ, ◌+◌, ◌-◌, ◌*◌, ◌^◌, ◌<◌, ◌≡◌, refl, sym, ap, ◌∙◌, arith, Bool, true, false, ◌==◌,
  if◌then◌else◌, bit_and, bit_or, [], ◌∷◌, ok,
}
use node_red_contrib_eelectr.Base.Bits.{bit_and-mask, bit_and-shifted, bit_or-fields, bit_and-low}
use native.Mathlib.Nat.{mod-eq_of_lt}
use node_red_contrib_eelectr.Core.Apci.{apci_npdu_length, small}
use node_red_contrib_eelectr.Dpt.Codec.{ℤ, buffer_from, fits_in, one_byte}
use node_red_contrib_eelectr.Dpt.Flags.{raw_of, dpt1, dpt2, dpt3, dpt17, dpt18, dpt26}
use node_red_contrib_eelectr.Dpt.Lossless.{IsLossless, Sent}
use node_red_contrib_eelectr.Dpt.Lossless.Ranges.{in_range-fits, in_range_refuses, one_byte_lem}

pub dpt1-IsLossless : IsLossless dpt1 (λ v. true) (λ v. v)
unfolding apci_npdu_length dpt1 raw_of
dpt1-IsLossless = record {
  sends = λ v h. record {
    apdu = small (if v then 1 else 0);
    encoded = refl;
    carried = bit_small v;
    short = omega arith;
    decoded = ap ok (bit_back v);
  };
  refuses = λ v h. absurd (ground (arith, h));
}
  where
    bit_small : (v : Bool) → (if v then 1 else 0) < 64
    bit_small true = omega arith
    bit_small false = omega arith

    bit_back : (v : Bool) → (bit_and (if v then 1 else 0) 1 == 1) ≡ v
    bit_back true = refl
    bit_back false = refl

pub dpt2-IsLossless : IsLossless dpt2 (λ v. true) (λ v. v)
unfolding apci_npdu_length dpt2 raw_of
dpt2-IsLossless = record {
  sends = λ v h. sends v.control v.value;
  refuses = λ v h. absurd (ground (arith, h));
}
  where
    sends :
        (c x : Bool)
        → Sent dpt2 (record { control = c; value = x }) (record { control = c; value = x })
    sends true true = record {
      apdu = small 3;
      encoded = refl;
      carried = omega arith;
      short = omega arith;
      decoded = refl;
    }
    sends true false = record {
      apdu = small 2;
      encoded = refl;
      carried = omega arith;
      short = omega arith;
      decoded = refl;
    }
    sends false true = record {
      apdu = small 1;
      encoded = refl;
      carried = omega arith;
      short = omega arith;
      decoded = refl;
    }
    sends false false = record {
      apdu = small 0;
      encoded = refl;
      carried = omega arith;
      short = omega arith;
      decoded = refl;
    }

-- A field of `k` bits below others: how the byte is put together, and what its masks read.
record Field (k q n : ℕ) : Type 0 where
  pub kept : bit_and n (2 ^ k - 1) ≡ n
  pub joined : bit_or (q * 2 ^ k) n ≡ q * 2 ^ k + n
  pub low : bit_and (q * 2 ^ k + n) (2 ^ k - 1) ≡ n
  pub high : (m : ℕ) → bit_and (q * 2 ^ k + n) (m * 2 ^ k) ≡ bit_and q m * 2 ^ k

field : (k q n : ℕ) → n < 2 ^ k → Field k q n
field k q n h = record {
  kept = bit_and-mask k n ∙ mod-eq_of_lt h;
  joined = bit_or-fields k q n h;
  low = bit_and-low k q n h;
  high = λ m. bit_and-shifted k q n m h;
}

dpt3-sends :
    (c : Bool) (v : ℤ)
    → fits_in 0 7 v ≡ true
    → Sent dpt3 (record { control = c; step_code = v }) (record { control = c; step_code = v })
unfolding apci_npdu_length dpt3 raw_of
dpt3-sends true v h =
    let r = in_range-fits 0 7 v h in
    let f = field 3 1 r.n (omega (arith, r.high)) in
    record {
      apdu = small (1 * 2 ^ 3 + r.n);
      encoded = rw r.taken (rw f.kept (rw f.joined refl));
      carried = omega (arith, r.high);
      short = omega arith;
      decoded = ground (arith, r.is_n, f.low, f.high 1);
    }
dpt3-sends false v h =
    let r = in_range-fits 0 7 v h in
    let f = field 3 0 r.n (omega (arith, r.high)) in
    record {
      apdu = small (0 * 2 ^ 3 + r.n);
      encoded = rw r.taken (rw f.kept (rw f.joined refl));
      carried = omega (arith, r.high);
      short = omega arith;
      decoded = ground (arith, r.is_n, f.low, f.high 1);
    }

pub dpt3-IsLossless : IsLossless dpt3 (λ v. fits_in 0 7 v.step_code) (λ v. v)
unfolding dpt3
dpt3-IsLossless = record {
  sends = λ v h. dpt3-sends v.control v.step_code h;
  refuses = λ v h. rw (in_range_refuses 0 7 v.step_code h) refl;
}

pub dpt17-IsLossless : IsLossless dpt17 (fits_in 0 63) (λ v. v)
unfolding apci_npdu_length dpt17
dpt17-IsLossless = record {
  sends = λ v h.
      let r = in_range-fits 0 63 v h in
      let f = field 6 0 r.n (omega (arith, r.high)) in
      record {
        apdu = buffer_from (r.n ∷ []);
        encoded = rw r.taken (rw f.kept refl);
        carried = omega arith;
        short = omega arith;
        decoded = rw (one_byte_lem r.n (omega (arith, r.high))) (rw f.kept (ap ok (sym r.is_n)));
      };
  refuses = λ v h. rw (in_range_refuses 0 63 v h) refl;
}

-- A scene number under a flag that has the weight `q` above six bits.
scene_byte :
    (q n : ℕ)
    → q < 4
    → n < 2 ^ 6
    → one_byte (buffer_from (bit_or (q * 2 ^ 6) n ∷ [])) ≡ ok (q * 2 ^ 6 + n)
scene_byte q n a b =
    let f = field 6 q n b in rw f.joined (one_byte_lem (q * 2 ^ 6 + n) (omega (arith, a, b)))

dpt18-sends :
    (c : Bool) (v : ℤ)
    → fits_in 0 63 v ≡ true
    → Sent dpt18 (record { learns = c; scene_number = v }) (record { learns = c; scene_number = v })
unfolding apci_npdu_length dpt18
dpt18-sends true v h =
    let r = in_range-fits 0 63 v h in
    let f = field 6 2 r.n (omega (arith, r.high)) in
    record {
      apdu = buffer_from (bit_or (2 * 2 ^ 6) r.n ∷ []);
      encoded = rw r.taken (rw f.kept refl);
      carried = omega arith;
      short = omega arith;
      decoded =
          ground (
            arith,
            r.is_n,
            f.low,
            f.high 2,
            scene_byte 2 r.n (omega arith) (omega (arith, r.high)),
          );
    }
dpt18-sends false v h =
    let r = in_range-fits 0 63 v h in
    let f = field 6 0 r.n (omega (arith, r.high)) in
    record {
      apdu = buffer_from (bit_or (0 * 2 ^ 6) r.n ∷ []);
      encoded = rw r.taken (rw f.kept refl);
      carried = omega arith;
      short = omega arith;
      decoded =
          ground (
            arith,
            r.is_n,
            f.low,
            f.high 2,
            scene_byte 0 r.n (omega arith) (omega (arith, r.high)),
          );
    }

pub dpt18-IsLossless : IsLossless dpt18 (λ v. fits_in 0 63 v.scene_number) (λ v. v)
unfolding dpt18
dpt18-IsLossless = record {
  sends = λ v h. dpt18-sends v.learns v.scene_number h;
  refuses = λ v h. rw (in_range_refuses 0 63 v.scene_number h) refl;
}

dpt26-sends :
    (c : Bool) (v : ℤ)
    → fits_in 0 63 v ≡ true
    → Sent dpt26 (record { scene_number = v; active = c }) (record { scene_number = v; active = c })
unfolding apci_npdu_length dpt26
dpt26-sends true v h =
    let r = in_range-fits 0 63 v h in
    let f = field 6 1 r.n (omega (arith, r.high)) in
    record {
      apdu = buffer_from (bit_or (1 * 2 ^ 6) r.n ∷ []);
      encoded = rw r.taken (rw f.kept refl);
      carried = omega arith;
      short = omega arith;
      decoded =
          ground (
            arith,
            r.is_n,
            f.low,
            f.high 1,
            scene_byte 1 r.n (omega arith) (omega (arith, r.high)),
          );
    }
dpt26-sends false v h =
    let r = in_range-fits 0 63 v h in
    let f = field 6 0 r.n (omega (arith, r.high)) in
    record {
      apdu = buffer_from (bit_or (0 * 2 ^ 6) r.n ∷ []);
      encoded = rw r.taken (rw f.kept refl);
      carried = omega arith;
      short = omega arith;
      decoded =
          ground (
            arith,
            r.is_n,
            f.low,
            f.high 1,
            scene_byte 0 r.n (omega arith) (omega (arith, r.high)),
          );
    }

pub dpt26-IsLossless : IsLossless dpt26 (λ v. fits_in 0 63 v.scene_number) (λ v. v)
unfolding dpt26
dpt26-IsLossless = record {
  sends = λ v h. dpt26-sends v.active v.scene_number h;
  refuses = λ v h. rw (in_range_refuses 0 63 v.scene_number h) refl;
}
