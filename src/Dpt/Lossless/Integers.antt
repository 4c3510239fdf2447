-- ===== src/Dpt/Lossless/Integers.antt =====
-- The codecs of integers.
use node_red_contrib_eelectr.Base.{refl, sym, ap, ◌∙◌, arith, [], ◌∷◌, ok, u16_be, u32_be}
use node_red_contrib_eelectr.Core.Apci.{apci_npdu_length, bytes}
use node_red_contrib_eelectr.Dpt.Codec.{pos, buffer_from, fits_in, fits_signed, from_signed}
use node_red_contrib_eelectr.Dpt.Numbers.{dpt5, dpt6, dpt7, dpt8, dpt12, dpt13, dpt20}
use node_red_contrib_eelectr.Dpt.Lossless.{IsLossless}
use node_red_contrib_eelectr.Dpt.Lossless.Ranges.{
  in_range-fits, in_range_refuses, to_signed-fits, to_signed_refuses, one_byte_lem, two_bytes_lem,
  four_bytes_lem,
}

pub dpt5-IsLossless : IsLossless dpt5 (fits_in 0 255) (λ v. v)
unfolding apci_npdu_length dpt5
dpt5-IsLossless = record {
  sends = λ v h.
      let r = in_range-fits 0 255 v h in
      record {
        apdu = buffer_from (r.n ∷ []);
        encoded = rw r.taken refl;
        carried = omega arith;
        short = omega arith;
        decoded = rw (one_byte_lem r.n (omega (arith, r.high))) (ap ok (sym r.is_n));
      };
  refuses = λ v h. rw (in_range_refuses 0 255 v h) refl;
}

pub dpt20-IsLossless : IsLossless dpt20 (fits_in 0 255) (λ v. v)
unfolding apci_npdu_length dpt20
dpt20-IsLossless = record {
  sends = λ v h.
      let r = in_range-fits 0 255 v h in
      record {
        apdu = buffer_from (r.n ∷ []);
        encoded = rw r.taken refl;
        carried = omega arith;
        short = omega arith;
        decoded = rw (one_byte_lem r.n (omega (arith, r.high))) (ap ok (sym r.is_n));
      };
  refuses = λ v h. rw (in_range_refuses 0 255 v h) refl;
}

pub dpt6-IsLossless : IsLossless dpt6 (fits_signed 128) (λ v. v)
unfolding apci_npdu_length dpt6
dpt6-IsLossless = record {
  sends = λ v h.
      let r = to_signed-fits 128 v h in
      record {
        apdu = buffer_from (r.n ∷ []);
        encoded = rw r.taken refl;
        carried = omega arith;
        short = omega arith;
        decoded = rw (one_byte_lem r.n (omega (arith, r.high))) (ap ok r.back);
      };
  refuses = λ v h. rw (to_signed_refuses 128 v (omega arith) h) refl;
}

pub dpt7-IsLossless : IsLossless dpt7 (fits_in 0 0xffff) (λ v. v)
unfolding apci_npdu_length dpt7
dpt7-IsLossless = record {
  sends = λ v h.
      let r = in_range-fits 0 0xffff v h in
      let w = two_bytes_lem r.n in
      record {
        apdu = bytes (u16_be r.n);
        encoded = rw r.taken refl;
        carried = omega arith;
        short = omega arith;
        decoded = rw w.two (ap (λ n. ok (pos n)) w.joined ∙ ap ok (sym r.is_n));
      };
  refuses = λ v h. rw (in_range_refuses 0 0xffff v h) refl;
}

pub dpt8-IsLossless : IsLossless dpt8 (fits_signed 0x8000) (λ v. v)
unfolding apci_npdu_length dpt8
dpt8-IsLossless = record {
  sends = λ v h.
      let r = to_signed-fits 0x8000 v h in
      let w = two_bytes_lem r.n in
      record {
        apdu = bytes (u16_be r.n);
        encoded = rw r.taken refl;
        carried = omega arith;
        short = omega arith;
        decoded = rw w.two (ap (λ n. ok (from_signed 0x8000 n)) w.joined ∙ ap ok r.back);
      };
  refuses = λ v h. rw (to_signed_refuses 0x8000 v (omega arith) h) refl;
}

pub dpt12-IsLossless : IsLossless dpt12 (fits_in 0 0xffffffff) (λ v. v)
unfolding apci_npdu_length dpt12
dpt12-IsLossless = record {
  sends = λ v h.
      let r = in_range-fits 0 0xffffffff v h in
      let w = four_bytes_lem r.n in
      record {
        apdu = bytes (u32_be r.n);
        encoded = rw r.taken refl;
        carried = omega arith;
        short = omega arith;
        decoded = rw w.four (ap (λ n. ok (pos n)) w.joined ∙ ap ok (sym r.is_n));
      };
  refuses = λ v h. rw (in_range_refuses 0 0xffffffff v h) refl;
}

pub dpt13-IsLossless : IsLossless dpt13 (fits_signed 0x80000000) (λ v. v)
unfolding apci_npdu_length dpt13
dpt13-IsLossless = record {
  sends = λ v h.
      let r = to_signed-fits 0x80000000 v h in
      let w = four_bytes_lem r.n in
      record {
        apdu = bytes (u32_be r.n);
        encoded = rw r.taken refl;
        carried = omega arith;
        short = omega arith;
        decoded = rw w.four (ap (λ n. ok (from_signed 0x80000000 n)) w.joined ∙ ap ok r.back);
      };
  refuses = λ v h. rw (to_signed_refuses 0x80000000 v (omega arith) h) refl;
}
