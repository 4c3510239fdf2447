-- ===== src/Core/Address/Notation.antt =====
-- The textual notations of src/core/address.ts: what `toString` prints, the constructor reads back.
use node_red_contrib_eelectr.Base.{
  ℕ, ◌+◌, ◌*◌, ◌/◌, ◌%◌, ◌^◌, ◌<◌, ◌≡◌, refl, List, [], ◌∷◌, ◌++◌, arith, bit_or, ok, true, false,
  ◌∙◌, ap,
}
use node_red_contrib_eelectr.Base.Bits.{bit_and-mask, bit_or-fields}
use node_red_contrib_eelectr.Core.Text.{
  Text, is_digit, all_digits, parse_int, show, split_on, parse_int-show, show-digits, show-is_field,
  show_nonempty, split_on-append, split_on-digits, not-digits-append,
}
use node_red_contrib_eelectr.Core.Address.{
  of_number, bounded, IndividualAddress, GroupAddressStyle, long, short, free,
}
use node_red_contrib_eelectr.Core.Address.Individual
use node_red_contrib_eelectr.Core.Address.Group

individual_fields :
    (a : IndividualAddress)
    → a.raw < 2 ^ 16
    → (Individual.area a ≡ a.raw / 4096)
      × (Individual.main a ≡ a.raw / 256 % 16)
      × (Individual.line a ≡ a.raw % 256)
unfolding Individual.area Individual.main Individual.line
individual_fields a h =
    ground
      (arith, bit_and-mask 4 (a.raw / 4096), bit_and-mask 4 (a.raw / 256), bit_and-mask 8 a.raw)

join_individual :
    (a m l : ℕ)
    → m < 16
    → l < 256
    → bit_or (bit_or (a * 2 ^ 12) (m * 2 ^ 8)) l ≡ a * 4096 + m * 256 + l
join_individual a m l hm hl = ground (
  arith,
  bit_or-fields 12 a (m * 2 ^ 8) (omega arith),
  ap (λ (t : ℕ). bit_or t l) (regroup a m),
  bit_or-fields 8 (a * 16 + m) l hl,
)
  where
    regroup : (a m : ℕ) → a * 2 ^ 12 + m * 2 ^ 8 ≡ (a * 16 + m) * 2 ^ 8
    regroup a m = omega arith

-- Text with two separators, neither of them a digit, is split into its three parts.
split_two :
    (sep : ℕ) (xs ys zs : Text)
    → is_digit sep ≡ false
    → all_digits xs ≡ true
    → all_digits ys ≡ true
    → all_digits zs ≡ true
    → split_on sep (xs ++ sep ∷ (ys ++ sep ∷ zs)) ≡ xs ∷ ys ∷ zs ∷ []
split_two sep xs ys zs h dx dy dz =
    rw (split_on-append sep xs (ys ++ sep ∷ zs) h dx, split_on-append sep ys zs h dy)
      (ap (λ t. xs ∷ ys ∷ t) (split_on-digits sep zs h dz))

individual_segments :
    (a m l : ℕ)
    → a < 16
    → m < 16
    → l < 256
    → Individual.of_segments (show a ∷ show m ∷ show l ∷ []) ≡ ok (a * 4096 + m * 256 + l)
unfolding Individual.of_segments bounded
individual_segments a m l ha hm hl = ground (
  arith,
  show-is_field 1 a,
  show-is_field 1 m,
  show-is_field 2 l,
  parse_int-show a,
  parse_int-show m,
  parse_int-show l,
  join_individual a m l hm hl,
)

individual_dotted :
    (xs ys zs : Text)
    → all_digits xs ≡ true
    → all_digits ys ≡ true
    → all_digits zs ≡ true
    → Individual.of_text (xs ++ b'.' ∷ (ys ++ b'.' ∷ zs))
      ≡ Individual.of_segments (xs ∷ ys ∷ zs ∷ [])
unfolding Individual.of_text
individual_dotted xs ys zs dx dy dz =
    ground (
      arith,
      not-digits-append b'.' xs (ys ++ b'.' ∷ zs) refl,
      split_two b'.' xs ys zs refl dx dy dz,
    )

-- An individual address of 16 bits prints as area.main.line, and the constructor reads that text
-- back.
pub of_text-to_string_individual :
    (a : IndividualAddress)
    → a.raw < 2 ^ 16
    → Individual.of_text (Individual.to_string a) ≡ ok a.raw
unfolding Individual.to_string
of_text-to_string_individual a h =
    let (ea, em, el) = individual_fields a h in
    rw (ea, em, el)
      (individual_dotted _ _ _ (show-digits _) (show-digits _) (show-digits _)
        ∙ individual_segments (a.raw / 4096) (a.raw / 256 % 16) (a.raw % 256) (omega arith)
            (omega arith) (omega arith)
        ∙ ap ok (omega arith))

join_long :
    (a m l : ℕ)
    → m < 8
    → l < 256
    → bit_or (bit_or (a * 2 ^ 11) (m * 2 ^ 8)) l ≡ a * 2048 + m * 256 + l
join_long a m l hm hl = ground (
  arith,
  bit_or-fields 11 a (m * 2 ^ 8) (omega arith),
  ap (λ (t : ℕ). bit_or t l) (regroup a m),
  bit_or-fields 8 (a * 8 + m) l hl,
)
  where
    regroup : (a m : ℕ) → a * 2 ^ 11 + m * 2 ^ 8 ≡ (a * 8 + m) * 2 ^ 8
    regroup a m = omega arith

long_segments :
    (a m l : ℕ)
    → a < 32
    → m < 8
    → l < 256
    → Group.of_segments (show a ∷ show m ∷ show l ∷ []) ≡ ok (a * 2048 + m * 256 + l)
unfolding Group.of_segments bounded
long_segments a m l ha hm hl = ground (
  arith,
  show-is_field 1 a,
  show-is_field 1 m,
  show-is_field 3 l,
  parse_int-show a,
  parse_int-show m,
  parse_int-show l,
  join_long a m l hm hl,
)

short_segments :
    (a l : ℕ) → a < 32 → l < 2048 → Group.of_segments (show a ∷ show l ∷ []) ≡ ok (a * 2048 + l)
unfolding Group.of_segments bounded
short_segments a l ha hl = ground (
  arith,
  show-is_field 1 a,
  show-is_field 3 l,
  parse_int-show a,
  parse_int-show l,
  bit_or-fields 11 a l hl,
)

group_three :
    (xs ys zs : Text)
    → all_digits xs ≡ true
    → all_digits ys ≡ true
    → all_digits zs ≡ true
    → Group.of_text (xs ++ b'/' ∷ (ys ++ b'/' ∷ zs)) ≡ Group.of_segments (xs ∷ ys ∷ zs ∷ [])
unfolding Group.of_text
group_three xs ys zs dx dy dz =
    ground (
      arith,
      not-digits-append b'/' xs (ys ++ b'/' ∷ zs) refl,
      split_two b'/' xs ys zs refl dx dy dz,
    )

group_two :
    (xs ys : Text)
    → all_digits xs ≡ true
    → all_digits ys ≡ true
    → Group.of_text (xs ++ b'/' ∷ ys) ≡ Group.of_segments (xs ∷ ys ∷ [])
unfolding Group.of_text
group_two xs ys dx dy = ground (
  arith,
  not-digits-append b'/' xs ys refl,
  split_on-append b'/' xs ys refl dx,
  split_on-digits b'/' ys refl dy,
)

group_one : (n : ℕ) → n < 2 ^ 16 → Group.of_text (show n) ≡ ok n
unfolding Group.of_text of_number
group_one n h = ground (arith, show-digits n, parse_int-show n, show_nonempty n)

pub of_text-to_string_group :
    (raw : ℕ) (style : GroupAddressStyle)
    → raw < 2 ^ 16
    → Group.of_text (Group.to_string (record { raw = raw; style = style })) ≡ ok raw
unfolding Group.to_string
of_text-to_string_group raw long h =
    rw (bit_and-mask 5 (raw / 2048), bit_and-mask 3 (raw / 256), bit_and-mask 8 raw)
      (group_three _ _ _ (show-digits _) (show-digits _) (show-digits _)
        ∙ long_segments (raw / 2048 % 32) (raw / 256 % 8) (raw % 256) (omega arith) (omega arith)
            (omega arith)
        ∙ ap ok (omega arith))
of_text-to_string_group raw short h =
    rw (bit_and-mask 5 (raw / 2048), bit_and-mask 11 raw)
      (group_two _ _ (show-digits _) (show-digits _)
        ∙ short_segments (raw / 2048 % 32) (raw % 2048) (omega arith) (omega arith)
        ∙ ap ok (omega arith))
of_text-to_string_group raw free h = group_one raw h

group_segments_bounded : (ss : List Text) (n : ℕ) → Group.of_segments ss ≡ ok n → n < 2 ^ 16
unfolding Group.of_segments bounded
group_segments_bounded (m ∷ s ∷ []) n h =
    ground (arith, bit_or-fields 11 (parse_int m) (parse_int s))
group_segments_bounded (m ∷ d ∷ s ∷ []) n h =
    ground (arith, join_long (parse_int m) (parse_int d) (parse_int s))
group_segments_bounded _ n h = cc

-- Whatever text the constructor of a group address accepts, the value fits 16 bits.
pub group_of_text_bounded : (s : Text) (n : ℕ) → Group.of_text s ≡ ok n → n < 2 ^ 16
unfolding Group.of_text of_number
group_of_text_bounded s n h = ground (arith, group_segments_bounded (split_on b'/' s) n)
