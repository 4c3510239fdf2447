-- ===== src/Core/Tpci/Coding.antt =====
-- Encoding and resolving of the TPCI byte agree.
use node_red_contrib_eelectr.Base.{
  ℕ, ◌+◌, ◌*◌, ◌/◌, ◌%◌, ◌<◌, ◌≡◌, refl, Bool, true, false, arith, bit_and, bit_or, ok,
  if◌then◌else◌, Bool-cases, inl, inr,
}
use node_red_contrib_eelectr.Base.Bits.{
  bit_and-mask, bit_and-bit, bit_or-fields, bit_or-fields_flip,
}
use node_red_contrib_eelectr.Core.Tpci.{
  Tpci, t_data_group, t_data_broadcast, t_data_tag_group, t_data_individual, t_data_connected,
  t_connect, t_disconnect, t_ack, t_nak, is_control_tpci, encode_tpci, resolve_tpci,
}

-- The byte of each kind, as a number.
abbrev pub tpci_byte : Tpci → ℕ
tpci_byte t_data_group = 0
tpci_byte t_data_broadcast = 0
tpci_byte t_data_individual = 0
tpci_byte t_data_tag_group = 4
tpci_byte (t_data_connected n) = 64 + 4 * (n % 16)
tpci_byte t_connect = 128
tpci_byte t_disconnect = 129
tpci_byte (t_ack n) = 194 + 4 * (n % 16)
tpci_byte (t_nak n) = 195 + 4 * (n % 16)

ack_byte : (f n : ℕ) → n < 16 → f < 4 → bit_or (bit_or 192 (n * 4)) f ≡ 192 + 4 * n + f
ack_byte f n h g =
    ground (arith, bit_or-fields 6 3 (n * 4) (omega arith), bit_or-fields 2 (48 + n) f g)

pub encode_tpci_lem : (t : Tpci) → encode_tpci t ≡ tpci_byte t
unfolding encode_tpci
encode_tpci_lem (t_data_connected n) =
    ground (arith, bit_and-mask 4 n, bit_or-fields 6 1 (n % 16 * 4) (omega arith))
encode_tpci_lem (t_ack n) = ground (arith, bit_and-mask 4 n, ack_byte 2 (n % 16))
encode_tpci_lem (t_nak n) = ground (arith, bit_and-mask 4 n, ack_byte 3 (n % 16))
encode_tpci_lem _ = refl

-- The parts of the byte that `resolveTpci` looks at, in arithmetic.
tpci_fields :
    (x : ℕ)
    → (bit_and x 128 ≡ x / 128 % 2 * 128)
      × (bit_and x 64 ≡ x / 64 % 2 * 64)
      × (bit_and (x / 4) 15 ≡ x / 4 % 16)
      × (bit_and x 3 ≡ x % 4)
tpci_fields x = (bit_and-bit 7 x, bit_and-bit 6 x, bit_and-mask 4 (x / 4), bit_and-mask 2 x)

-- The kinds that a frame to this destination can carry.
abbrev pub Fits : Tpci → Bool → Bool → Type 0
Fits t_data_group group is_zero = (group ≡ true) × (is_zero ≡ false)
Fits t_data_broadcast group is_zero = (group ≡ true) × (is_zero ≡ true)
Fits t_data_tag_group group is_zero = group ≡ true
Fits t_data_individual group is_zero = group ≡ false
Fits (t_data_connected n) group is_zero = (group ≡ false) × (n < 16)
Fits t_connect group is_zero = group ≡ false
Fits t_disconnect group is_zero = group ≡ false
Fits (t_ack n) group is_zero = (group ≡ false) × (n < 16)
Fits (t_nak n) group is_zero = (group ≡ false) × (n < 16)

-- A data TPDU, with two APCI bits.
pub resolve-encode_data :
    (t : Tpci) (k : ℕ) (group is_zero : Bool)
    → is_control_tpci t ≡ false
    → k < 4
    → Fits t group is_zero
    → resolve_tpci (bit_or k (encode_tpci t)) group is_zero ≡ ok t
unfolding is_control_tpci resolve_tpci
resolve-encode_data t_data_group k group is_zero c h f =
    ground (arith, encode_tpci_lem t_data_group, bit_or-fields_flip 2 0 k h, tpci_fields k)
resolve-encode_data t_data_broadcast k group is_zero c h f =
    ground (arith, encode_tpci_lem t_data_broadcast, bit_or-fields_flip 2 0 k h, tpci_fields k)
resolve-encode_data t_data_individual k group is_zero c h f =
    ground (arith, encode_tpci_lem t_data_individual, bit_or-fields_flip 2 0 k h, tpci_fields k)
resolve-encode_data t_data_tag_group k group is_zero c h f =
    ground
      (arith, encode_tpci_lem t_data_tag_group, bit_or-fields_flip 2 1 k h, tpci_fields (4 + k))
resolve-encode_data (t_data_connected n) k group is_zero c h f = ground (
  arith,
  encode_tpci_lem (t_data_connected n),
  bit_or-fields_flip 2 (16 + n) k h,
  tpci_fields (64 + 4 * n + k),
)
resolve-encode_data _ k group is_zero c h f = cc

-- A control TPDU, whose byte holds no APCI bits.
pub resolve-encode_control :
    (t : Tpci) (group is_zero : Bool)
    → is_control_tpci t ≡ true
    → Fits t group is_zero
    → resolve_tpci (encode_tpci t) group is_zero ≡ ok t
unfolding is_control_tpci resolve_tpci
resolve-encode_control (t_ack n) group is_zero c f =
    ground (arith, encode_tpci_lem (t_ack n), tpci_fields (194 + 4 * n))
resolve-encode_control (t_nak n) group is_zero c f =
    ground (arith, encode_tpci_lem (t_nak n), tpci_fields (195 + 4 * n))
resolve-encode_control t_connect group is_zero c f =
    ground (arith, encode_tpci_lem t_connect, tpci_fields 128)
resolve-encode_control t_disconnect group is_zero c f =
    ground (arith, encode_tpci_lem t_disconnect, tpci_fields 129)
resolve-encode_control _ group is_zero c f = cc

-- A TPCI that fits the kind of its destination is resolved from its byte, for a data TPDU with any two
-- APCI bits or-ed into it.
pub resolve-encode :
    (t : Tpci) (k : ℕ) (group is_zero : Bool)
    → k < 4
    → Fits t group is_zero
    → resolve_tpci
        (if is_control_tpci t then encode_tpci t else bit_or k (encode_tpci t))
        group
        is_zero
      ≡ ok t
resolve-encode t k group is_zero h f = elim (Bool-cases (is_control_tpci t)) [
  | inl c ↦ rw c (resolve-encode_control t group is_zero c f)
  | inr c ↦ rw c (resolve-encode_data t k group is_zero c h f)
]

-- A TPCI that is resolved from a byte fits the destination, and encodes to the byte it came from,
-- except for the two APCI bits of a data TPDU.
pub encode-resolve :
    (x : ℕ) (group is_zero : Bool) (t : Tpci)
    → x < 256
    → resolve_tpci x group is_zero ≡ ok t
    → Fits t group is_zero × (encode_tpci t ≡ (if is_control_tpci t then x else x / 4 * 4))
unfolding is_control_tpci resolve_tpci
encode-resolve x group is_zero t h e = ground (arith, tpci_fields x, encode_tpci_lem t)

-- The two APCI bits come back out of the shared byte.
pub data_byte_low :
    (t : Tpci) (k : ℕ)
    → is_control_tpci t ≡ false
    → k < 4
    → bit_and (bit_or k (encode_tpci t)) 3 ≡ k
unfolding is_control_tpci
data_byte_low t_data_tag_group k c h =
    ground
      (arith, encode_tpci_lem t_data_tag_group, bit_or-fields_flip 2 1 k h, bit_and-mask 2 (4 + k))
data_byte_low (t_data_connected n) k c h = ground (
  arith,
  encode_tpci_lem (t_data_connected n),
  bit_or-fields_flip 2 (16 + n % 16) k h,
  bit_and-mask 2 (64 + 4 * (n % 16) + k),
)
data_byte_low t k c h =
    ground (arith, encode_tpci_lem t, bit_or-fields_flip 2 0 k h, bit_and-mask 2 k)
