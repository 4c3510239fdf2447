-- ===== src/Core/Apci/Coding.antt =====
-- Encoding and decoding of APDUs agree.
use node_red_contrib_eelectr.Base.{
  ℕ, [], suc, ◌≤◌, ◌+◌, ◌*◌, ◌/◌, ◌%◌, ◌^◌, ◌≤◌, ◌<◌, ◌≡◌, refl, ◌≢◌, ◌∷◌, arith, bit_and, bit_or,
  Bytes, length, ok,
}
use node_red_contrib_eelectr.Base.Bits.{bit_and-mask, bit_and-shifted, bit_or-fields}
use node_red_contrib_eelectr.Core.Apci.{
  ApduValue, small, bytes, Apci, group_value_read, group_value_write, group_value_response, unknown,
  encode_apci, decode_apci, apci_npdu_length,
}

-- A value that survives the wire: six bits, or some bytes.
abbrev pub FitsValue : ApduValue → Type 0
FitsValue (small v) = v < 64
FitsValue (bytes b) = 1 ≤ length b

-- The service code in the two leading bytes of an APDU, and the classifier in its top four bits.
abbrev pub service_of : ℕ → ℕ → ℕ
service_of a b = (a * 256 + b) % 1024

abbrev pub family_of : ℕ → ℕ → ℕ
family_of a b = service_of a b / 64 * 64

-- An APCI that survives the wire. An unknown service is one that is none of the three group
-- services, and it is stored with the bytes that it came in.
abbrev pub Fits : Apci → Type 0
Fits group_value_read = Unit {0}
Fits (group_value_write v) = FitsValue v
Fits (group_value_response v) = FitsValue v
Fits (unknown s raw) =
    (a : ℕ) × (b : ℕ) × (rest : Bytes) × (raw ≡ a ∷ b ∷ rest)
    × (a < 4)
    × (b < 256)
    × (s ≡ service_of a b)
    × (family_of a b ≢ 0)
    × (family_of a b ≢ 0x80)
    × (family_of a b ≢ 0x40)

service_code :
    (a b : ℕ)
    → b < 256
    → (bit_and (bit_or (a * 2 ^ 8) b) 0x3ff ≡ service_of a b)
      × (bit_and (service_of a b) 0x3c0 ≡ family_of a b)
service_code a b h = (
  ground (arith, bit_or-fields 8 a b h, bit_and-mask 10 (a * 2 ^ 8 + b)),
  ground (
    arith,
    bit_and-shifted 6 (service_of a b / 64) (service_of a b % 64) 15 (omega arith),
    bit_and-mask 4 (service_of a b / 64),
  ),
)

low_six :
    (v s : ℕ)
    → v < 64
    → (bit_and v 0x3f ≡ v) × (bit_or (s * 2 ^ 6) v ≡ s * 64 + v) × (bit_and (s * 64 + v) 0x3f ≡ v)
low_six v s h = (
  ground (arith, bit_and-mask 6 v),
  ground (arith, bit_or-fields 6 s v h),
  ground (arith, bit_and-mask 6 (s * 64 + v)),
)

-- An APCI whose small value has six bits, whose other value has a byte at least, and which, if its
-- service is unknown, holds the bytes of that service, is decoded from what it is encoded to.
pub decode-encode_apci : (a : Apci) → Fits a → decode_apci (encode_apci a) ≡ ok a
unfolding decode_apci encode_apci
decode-encode_apci group_value_read f = refl
decode-encode_apci (group_value_write (small v)) f =
    ground (arith, low_six v 2 f, service_code 0 (128 + v))
decode-encode_apci (group_value_write (bytes b)) f = ground (arith, service_code 0 128)
decode-encode_apci (group_value_response (small v)) f =
    ground (arith, low_six v 1 f, service_code 0 (64 + v))
decode-encode_apci (group_value_response (bytes b)) f = ground (arith, service_code 0 64)
decode-encode_apci (unknown s raw) (a, b, rest, e, ha, hb, es, n0, n1, n2) =
    ground (arith, service_code a b hb)

-- What such an APCI encodes to: a byte with its upper six bits clear, and as many bytes more as the
-- NPDU length says.
pub encode_apci_shape :
    (a : Apci)
    → Fits a
    → (first : ℕ) × (tail : Bytes) × (encode_apci a ≡ first ∷ tail)
      × (first < 4)
      × (apci_npdu_length a ≡ length tail)
unfolding encode_apci apci_npdu_length
encode_apci_shape group_value_read f = (0, 0 ∷ [], refl, omega arith, refl)
encode_apci_shape (group_value_write (small v)) f = (0, _, refl, omega arith, refl)
encode_apci_shape (group_value_write (bytes b)) f = (0, 128 ∷ b, refl, omega arith, omega arith)
encode_apci_shape (group_value_response (small v)) f = (0, _, refl, omega arith, refl)
encode_apci_shape (group_value_response (bytes b)) f = (0, 64 ∷ b, refl, omega arith, omega arith)
encode_apci_shape (unknown s raw) (a, b, rest, e, ha, hb, es, n0, n1, n2) =
    (a, b ∷ rest, e, ha, ground arith)

decoded_unknown :
    (a b : ℕ) (rest : Bytes)
    → a < 4
    → b < 256
    → family_of a b ≢ 0
    → family_of a b ≢ 0x80
    → family_of a b ≢ 0x40
    → Fits (unknown (service_of a b) (a ∷ b ∷ rest))
decoded_unknown a b rest ha hb n0 n1 n2 = (a, b, rest, refl, ha, hb, refl, n0, n1, n2)

-- What is decoded from bytes of which the first has its upper six bits clear survives the wire, and
-- needs no more bytes than it came in.
pub decode_apci-Fits :
    (a b : ℕ) (rest : Bytes) (p : Apci)
    → a < 4
    → b < 256
    → decode_apci (a ∷ b ∷ rest) ≡ ok p
    → Fits p × (apci_npdu_length p ≤ suc (length rest))
unfolding decode_apci apci_npdu_length
decode_apci-Fits a b rest p ha hb e =
    ground (arith, service_code a b hb, bit_and-mask 6 b, decoded_unknown a b rest ha hb)
