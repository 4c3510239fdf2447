-- ===== src/Secure/Crypto.antt =====
-- The part of src/secure/crypto.ts that the session uses. The primitives of node:crypto are a
-- parameter, with the two laws of a stream cipher and a block cipher that the session relies on.
use node_red_contrib_eelectr.Base.{
  ℕ, ◌-◌, ◌%◌, ◌^◌, ◌<◌, ◌≡◌, refl, arith, not, ◌==◌, ltb, [], ◌∷◌, ◌++◌, Bytes, length, drop,
  length-append, length-drop, u16_be, Result, ok, ◌>>=◌, ◌>>◌, throw_if, range_error,
}
use Prim.Native.Nat.{bit_xor, zero, suc}

-- `aes_cbc key blocks` is aes-128-cbc with a zero IV and no padding, `aes_ctr key counter text` is
-- aes-128-ctr, `x25519 private public` is diffieHellman, which refuses some public keys.
pub record NodeCrypto : Type 0 where
  pub aes_cbc : Bytes → Bytes → Bytes
  pub aes_ctr : Bytes → Bytes → Bytes → Bytes
  pub sha256 : Bytes → Bytes
  pub pbkdf2_sha256 : Bytes → Bytes → ℕ → ℕ → Bytes
  pub x25519 : Bytes → Bytes → Result Bytes

-- A block cipher gives as many bytes as it takes, and the counter mode is its own inverse.
pub record IsCipher (node : NodeCrypto) : Type 0 where
  pub length-aes_cbc : (k blocks : Bytes) → length (node.aes_cbc k blocks) ≡ length blocks
  pub length-aes_ctr : (k c text : Bytes) → length (node.aes_ctr k c text) ≡ length text
  pub aes_ctr_twice : (k c text : Bytes) → node.aes_ctr k c (node.aes_ctr k c text) ≡ text

-- `Buffer.alloc(n)`.
abbrev pub zeros : ℕ → Bytes
zeros zero = []
zeros (suc n) = 0 ∷ zeros n

-- The writes of a Buffer, which refuse what does not fit.
abbrev pub write_u16 : ℕ → Result Bytes
write_u16 v = do throw_if (ltb 0xffff v) range_error; ok (u16_be v)

-- `padded`: zeros up to a multiple of 16.
unfoldable pub pad_blocks : Bytes → Bytes
pad_blocks bytes = bytes ++ zeros ((16 - length bytes % 16) % 16)

unfoldable pub aes_cbc_mac : NodeCrypto → Bytes → Bytes → Bytes → Bytes → Result Bytes
unfolding pad_blocks
aes_cbc_mac node key additional_data payload block0 = do
  throw_if (not (length key == 16)) range_error
  throw_if (not (length block0 == 16)) range_error
  ad_len ← write_u16 (length additional_data)
  let out = node.aes_cbc key (pad_blocks (block0 ++ (ad_len ++ (additional_data ++ payload))))
  ok (drop (length out - 16) out)

unfoldable pub aes_ctr_xor : NodeCrypto → Bytes → Bytes → Bytes → Result Bytes
aes_ctr_xor node key counter0 text = do
  throw_if (not (length key == 16)) range_error
  throw_if (not (length counter0 == 16)) range_error
  ok (node.aes_ctr key counter0 text)

unfoldable pub xor_all : Bytes → Bytes → Bytes
xor_all (a ∷ s) (b ∷ t) = bit_xor a b ∷ xor_all s t
xor_all _ _ = []

unfoldable pub bytes_xor : Bytes → Bytes → Result Bytes
unfolding xor_all
bytes_xor a b = do throw_if (not (length a == length b)) range_error; ok (xor_all a b)

-- `Buffer.concat` of 16 bytes at least has 16 last ones.
pub length-aes_cbc_mac :
    (node : NodeCrypto) (v : IsCipher node) (key additional_data payload block0 mac : Bytes)
    → aes_cbc_mac node key additional_data payload block0 ≡ ok mac
    → length mac ≡ 16
unfolding aes_cbc_mac
length-aes_cbc_mac node v key additional_data payload block0 mac h =
    let rest = u16_be (length additional_data) ++ (additional_data ++ payload) in
    let all = block0 ++ rest in
    let pad = zeros ((16 - length all % 16) % 16) in
    let out = node.aes_cbc key (all ++ pad) in
    ground (
      arith,
      h,
      length-drop (length out - 16) out,
      v.length-aes_cbc key (all ++ pad),
      length-append all pad,
      length-append block0 rest,
    )

module _ (node : NodeCrypto) (v : IsCipher node) (key counter0 text stream : Bytes)
    (h : aes_ctr_xor node key counter0 text ≡ ok stream) where
  pub aes_ctr_xor-twice : aes_ctr_xor node key counter0 stream ≡ ok text
  unfolding aes_ctr_xor
  aes_ctr_xor-twice = ground (arith, h, v.aes_ctr_twice key counter0 text)

  pub length-aes_ctr_xor : length stream ≡ length text
  unfolding aes_ctr_xor
  length-aes_ctr_xor = ground (arith, h, v.length-aes_ctr key counter0 text)

pub aes_cbc_mac-returns :
    (node : NodeCrypto) (key additional_data payload block0 : Bytes)
    → length key ≡ 16
    → length block0 ≡ 16
    → length additional_data < 2 ^ 16
    → (mac : Bytes) × (aes_cbc_mac node key additional_data payload block0 ≡ ok mac)
unfolding aes_cbc_mac
aes_cbc_mac-returns node key additional_data payload block0 k b a =
    let all = block0 ++ (u16_be (length additional_data) ++ (additional_data ++ payload)) in
    let out = node.aes_cbc key (pad_blocks all) in (drop (length out - 16) out, ground arith)

pub aes_ctr_xor-returns :
    (node : NodeCrypto) (key counter0 text : Bytes)
    → length key ≡ 16
    → length counter0 ≡ 16
    → aes_ctr_xor node key counter0 text ≡ ok (node.aes_ctr key counter0 text)
unfolding aes_ctr_xor
aes_ctr_xor-returns node key counter0 text k c = ground arith

length-xor_all : (a b : Bytes) → length a ≡ length b → length (xor_all a b) ≡ length a
unfolding xor_all
length-xor_all [] [] h = refl
length-xor_all [] (y ∷ b) h = refl
length-xor_all (x ∷ a) [] h = absurd (omega (arith, h))
length-xor_all (x ∷ a) (y ∷ b) h = omega (arith, length-xor_all a b (omega (arith, h)))

pub bytes_xor-returns :
    (a b : Bytes)
    → length a ≡ length b
    → (c : Bytes) × (bytes_xor a b ≡ ok c) × (length c ≡ length a)
unfolding bytes_xor
bytes_xor-returns a b h = (xor_all a b, ground (arith, h), length-xor_all a b h)
