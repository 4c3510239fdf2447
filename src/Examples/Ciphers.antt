-- ===== src/Examples/Ciphers.antt =====
-- A toy cipher, which swaps neighbouring bytes.
use node_red_contrib_eelectr.Base.{◌≡◌, refl, ap, arith, [], ◌∷◌, Bytes, length, ok}
use node_red_contrib_eelectr.Secure.Crypto.{NodeCrypto, IsCipher, zeros}

abbrev pub swap_bytes : Bytes → Bytes
swap_bytes [] = []
swap_bytes (a ∷ []) = a ∷ []
swap_bytes (a ∷ b ∷ rest) = b ∷ a ∷ swap_bytes rest

swap_bytes-twice : (bytes : Bytes) → swap_bytes (swap_bytes bytes) ≡ bytes
swap_bytes-twice [] = refl
swap_bytes-twice (a ∷ []) = refl
swap_bytes-twice (a ∷ b ∷ rest) = ap (λ r. a ∷ b ∷ r) (swap_bytes-twice rest)

length-swap_bytes : (bytes : Bytes) → length (swap_bytes bytes) ≡ length bytes
length-swap_bytes [] = refl
length-swap_bytes (a ∷ []) = refl
length-swap_bytes (a ∷ b ∷ rest) = omega (arith, length-swap_bytes rest)

abbrev pub toy : NodeCrypto
toy = record {
  aes_cbc = λ k blocks. blocks;
  aes_ctr = λ k c text. swap_bytes text;
  sha256 = λ bytes. zeros 32;
  pbkdf2_sha256 = λ password salt rounds n. zeros n;
  x25519 = λ private_key public_key. ok public_key;
}

pub toy-IsCipher : IsCipher toy
toy-IsCipher = record {
  length-aes_cbc = λ k blocks. refl;
  length-aes_ctr = λ k c text. length-swap_bytes text;
  aes_ctr_twice = λ k c text. swap_bytes-twice text;
}

abbrev pub toy_key : Bytes
toy_key = 0 ∷ 0 ∷ 0 ∷ 0 ∷ 0 ∷ 0 ∷ 0 ∷ 0 ∷ 0 ∷ 0 ∷ 0 ∷ 0 ∷ 0 ∷ 0 ∷ 0 ∷ 0 ∷ []
