-- ===== src/Secure/Handshake.antt =====
-- src/secure/handshake.ts: the MACs of the two messages of the handshake.
use node_red_contrib_eelectr.Base.{
  ℕ, ◌%◌, ◌≡◌, ◌≤◌, refl, arith, not, ◌&&◌, ◌==◌, leb, [], ◌∷◌, ◌++◌, Bytes, length, Result, ok,
  ◌>>=◌, ◌>>◌, throw_if, range_error,
}
use node_red_contrib_eelectr.Secure.Crypto.{
  NodeCrypto, IsCipher, write_u16, bytes_xor, aes_cbc_mac, aes_ctr_xor, zeros, bytes_xor-returns,
  aes_cbc_mac-returns, aes_ctr_xor-returns, length-aes_cbc_mac,
}

abbrev pub counter_0_handshake : Bytes
counter_0_handshake = 0 ∷ 0 ∷ 0 ∷ 0 ∷ 0 ∷ 0 ∷ 0 ∷ 0 ∷ 0 ∷ 0 ∷ 0 ∷ 0 ∷ 0 ∷ 0 ∷ 0xff ∷ 0 ∷ []

abbrev pub session_response_header : Bytes
session_response_header = 0x06 ∷ 0x10 ∷ 0x09 ∷ 0x52 ∷ 0x00 ∷ 0x38 ∷ []

abbrev pub session_authenticate_header : Bytes
session_authenticate_header = 0x06 ∷ 0x10 ∷ 0x09 ∷ 0x53 ∷ 0x00 ∷ 0x18 ∷ []

abbrev pub pubkey_len : ℕ
pubkey_len = 32

unfoldable pub compute_session_response_mac : NodeCrypto → Bytes → ℕ → Bytes → Bytes → Result Bytes
compute_session_response_mac node device_auth_code session_id client_public_key server_public_key =
    do
      throw_if (not (length client_public_key == pubkey_len)) range_error
      throw_if (not (length server_public_key == pubkey_len)) range_error
      session_id_be ← write_u16 session_id
      pub_xor ← bytes_xor client_public_key server_public_key
      mac ←
          aes_cbc_mac node device_auth_code (session_response_header ++ (session_id_be ++ pub_xor))
            [] (zeros 16)
      aes_ctr_xor node device_auth_code counter_0_handshake mac

unfoldable pub compute_authenticate_mac : NodeCrypto → Bytes → ℕ → Bytes → Bytes → Result Bytes
compute_authenticate_mac node user_password_key user_id client_public_key server_public_key = do
  throw_if (not (length client_public_key == pubkey_len)) range_error
  throw_if (not (length server_public_key == pubkey_len)) range_error
  throw_if (not (leb 1 user_id && leb user_id 127)) range_error
  pub_xor ← bytes_xor client_public_key server_public_key
  mac ←
      aes_cbc_mac node user_password_key
        (session_authenticate_header ++ (0x00 ∷ user_id % 128 ∷ pub_xor)) [] (zeros 16)
  aes_ctr_xor node user_password_key counter_0_handshake mac

length-zeros : length (zeros 16) ≡ 16
length-zeros = refl

-- For keys of the right length and a user in range there is a MAC of 16 bytes.
pub compute_authenticate_mac-returns :
    (node : NodeCrypto) (v : IsCipher node) (key : Bytes) (user_id : ℕ) (client server : Bytes)
    → length key ≡ 16
    → length client ≡ 32
    → length server ≡ 32
    → 1 ≤ user_id
    → user_id ≤ 127
    → (mac : Bytes) × (compute_authenticate_mac node key user_id client server ≡ ok mac)
      × (length mac ≡ 16)
unfolding compute_authenticate_mac
compute_authenticate_mac-returns node v key user_id client server k c s lo hi =
    let (x, xe, xl) = bytes_xor-returns client server (omega arith) in
    let ad = session_authenticate_header ++ (0x00 ∷ user_id % 128 ∷ x) in
    let (mac, m) = aes_cbc_mac-returns node key ad [] (zeros 16) k length-zeros (omega arith) in
    let lm = length-aes_cbc_mac node v key ad [] (zeros 16) mac m in
    (
      node.aes_ctr key counter_0_handshake mac,
      ground (arith, xe, m, aes_ctr_xor-returns node key counter_0_handshake mac k (omega arith)),
      omega (arith, lm, v.length-aes_ctr key counter_0_handshake mac),
    )
