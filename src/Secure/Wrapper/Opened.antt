-- ===== src/Secure/Wrapper/Opened.antt =====
-- Decryption accepts what encryption makes, and nothing else.
use node_red_contrib_eelectr.Base.{
  ℕ, ◌+◌, ◌^◌, ◌<◌, ◌≡◌, ◌↔◌, [], ◌∷◌, u16_be, u48_be, arith, not, ◌==◌, ◌++◌, Bytes, length,
  length-append, length-take, length-drop, take, drop, take-exact, drop-exact, take-append_drop,
  list_eq_self, list_eq_sound, list_eq, ok, range_error, plain_error, >>=-eq-ok, throw_if-eq-ok,
}
use node_red_contrib_eelectr.Secure.Crypto.{
  NodeCrypto, IsCipher, aes_cbc_mac, aes_ctr_xor, length-aes_cbc_mac, aes_ctr_xor-twice,
  length-aes_ctr_xor, aes_cbc_mac-returns, aes_ctr_xor-returns,
}
use node_red_contrib_eelectr.Secure.Wrapper.{
  wrapper_header_prefix, WrapperInfo, WrapperBlocks, Sealed, build_blocks, encrypt_secure_wrapper,
  decrypt_secure_wrapper,
}

module _ (node : NodeCrypto) (v : IsCipher node) (key : Bytes) (info : WrapperInfo) where
  -- From the parts of a call of the one to a call of the other.
  opens :
      (plain mac stream : Bytes) (blocks : WrapperBlocks)
      → build_blocks info (length plain) ≡ ok blocks
      → aes_cbc_mac node key blocks.additional_data plain blocks.block0 ≡ ok mac
      → aes_ctr_xor node key blocks.counter0 (mac ++ plain) ≡ ok stream
      → decrypt_secure_wrapper node key info
          (record { encrypted_frame = drop 16 stream; mac = take 16 stream })
        ≡ ok plain
  unfolding decrypt_secure_wrapper
  opens plain mac stream blocks b m s =
      let l16 = length-aes_cbc_mac node v key blocks.additional_data plain blocks.block0 mac m in
      ground (
        arith,
        b,
        m,
        l16,
        take-append_drop 16 stream,
        aes_ctr_xor-twice node v key blocks.counter0 (mac ++ plain) stream s,
        length-aes_ctr_xor node v key blocks.counter0 (mac ++ plain) stream s,
        length-append mac plain,
        length-take 16 stream,
        length-drop 16 stream,
        take-exact 16 mac plain l16,
        drop-exact 16 mac plain l16,
        list_eq_self mac,
      )

  seals :
      (sealed : Sealed) (stream mac : Bytes) (blocks : WrapperBlocks)
      → length sealed.mac ≡ 16
      → build_blocks info (length sealed.encrypted_frame) ≡ ok blocks
      → aes_ctr_xor node key blocks.counter0 (sealed.mac ++ sealed.encrypted_frame) ≡ ok stream
      → aes_cbc_mac node key blocks.additional_data (drop 16 stream) blocks.block0 ≡ ok mac
      → take 16 stream ≡ mac
      → encrypt_secure_wrapper node key info (drop 16 stream) ≡ ok sealed
  unfolding encrypt_secure_wrapper
  seals sealed stream mac blocks l16 b s m e = ground (
    arith,
    b,
    m,
    e,
    l16,
    take-append_drop 16 stream,
    aes_ctr_xor-twice node v key blocks.counter0 (sealed.mac ++ sealed.encrypted_frame) stream s,
    length-aes_ctr_xor node v key blocks.counter0 (sealed.mac ++ sealed.encrypted_frame) stream s,
    length-append sealed.mac sealed.encrypted_frame,
    length-drop 16 stream,
    take-exact 16 sealed.mac sealed.encrypted_frame l16,
    drop-exact 16 sealed.mac sealed.encrypted_frame l16,
  )

  encrypted-decrypts :
      (plain : Bytes) (sealed : Sealed)
      → encrypt_secure_wrapper node key info plain ≡ ok sealed
      → decrypt_secure_wrapper node key info sealed ≡ ok plain
  unfolding encrypt_secure_wrapper
  encrypted-decrypts plain sealed h =
      let (blocks, b, h1) = >>=-eq-ok (build_blocks info (length plain)) _ h in
      let (mac, m, h2) =
        >>=-eq-ok (aes_cbc_mac node key blocks.additional_data plain blocks.block0) _ h1 in
      let (stream, s, h3) = >>=-eq-ok (aes_ctr_xor node key blocks.counter0 (mac ++ plain)) _ h2 in
      ground (arith, h3, opens plain mac stream blocks b m s)

  decrypted-encrypts :
      (plain : Bytes) (sealed : Sealed)
      → decrypt_secure_wrapper node key info sealed ≡ ok plain
      → encrypt_secure_wrapper node key info plain ≡ ok sealed
  unfolding decrypt_secure_wrapper
  decrypted-encrypts plain sealed h =
      let (l16, h0) = throw_if-eq-ok (not (length sealed.mac == 16)) range_error _ h in
      let (blocks, b, h1) = >>=-eq-ok (build_blocks info (length sealed.encrypted_frame)) _ h0 in
      let (stream, s, h2) =
        >>=-eq-ok (aes_ctr_xor node key blocks.counter0 (sealed.mac ++ sealed.encrypted_frame)) _
          h1 in
      let (mac, m, h3) =
        >>=-eq-ok (aes_cbc_mac node key blocks.additional_data (drop 16 stream) blocks.block0) _
          h2 in
      let (same, h4) = throw_if-eq-ok (not (list_eq (take 16 stream) mac)) plain_error _ h3 in
      ground (
        arith,
        h4,
        seals sealed stream mac blocks (ground (arith, l16)) b s m
            (list_eq_sound (take 16 stream) mac (ground (arith, same))),
      )

  -- A wrapper decrypts to a frame exactly when encrypting that frame makes this ciphertext and this
  -- MAC, whatever the key, the session, the sequence number, the serial number and the tag are.
  pub decrypt-iff-encrypt :
      (plain : Bytes) (sealed : Sealed)
      → (decrypt_secure_wrapper node key info sealed ≡ ok plain)
        ↔ (encrypt_secure_wrapper node key info plain ≡ ok sealed)
  decrypt-iff-encrypt plain sealed =
      (decrypted-encrypts plain sealed, encrypted-decrypts plain sealed)

-- The values of the fields of a wrapper that fit them.
pub record Fits (info : WrapperInfo) : Type 0 where
  pub session_fits : info.session_id < 2 ^ 16
  pub sequence_fits : info.sequence_id < 2 ^ 48
  pub serial_fits : info.serial_number < 2 ^ 48
  pub tag_fits : info.message_tag < 2 ^ 16

build_blocks-returns :
    (info : WrapperInfo) (n : ℕ)
    → Fits info
    → 38 + n < 2 ^ 16
    → (blocks : WrapperBlocks) × (build_blocks info n ≡ ok blocks)
      × (length blocks.block0 ≡ 16)
      × (length blocks.counter0 ≡ 16)
      × (length blocks.additional_data ≡ 8)
unfolding build_blocks
build_blocks-returns info n f h =
    let front = λ (rest : Bytes).
      u48_be info.sequence_id ++ (u48_be info.serial_number ++ (u16_be info.message_tag ++ rest)) in
    (
      record {
        block0 = front (u16_be n);
        counter0 = front (0xff ∷ 0x00 ∷ []);
        additional_data = (wrapper_header_prefix ++ u16_be (38 + n)) ++ u16_be info.session_id;
      },
      ground (arith, f.session_fits, f.sequence_fits, f.serial_fits, f.tag_fits),
      omega arith,
      omega arith,
      omega arith,
    )

-- Whatever fits the fields of a wrapper is encrypted, to as many bytes.
pub encrypt-returns :
    (node : NodeCrypto) (v : IsCipher node) (key plain : Bytes) (info : WrapperInfo)
    → length key ≡ 16
    → Fits info
    → 38 + length plain < 2 ^ 16
    → (sealed : Sealed) × (encrypt_secure_wrapper node key info plain ≡ ok sealed)
      × (length sealed.mac ≡ 16)
      × (length sealed.encrypted_frame ≡ length plain)
unfolding encrypt_secure_wrapper
encrypt-returns node v key plain info k f h =
    let (blocks, b, l0, lc, la) = build_blocks-returns info (length plain) f h in
    let (mac, m) =
      aes_cbc_mac-returns node key blocks.additional_data plain blocks.block0 k l0 (omega arith) in
    let l16 = length-aes_cbc_mac node v key blocks.additional_data plain blocks.block0 mac m in
    let stream = node.aes_ctr key blocks.counter0 (mac ++ plain) in
    (
      record { encrypted_frame = drop 16 stream; mac = take 16 stream },
      ground (arith, b, m, aes_ctr_xor-returns node key blocks.counter0 (mac ++ plain) k lc),
      omega (
        arith,
        l16,
        length-take 16 stream,
        v.length-aes_ctr key blocks.counter0 (mac ++ plain),
        length-append mac plain,
      ),
      omega (
        arith,
        l16,
        length-drop 16 stream,
        v.length-aes_ctr key blocks.counter0 (mac ++ plain),
        length-append mac plain,
      ),
    )
