-- ===== src/Secure/Keys.antt =====
-- src/secure/keys.ts: the keys that are derived from passwords and from the shared secret.
use node_red_contrib_eelectr.Base.{ℕ, ◌%◌, map, Bytes, take, [], ◌∷◌}
use node_red_contrib_eelectr.Core.Text.{Text}
use node_red_contrib_eelectr.Secure.Crypto.{NodeCrypto}
use Prim.Native.String.{String}
use Prim.Native.Char.{code}

abbrev pub iterations : ℕ
iterations = 65_536

abbrev pub output_len : ℕ
output_len = 16

-- `Buffer.from(password, 'latin1')` keeps the low byte of each code unit.
unfoldable pub latin1 : Text → Bytes
latin1 = map (λ c. c % 256)

-- `Buffer.from(salt, 'ascii')` of a literal.
ascii : String → Bytes
ascii String.[] = []
ascii (String.◌∷◌ c s) = code c ∷ ascii s

unfoldable pub derive_device_auth_code : NodeCrypto → Text → Bytes
unfolding ascii latin1
derive_device_auth_code node password =
    node.pbkdf2_sha256 (latin1 password) (ascii "device-authentication-code.1.secure.ip.knx.org")
      iterations output_len

unfoldable pub derive_user_password_key : NodeCrypto → Text → Bytes
unfolding ascii latin1
derive_user_password_key node password =
    node.pbkdf2_sha256 (latin1 password) (ascii "user-password.1.secure.ip.knx.org") iterations
      output_len

unfoldable pub derive_session_key : NodeCrypto → Bytes → Bytes
derive_session_key node shared_secret = take 16 (node.sha256 shared_secret)
