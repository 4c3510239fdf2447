-- ===== src/Io/SecureSession/Verified.antt =====
-- A session has no key that the handshake did not verify.
pub mod Steps
pub mod Reached
use node_red_contrib_eelectr.Base.{
  ℕ, ◌≡◌, refl, arith, Bool, true, false, Option, none, some, Bytes, ok, sym, ◌∙◌,
}
use node_red_contrib_eelectr.Core.Bodies.SessionResponse.{SessionResponse}
use node_red_contrib_eelectr.Secure.Crypto.{NodeCrypto}
use node_red_contrib_eelectr.Io.SecureSession.{
  SecureSession, SecureSessionState, idle, requesting, authenticating, authenticated, closing,
  closed, same, Outcome, Reason, set_state, ◌▷◌,
}
use node_red_contrib_eelectr.Io.SecureSession.Opening.{
  verify_response, session_key_of, fail_handshake,
}

-- The key is the one agreed in a response that verified, and the identifier is that response's.
pub record Verified (node : NodeCrypto) (s : SecureSession) (key : Bytes) : Type 0 where
  pub response : SessionResponse
  pub from_server : s.server_pub ≡ some response.public_key
  pub identified : s.session_id ≡ response.session_id
  pub genuine : verify_response node s.device_auth_code response s ≡ ok true
  pub agreed : session_key_of node response.public_key s ≡ ok key

-- There is no key before the response, and there is one behind it.
abbrev pub consistent : SecureSessionState → Option Bytes → Bool
consistent idle none = true
consistent requesting none = true
consistent authenticating (some key) = true
consistent authenticated (some key) = true
consistent closing key = true
consistent closed key = true
consistent _ _ = false

abbrev pub KeyVerified : NodeCrypto → SecureSession → Type 0
KeyVerified node s = (key : Bytes) → s.session_key ≡ some key → Verified node s key

pub record IsSafe (node : NodeCrypto) (s : SecureSession) : Type 0 where
  pub consistently : consistent s.state s.session_key ≡ true
  pub verified : KeyVerified node s

-- What no method but the handler of the response touches.
pub record SameKey (s t : SecureSession) : Type 0 where
  pub key : t.session_key ≡ s.session_key
  pub server : t.server_pub ≡ s.server_pub
  pub identifier : t.session_id ≡ s.session_id
  pub code : t.device_auth_code ≡ s.device_auth_code
  pub own_pub : t.client_pub ≡ s.client_pub
  pub own_priv : t.client_priv ≡ s.client_priv

pub SameKey-KeyVerified :
    (node : NodeCrypto) (s t : SecureSession)
    → SameKey s t
    → KeyVerified node s
    → KeyVerified node t
unfolding verify_response session_key_of
SameKey-KeyVerified node s t k all key h =
    let v = all key (sym k.key ∙ h) in
    record {
      response = v.response;
      from_server = k.server ∙ v.from_server;
      identified = k.identifier ∙ v.identified;
      genuine = ground (arith, k.code, k.own_pub, v.genuine);
      agreed = ground (arith, k.own_priv, v.agreed);
    }
