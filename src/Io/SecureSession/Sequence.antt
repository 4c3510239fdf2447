-- ===== src/Io/SecureSession/Sequence.antt =====
-- The sequence numbers of the wrappers that a session sends.
pub mod Steps
pub mod Unique
use node_red_contrib_eelectr.Base.{
  ℕ, suc, length, ◌+◌, ◌^◌, ◌≤◌, ◌<◌, ◌≡◌, refl, ap, sym, ◌∙◌, arith, ltb, List, [], ◌∷◌, ◌++◌,
  append_assoc, Bytes, Result, ok, err, ◌>>=◌, >>=-eq-ok, throw_if-eq-ok, range_error, Option, none,
  some, Bool-cases, inl, inr,
}
use node_red_contrib_eelectr.Core.Bodies.SecureWrapper.{SecureWrapper, new_secure_wrapper}
use node_red_contrib_eelectr.Core.Frame.{KnxipBody, KnxipFrame, secure_wrapper_body}
use node_red_contrib_eelectr.Secure.Crypto.{NodeCrypto}
use node_red_contrib_eelectr.Secure.Wrapper.{
  WrapperInfo, WrapperBlocks, Sealed, build_blocks, encrypt_secure_wrapper,
}
use node_red_contrib_eelectr.Io.SecureSession.{SecureSession, Outcome, Action, send_inner, ◌▷◌}
use node_red_contrib_eelectr.Io.SecureSession.Sending.{info_of, wrap}

abbrev pub body_sequence : KnxipBody → List ℕ
body_sequence (secure_wrapper_body w) = w.sequence_id ∷ []
body_sequence _ = []

abbrev pub action_sequence : Action → List ℕ
action_sequence (send_inner body) = body_sequence body
action_sequence _ = []

abbrev pub sequences : List Action → List ℕ
sequences [] = []
sequences (action ∷ actions) = action_sequence action ++ sequences actions

-- Numbers that grow, from `lo` on and below `hi`, and fit the field of a wrapper.
abbrev pub Ascends : ℕ → ℕ → List ℕ → Type 0
Ascends lo hi [] = lo ≤ hi
Ascends lo hi (n ∷ ns) = (lo ≤ n) × (n < 2 ^ 48) × Ascends (suc n) hi ns

Ascends-weaken : (lo mid hi : ℕ) (ns : List ℕ) → lo ≤ mid → Ascends mid hi ns → Ascends lo hi ns
Ascends-weaken lo mid hi [] h a = omega arith
Ascends-weaken lo mid hi (n ∷ ns) h a = (omega (arith, a.0), a.1, a.2)

Ascends-append :
    (lo mid hi : ℕ) (ms ns : List ℕ)
    → Ascends lo mid ms
    → Ascends mid hi ns
    → Ascends lo hi (ms ++ ns)
Ascends-append lo mid hi [] ns a b = Ascends-weaken lo mid hi ns a b
Ascends-append lo mid hi (m ∷ ms) ns a b = (a.0, a.1, Ascends-append (suc m) mid hi ms ns a.2 b)

sequences-append : (xs ys : List Action) → sequences (xs ++ ys) ≡ sequences xs ++ sequences ys
sequences-append [] ys = refl
sequences-append (x ∷ xs) ys =
    ap (◌++◌ (action_sequence x)) (sequences-append xs ys)
    ∙ sym (append_assoc (action_sequence x) (sequences xs) (sequences ys))

-- What a method sends carries on from the counter `n`, up to the new counter.
abbrev pub Advances : ℕ → Outcome → Type 0
Advances n o = Ascends n o.session.sequence_id (sequences o.actions)

pub ▷-Advances :
    (n : ℕ) (a : Outcome) (f : SecureSession → Outcome)
    → Advances n a
    → Advances a.session.sequence_id (f a.session)
    → Advances n (a ▷ f)
▷-Advances n a f h k = rw (sequences-append a.actions (f a.session).actions) (
    Ascends-append n a.session.sequence_id (f a.session).session.sequence_id (sequences a.actions)
      (sequences (f a.session).actions) h k)

build_blocks-fits :
    (info : WrapperInfo) (n : ℕ) {blocks : WrapperBlocks}
    → build_blocks info n ≡ ok blocks
    → info.sequence_id < 2 ^ 48
unfolding build_blocks
build_blocks-fits info n h = ground (arith, h)

encrypted_fits :
    (node : NodeCrypto) (key plain : Bytes) (info : WrapperInfo) {sealed : Sealed}
    → encrypt_secure_wrapper node key info plain ≡ ok sealed
    → info.sequence_id < 2 ^ 48
unfolding encrypt_secure_wrapper
encrypted_fits node key plain info h =
    let (blocks, b, rest) = >>=-eq-ok (build_blocks info (length plain)) _ h in
    build_blocks-fits info (length plain) b

-- A wrapper bears the number that it was made with.
pub wrap-sequence :
    (node : NodeCrypto) (key plain : Bytes) (seq : ℕ) (s : SecureSession) {body : KnxipBody}
    → wrap node key seq plain s ≡ ok body
    → (body_sequence body ≡ seq ∷ []) × (seq < 2 ^ 48)
unfolding wrap new_secure_wrapper
wrap-sequence node key plain seq s h =
    let (sealed, e, rest) = >>=-eq-ok (encrypt_secure_wrapper node key (info_of s seq) plain) _ h in
    (ground (arith, rest), encrypted_fits node key plain (info_of s seq) e)

pub framed-sequence :
    (node : NodeCrypto) (key : Bytes) (m : Result Bytes) (seq : ℕ) (s : SecureSession)
    {body : KnxipBody}
    → (m >>= λ plain. wrap node key seq plain s) ≡ ok body
    → (body_sequence body ≡ seq ∷ []) × (seq < 2 ^ 48)
framed-sequence node key (ok plain) seq s h = wrap-sequence node key plain seq s h
framed-sequence node key (err e) seq s h = cc
