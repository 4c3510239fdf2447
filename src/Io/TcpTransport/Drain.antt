-- ===== src/Io/TcpTransport/Drain.antt =====
-- The loop of the transport as a function of the buffer alone, and what two runs of it amount to.
use node_red_contrib_eelectr.Base.{
  ℕ, zero, suc, ◌≤◌, ◌≡◌, ◌⊎◌, inl, inr, refl, arith, ap, sym, ◌∙◌, [], ◌∷◌, ◌++◌, Bytes, length,
}
use node_red_contrib_eelectr.Io.TcpTransport.{
  Event, Pass, wait, emit, pass, Drained, then_emit, drain,
}
use node_red_contrib_eelectr.Io.TcpTransport.OnePass.{pass-shorter, pass-front}

Pass-cases : (p : Pass) → (p ≡ wait) ⊎ ((e : Event) × (rest : Bytes) × (p ≡ emit e rest))
Pass-cases wait = inl refl
Pass-cases (emit e rest) = inr (e, rest, refl)

abbrev pub nothing_drained : Bytes → Drained
nothing_drained bs = record { events = []; rx_buf = bs }

-- One run of the loop, then another.
abbrev pub then_drained : Drained → Drained → Drained
then_drained a b = record { events = a.events ++ b.events; rx_buf = b.rx_buf }

pub drain-wait : (n : ℕ) (bs : Bytes) → pass bs ≡ wait → drain n bs ≡ nothing_drained bs
unfolding drain
drain-wait zero bs h = refl
drain-wait (suc n) bs h = ground (arith, h)

drain-emit :
    (n : ℕ) (bs rest : Bytes) (e : Event)
    → pass bs ≡ emit e rest
    → drain (suc n) bs ≡ then_emit e (drain n rest)
unfolding drain
drain-emit n bs rest e h = ground (arith, h)

-- Any number of passes from the length of the buffer on gives the same.
pub drain_fuel : (n m : ℕ) (bs : Bytes) → length bs ≤ n → length bs ≤ m → drain n bs ≡ drain m bs
unfolding pass drain
drain_fuel zero m [] hn hm = sym (drain-wait m [] refl)
drain_fuel zero m (b ∷ bs) hn hm = absurd (omega arith)
drain_fuel (suc n) zero [] hn hm = drain-wait (suc n) [] refl
drain_fuel (suc n) zero (b ∷ bs) hn hm = absurd (omega arith)
drain_fuel (suc n) (suc m) bs hn hm = elim (Pass-cases (pass bs)) [
  | inl w ↦ drain-wait (suc n) bs w ∙ sym (drain-wait (suc m) bs w)
  | inr (e, rest, h) ↦
      let s = pass-shorter bs rest e h in
      drain-emit n bs rest e h
      ∙ ap (then_emit e) (drain_fuel n m rest (omega arith) (omega arith))
      ∙ sym (drain-emit m bs rest e h)
]

-- The loop on a buffer, with as many passes as it needs.
abbrev pub settle : Bytes → Drained
settle bs = drain (length bs) bs

pub settle-emit :
    (bs rest : Bytes) (e : Event) → pass bs ≡ emit e rest → settle bs ≡ then_emit e (settle rest)
settle-emit bs rest e h =
    let s = pass-shorter bs rest e h in
    drain_fuel (length bs) (suc (length bs)) bs (omega arith) (omega arith)
    ∙ drain-emit (length bs) bs rest e h
    ∙ ap (then_emit e) (drain_fuel (length bs) (length rest) rest (omega arith) (omega arith))

-- The loop stops only where the buffer holds nothing that a pass could take.
pub settle-waits : (n : ℕ) (bs : Bytes) → length bs ≤ n → pass (settle bs).rx_buf ≡ wait
unfolding pass drain
settle-waits zero [] h = refl
settle-waits zero (b ∷ bs) h = absurd (omega arith)
settle-waits (suc n) bs h = elim (Pass-cases (pass bs)) [
  | inl w ↦ ground (arith, w, drain-wait (length bs) bs w)
  | inr (e, rest, he) ↦
      let s = pass-shorter bs rest e he in
      ground (arith, settle-emit bs rest e he, settle-waits n rest (omega arith))
]

-- More bytes may as well be added after a run as before it.
pub settle-append :
    (n : ℕ) (bs more : Bytes)
    → length bs ≤ n
    → settle (bs ++ more) ≡ then_drained (settle bs) (settle ((settle bs).rx_buf ++ more))
unfolding pass drain
settle-append zero [] more h = refl
settle-append zero (b ∷ bs) more h = absurd (omega arith)
settle-append (suc n) bs more h = elim (Pass-cases (pass bs)) [
  | inl w ↦ ground (arith, drain-wait (length bs) bs w)
  | inr (e, rest, he) ↦
      let s = pass-shorter bs rest e he in
      ground (
        arith,
        settle-emit bs rest e he,
        settle-emit (bs ++ more) (rest ++ more) e (pass-front bs rest more e he),
        settle-append n rest more (omega arith),
      )
]
