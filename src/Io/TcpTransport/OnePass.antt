-- ===== src/Io/TcpTransport/OnePass.antt =====
-- One pass of the loop: it shortens the buffer, and bytes behind what it took do not change it.
use node_red_contrib_eelectr.Base.{
  ℕ, zero, suc, ◌+◌, ◌≤◌, ◌<◌, ◌≡◌, arith, [], ◌∷◌, ◌++◌, Bytes, length, length-append, drop,
  take-append, drop-append, Result, Error, ok, err,
}
use node_red_contrib_eelectr.Core.Header.{KnxipHeader, header_length, header_from_knx}
use node_red_contrib_eelectr.Io.TcpTransport.{Event, emit, bad_header, cut, pass_header, pass}

drop-shorter : (n : ℕ) (bs : Bytes) → n ≤ length bs → length (drop n bs) + n ≡ length bs
drop-shorter zero bs h = omega arith
drop-shorter (suc n) [] h = absurd (omega arith)
drop-shorter (suc n) (b ∷ bs) h = ground (arith, drop-shorter n bs (omega arith))

-- The header depends on the first six bytes alone.
pub header-front :
    (bs more : Bytes)
    → header_length ≤ length bs
    → header_from_knx (bs ++ more) ≡ header_from_knx bs
unfolding header_from_knx
header-front (a ∷ b ∷ c ∷ d ∷ e ∷ f ∷ bs) more h = ground (arith, length-append bs more)
header-front _ more h = absurd (omega arith)

module _ (bs rest : Bytes) (e : Event) where
  cut-shorter :
      (n : ℕ) → cut n bs ≡ emit e rest → header_length ≤ length bs → length rest < length bs
  unfolding cut
  cut-shorter n h hl = ground (arith, drop-shorter n bs, drop-shorter 1 bs)

  bad_header-shorter :
      (x : Error)
      → bad_header x bs ≡ emit e rest
      → header_length ≤ length bs
      → length rest < length bs
  unfolding bad_header
  bad_header-shorter x h hl = ground (arith, drop-shorter 1 bs)

  pass_header-shorter :
      (r : Result (KnxipHeader × ℕ))
      → pass_header bs r ≡ emit e rest
      → header_length ≤ length bs
      → length rest < length bs
  unfolding pass_header
  pass_header-shorter (ok (header, n)) h hl = cut-shorter header.total_length h hl
  pass_header-shorter (err x) h hl = bad_header-shorter x h hl

  -- A pass that emits takes something away.
  pub pass-shorter : pass bs ≡ emit e rest → length rest < length bs
  unfolding pass
  pass-shorter h = ground (arith, pass_header-shorter (header_from_knx bs))

-- More bytes behind a complete frame, or behind a header that does not parse, change nothing.
module _ (bs rest more : Bytes) (e : Event) where
  cut-front :
      (n : ℕ)
      → cut n bs ≡ emit e rest
      → header_length ≤ length bs
      → cut n (bs ++ more) ≡ emit e (rest ++ more)
  unfolding cut
  cut-front n h hl = ground (
    arith,
    length-append bs more,
    take-append n bs more,
    drop-append n bs more,
    drop-append 1 bs more,
    take-append header_length bs more,
  )

  bad_header-front :
      (x : Error)
      → bad_header x bs ≡ emit e rest
      → header_length ≤ length bs
      → bad_header x (bs ++ more) ≡ emit e (rest ++ more)
  unfolding bad_header
  bad_header-front x h hl = ground (arith, drop-append 1 bs more, take-append header_length bs more)

  pass_header-front :
      (r : Result (KnxipHeader × ℕ))
      → pass_header bs r ≡ emit e rest
      → header_length ≤ length bs
      → pass_header (bs ++ more) r ≡ emit e (rest ++ more)
  unfolding pass_header
  pass_header-front (ok (header, n)) h hl = cut-front header.total_length h hl
  pass_header-front (err x) h hl = bad_header-front x h hl

  pub pass-front : pass bs ≡ emit e rest → pass (bs ++ more) ≡ emit e (rest ++ more)
  unfolding pass
  pass-front h =
      ground
        (arith, length-append bs more, header-front bs more, pass_header-front (header_from_knx bs))
