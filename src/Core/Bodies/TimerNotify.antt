-- ===== src/Core/Bodies/TimerNotify.antt =====
-- src/core/bodies/timerNotify.ts: the TIMER_NOTIFY body.
use node_red_contrib_eelectr.Base.{
  ℕ, ◌^◌, ◌<◌, ◌≡◌, arith, not, ◌==◌, ltb, ◌++◌, Bytes, length, length-append, read_u16, read_u48,
  u16_be, u48_be, take, drop, take-exact, Result, ok, ◌>>=◌, ◌>>◌, throw_if, could_not_parse_knxip,
  range_error, PrefixRoundTrip,
}
use node_red_contrib_eelectr.Core.Bodies.SessionAuthenticate.{secure_mac_len}

abbrev pub timer_notify_len : ℕ
timer_notify_len = 30

pub record TimerNotify : Type 0 where
  pub timer : ℕ
  pub serial_number : ℕ
  pub message_tag : ℕ
  pub mac : Bytes

-- The constructor.
unfoldable pub new_timer_notify : ℕ → ℕ → ℕ → Bytes → Result TimerNotify
new_timer_notify timer serial_number message_tag mac = do
  throw_if (not (length mac == secure_mac_len)) range_error
  ok (record { timer = timer; serial_number = serial_number; message_tag = message_tag; mac = mac })

unfoldable pub calculated_length : TimerNotify → ℕ
calculated_length b = timer_notify_len

unfoldable pub from_knx : Bytes → Result (TimerNotify × ℕ)
from_knx raw = do
  throw_if (ltb (length raw) timer_notify_len) could_not_parse_knxip
  b ←
      new_timer_notify (read_u48 raw 0) (read_u48 raw 6) (read_u16 raw 12)
        (take secure_mac_len (drop 14 raw))
  ok (b, timer_notify_len)

unfoldable pub to_knx : TimerNotify → Result Bytes
to_knx b = do
  throw_if (ltb 0xffff_ffff_ffff b.timer) range_error
  throw_if (ltb 0xffff_ffff_ffff b.serial_number) range_error
  throw_if (ltb 0xffff b.message_tag) range_error
  ok (u48_be b.timer ++ (u48_be b.serial_number ++ (u16_be b.message_tag ++ b.mac)))

pub record IsWire (b : TimerNotify) : Type 0 where
  pub timer_fits : b.timer < 2 ^ 48
  pub serial_fits : b.serial_number < 2 ^ 48
  pub tag_fits : b.message_tag < 2 ^ 16
  pub mac_fits : length b.mac ≡ secure_mac_len

pub round_trip :
    (b : TimerNotify) → IsWire b → PrefixRoundTrip to_knx from_knx (calculated_length b) b
unfolding to_knx from_knx calculated_length new_timer_notify
round_trip b v = record {
  raw = u48_be b.timer ++ (u48_be b.serial_number ++ (u16_be b.message_tag ++ b.mac));
  written = ground (arith, v.timer_fits, v.serial_fits, v.tag_fits);
  counted = ground (arith, v.mac_fits);
  parsed = λ rest. ground (
    arith,
    v.timer_fits,
    v.serial_fits,
    v.tag_fits,
    v.mac_fits,
    length-append b.mac rest,
    take-exact secure_mac_len b.mac rest v.mac_fits,
  );
}
