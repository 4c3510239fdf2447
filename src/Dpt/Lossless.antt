-- ===== src/Dpt/Lossless.antt =====
-- What a codec of src/dpt promises.
pub mod Ranges
pub mod Cut
pub mod Integers
pub mod Bits
pub mod Clocks
pub mod Dates
pub mod ClockFlags
pub mod Datetimes
pub mod Channels
pub mod Energy
pub mod Family
use node_red_contrib_eelectr.Base.{◌<◌, ◌≡◌, Bool, true, false, Result, ok, err, conversion_error}
use node_red_contrib_eelectr.Core.Apci.{ApduValue, group_value_write, apci_npdu_length}
use node_red_contrib_eelectr.Core.Apci.Coding.{Fits}
use node_red_contrib_eelectr.Dpt.Codec.{DptCodec}

-- A value that is written: what it becomes, and that a frame can carry this and the value is read back.
pub record Sent {V : Type 0} (c : DptCodec V) (v w : V) : Type 0 where
  pub apdu : ApduValue
  pub encoded : c.encode v ≡ ok apdu
  pub carried : Fits (group_value_write apdu)
  pub short : apci_npdu_length (group_value_write apdu) < 256
  pub decoded : c.decode apdu ≡ ok w

-- The codec takes the valid values and no others, and reads a value back as `read v`.
pub record IsLossless {V : Type 0} (c : DptCodec V) (valid : V → Bool) (read : V → V) : Type 0 where
  pub sends : (v : V) → valid v ≡ true → Sent c v (read v)
  pub refuses : (v : V) → valid v ≡ false → c.encode v ≡ err conversion_error

-- A value that is written: that a frame can carry it, and what it is read back as.
pub record Written {V : Type 0} (c : DptCodec V) (v : V) (r : Result V) : Type 0 where
  pub apdu : ApduValue
  pub encoded : c.encode v ≡ ok apdu
  pub carried : Fits (group_value_write apdu)
  pub short : apci_npdu_length (group_value_write apdu) < 256
  pub decoded : c.decode apdu ≡ r

pub sent-Written : {V : Type 0} (c : DptCodec V) (v w : V) → Sent c v w → Written c v (ok w)
sent-Written c v w s = record {
  apdu = s.apdu;
  encoded = s.encoded;
  carried = s.carried;
  short = s.short;
  decoded = s.decoded;
}

-- The codec sends the valid values, and of the others takes those that it should refuse but accepts.
pub record IsCodec {V : Type 0} (c : DptCodec V) (valid accepts : V → Bool) (read : V → V)
    (read_cut : V → Result V) : Type 0 where
  pub sends : (v : V) → valid v ≡ true → Sent c v (read v)
  pub takes : (v : V) → accepts v ≡ true → Written c v (read_cut v)
  pub refuses : (v : V) → accepts v ≡ false → c.encode v ≡ err conversion_error

pub lossless-IsCodec :
    {V : Type 0} (c : DptCodec V) (valid : V → Bool) (read : V → V)
    → IsLossless c valid read
    → IsCodec c valid valid read (λ v. ok (read v))
lossless-IsCodec c valid read l = record {
  sends = l.sends;
  takes = λ v h. sent-Written c v (read v) (l.sends v h);
  refuses = l.refuses;
}
