-- ===== src/Core/Tpci.antt =====
-- src/core/tpci.ts: the transport-layer control byte.
pub mod Coding
use node_red_contrib_eelectr.Base.{
  ℕ, ◌+◌, ◌*◌, ◌/◌, ◌%◌, ◌^◌, Bool, true, false, not, ◌&&◌, ◌||◌, ◌==◌, if◌then◌else◌, bit_and,
  bit_or, Result, ok, err, ◌>>=◌, ◌>>◌, throw_if, conversion_error,
}
use node_red_contrib_eelectr.Base.Bits.{shl, shr}

abbrev pub control_bit : ℕ
control_bit = 0x80

abbrev pub numbered_bit : ℕ
numbered_bit = 0x40

pub data Tpci : Type 0 where
  t_data_group t_data_broadcast t_data_tag_group t_data_individual : Tpci
  t_data_connected : ℕ → Tpci
  t_connect t_disconnect : Tpci
  t_ack t_nak : ℕ → Tpci

unfoldable pub is_control_tpci : Tpci → Bool
is_control_tpci t_connect = true
is_control_tpci t_disconnect = true
is_control_tpci (t_ack n) = true
is_control_tpci (t_nak n) = true
is_control_tpci _ = false

unfoldable pub encode_tpci : Tpci → ℕ
encode_tpci t_data_group = 0
encode_tpci t_data_broadcast = 0
encode_tpci t_data_individual = 0
encode_tpci t_data_tag_group = shl (bit_and 1 0x0f) 2
encode_tpci (t_data_connected n) = bit_or numbered_bit (shl (bit_and n 0x0f) 2)
encode_tpci t_connect = bit_or control_bit 0
encode_tpci t_disconnect = bit_or control_bit 1
encode_tpci (t_ack n) = bit_or (bit_or (bit_or control_bit numbered_bit) (shl (bit_and n 0x0f) 2)) 2
encode_tpci (t_nak n) = bit_or (bit_or (bit_or control_bit numbered_bit) (shl (bit_and n 0x0f) 2)) 3

-- The part behind the branch on group destinations.
resolve_point : Bool → Bool → ℕ → ℕ → Result Tpci
resolve_point control numbered sequence_number flags =
    if not numbered && not (sequence_number == 0)
    then err conversion_error
    else if not control
    then ok (if numbered then t_data_connected sequence_number else t_data_individual)
    else if not numbered
    then (if flags == 0
        then ok t_connect
        else if flags == 1
        then ok t_disconnect
        else err conversion_error)
    else (if flags == 2
        then ok (t_ack sequence_number)
        else if flags == 3
        then ok (t_nak sequence_number)
        else err conversion_error)

unfoldable pub resolve_tpci : ℕ → Bool → Bool → Result Tpci
unfolding resolve_point
resolve_tpci raw_tpci dst_is_group_address dst_is_zero =
    let control = not (bit_and raw_tpci control_bit == 0) in
    let numbered = not (bit_and raw_tpci numbered_bit == 0) in
    let sequence_number = bit_and (shr raw_tpci 2) 0x0f in
    let point = resolve_point control numbered sequence_number (bit_and raw_tpci 3) in
    if dst_is_group_address
    then (if control || numbered
        then err conversion_error
        else if sequence_number == 0
        then ok (if dst_is_zero then t_data_broadcast else t_data_group)
        else if sequence_number == 1
        then ok t_data_tag_group
        else point)
    else point
