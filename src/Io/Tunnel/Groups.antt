-- ===== src/Io/Tunnel/Groups.antt =====
-- groupValueWrite() and groupValueRead() of TunnelClient. The group address is one that its constructor
-- has made, in the default style.
pub mod Sent
use node_red_contrib_eelectr.Base.{ℕ, Option, none, some, [], bit_or}
use node_red_contrib_eelectr.Core.Address.{IndividualAddress, GroupAddress}
use node_red_contrib_eelectr.Core.Apci.{
  ApduValue, Apci, group_value_write as write_of, group_value_read as read_of,
}
use node_red_contrib_eelectr.Core.Cemi.{
  CemiFrame, l_data_req, group, default_outgoing_flags, destination_group_address, priority_low,
}
use node_red_contrib_eelectr.Core.Telegram.{default_tpci}
use node_red_contrib_eelectr.Io.Tunnel.{TunnelClient, Outcome}
use node_red_contrib_eelectr.Io.Tunnel.Sending.{send_cemi}

-- `this._assignedAddress ?? new IndividualAddress(0)`.
abbrev pub source_of : Option IndividualAddress → IndividualAddress
source_of none = record { raw = 0 }
source_of (some a) = a

unfoldable pub group_frame : GroupAddress → Apci → TunnelClient → CemiFrame
group_frame dst payload c = record {
  code = l_data_req;
  additional_info = [];
  ldata = record {
    flags = bit_or (bit_or default_outgoing_flags destination_group_address) priority_low;
    src_addr = source_of c.assigned_address;
    dst_addr = group dst;
    tpci = default_tpci (group dst);
    payload = some payload;
  };
}

unfoldable pub group_value_write : GroupAddress → ApduValue → TunnelClient → Outcome
group_value_write dst value c = send_cemi (group_frame dst (write_of value) c) c

unfoldable pub group_value_read : GroupAddress → TunnelClient → Outcome
group_value_read dst c = send_cemi (group_frame dst read_of c) c
