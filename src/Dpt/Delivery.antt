-- ===== src/Dpt/Delivery.antt =====
-- A value on its way from a flow to the gateway: the codec, the tunnel client and the cEMI frame.
use node_red_contrib_eelectr.Core.Apci.{group_value_write as write_of}
use node_red_contrib_eelectr.Io.Tunnel.Groups.{group_value_write}
