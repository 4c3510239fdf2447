-- ===== src/Io/UdpTransport/Datagrams.antt =====
-- Datagrams between two transports, and the life of one.
use node_red_contrib_eelectr.Base.{Option, none, some}
use node_red_contrib_eelectr.Io.Tunnel.{SocketAddress}
use node_red_contrib_eelectr.Io.UdpTransport.{UdpTransport}

abbrev pub or_remote : SocketAddress → Option SocketAddress → SocketAddress
or_remote remote none = remote
or_remote remote (some addr) = addr
