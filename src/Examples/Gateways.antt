-- ===== src/Examples/Gateways.antt =====
-- Datagrams of a UDP transport and of a search for gateways.
use node_red_contrib_eelectr.Base.{ℕ, List, [], ◌∷◌, Bytes}
use node_red_contrib_eelectr.Core.Text.{Text}
use node_red_contrib_eelectr.Core.Bodies.ConnectionStateResponse as StateResponse
use node_red_contrib_eelectr.Core.Frame.{KnxipBody, connectionstate_response_body}
use node_red_contrib_eelectr.Core.Frame
use node_red_contrib_eelectr.Io.Tunnel.{SocketAddress}
use node_red_contrib_eelectr.Io.UdpTransport.{UdpTransport}
use node_red_contrib_eelectr.Io.Discovery

abbrev address : Text
address = b'1' ∷ b'0' ∷ b'.' ∷ b'0' ∷ b'.' ∷ b'0' ∷ b'.' ∷ b'9' ∷ []

abbrev gateway : SocketAddress
gateway = record { address = address; port = 3671 }

abbrev client : SocketAddress
client = record { address = address; port = 50000 }

abbrev alive : KnxipBody
alive = connectionstate_response_body (record { communication_channel_id = 7; status_code = 0 })

-- A SEARCH_RESPONSE without device information, from 192.168.1.x.
abbrev response_from : ℕ → Bytes
response_from x = 6 ∷ 16 ∷ 2 ∷ 2 ∷ 0 ∷ 14 ∷ 8 ∷ 1 ∷ 192 ∷ 168 ∷ 1 ∷ x ∷ 14 ∷ 87 ∷ []

-- The first gateway answers twice, and something that is no frame arrives.
abbrev datagrams : List Bytes
datagrams = response_from 5 ∷ (1 ∷ 2 ∷ []) ∷ response_from 6 ∷ response_from 5 ∷ []
