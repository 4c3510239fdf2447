-- ===== src/Io.antt =====
-- The transports and the tunnel client, src/io.
pub mod TcpTransport
pub mod Tunnel
pub mod SecureSession
pub mod UdpTransport
pub mod Discovery
