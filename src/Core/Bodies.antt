-- ===== src/Core/Bodies.antt =====
-- The bodies of the KNX/IP frames, src/core/bodies.
pub mod ConnectionStateRequest
pub mod ConnectionStateResponse
pub mod DisconnectRequest
pub mod DisconnectResponse
pub mod TunnellingAck
pub mod TunnellingRequest
pub mod ConnectRequest
pub mod ConnectResponse
pub mod SearchRequest
pub mod SessionStatus
pub mod SessionAuthenticate
pub mod SessionRequest
pub mod SessionResponse
pub mod TimerNotify
pub mod SecureWrapper
pub mod SearchResponse
