-- ===== src/Secure.antt =====
-- src/secure: the cryptography of KNX/IP Secure. node:crypto is a parameter.
pub mod Crypto
pub mod Keys
pub mod Handshake
pub mod Wrapper
