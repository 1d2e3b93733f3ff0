-- ===== src/E2e.antt =====
-- js/core/protocol/src/e2e: the end-to-end encryption of application messages.
pub mod Types
pub mod Crypto
pub mod Messages
pub mod Session
pub mod Ratchet
pub mod KeyAgreement
pub mod Bootstrap
pub mod Devices
mod Tests
