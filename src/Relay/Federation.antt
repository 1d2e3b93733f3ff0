-- ===== src/Relay/Federation.antt =====
-- js/relay/src/federation-manager.ts: relays that pass messages on to each other.
pub mod Types
pub mod Handshakes
pub mod Peers
pub mod Exports
pub mod Admission
pub mod Disconnection
pub mod Messages
pub mod Dispatch
pub mod Acceptance
