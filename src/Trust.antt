-- ===== src/Trust.antt =====
-- js/core/protocol/src/trust: reputation and sybil defence.
pub mod Sybil
mod Tests
