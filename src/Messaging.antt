-- ===== src/Messaging.antt =====
-- js/core/protocol/src/messaging: the receiving daemon's defences.
pub mod RateLimiter
pub mod Defense
mod Tests
