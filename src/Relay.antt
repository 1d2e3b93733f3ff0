-- ===== src/Relay.antt =====
-- js/relay/src: the relay server's stores and indexes.
pub mod Level
pub mod Queue
pub mod Subscriptions
pub mod PreKeys
pub mod Directory
pub mod Registry
pub mod Endorsements
pub mod Tokens
pub mod Federation
mod Tests
