-- ===== src/Relay/Tests.antt =====
-- The theorems on the relay's stores at work on small databases.
mod OfQueue
mod OfClients
mod OfRegistry
mod OfEndorsements
mod OfFederation
mod OfTokens
