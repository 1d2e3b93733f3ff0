-- ===== src/Lib.antt =====
-- quadra-a: messaging between agents over relays. This library models the parts of it that decide
-- what is delivered, to whom and how often, and proves that they do so rightly.
--
-- Parts and how they meet. A node encrypts an application message (js/core/protocol/src/e2e) and
-- sends it to a relay (js/relay/src), which keeps it in a queue while the recipient is away, hands
-- out the public pre-keys with which sessions begin, searches its directory of agents and passes
-- events on to subscribers. The recipient checks what comes in (js/core/protocol/src/messaging and
-- js/core/protocol/src/trust) and decrypts it.
--
-- E2e: E2e/Types.antt is types.ts, E2e/Crypto.antt x25519.ts, E2e/Messages.antt messages.ts and
--   E2e/Session.antt and E2e/Ratchet.antt ratchet.ts. Functions carry the source's names. The code
--   clones a session and changes the clone; here a function returns the new session, and what the
--   code throws is a Result. The primitives of node:crypto and @noble, the hex text and the CBOR encoder are the
--   fields of the record Crypto, with their documented laws. Under E2e/Ratchet: the chain of
--   message keys (Chain), the store of skipped keys (Store, Skip, Bounds), single messages
--   (Delivery, Rejection), batches (Reorder) and whole flights between two ends (Conversation,
--   Flight). E2e/KeyAgreement.antt is x3dh.ts and E2e/Bootstrap.antt bootstrap.ts; under it, Delivered
--   joins the two ends of a first message and Consumption is about its one-time pre-key. That the
--   key pairs of two devices belong together is a hypothesis there, as X25519 promises it.
--   E2e/Devices.antt is device-state.ts, the keys of a device, and Renewal under it their rotation.
-- Messaging: Messaging/RateLimiter.antt is rate-limiter.ts and Messaging/Defense.antt defense.ts. The
--   store's tables are maps in the state. Amounts of tokens are whole numbers of units, trust scores
--   are in thousandths, where the code has floating point; the waiting time that it reports is only
--   modelled up to rounding, and nothing is proved of it.
-- Trust: Trust/Sybil.antt is sybil-defense.ts. The inner loop of the count of zero bits has fuel for
--   eight rounds, which is enough since a byte that is not 0 shows a bit within them.
-- Relay: Relay/Level.antt is the interface of the npm package level, with a model that shows that
--   its laws can hold. Over it stand Relay/Queue.antt (queue.ts) and Relay/PreKeys.antt
--   (prekey-store.ts). Relay/Subscriptions.antt is subscription-manager.ts; registry.ts is
--   Relay/Directory.antt, the search, and Relay/Registry.antt, the agents that it goes over. Keys of
--   a database are taken to be ASCII, so that the range from a prefix to the prefix with \xff is the
--   keys that start with the prefix.
-- Endorsements: Relay/Endorsements.antt is endorsement-index.ts with its three indexes, and
--   Relay/Endorsements/Queries.antt its answers; Filing, Agreement, Book, Saved, Endorsers and Summaries
--   hold the proofs. The hash that makes ids is a parameter whose hypothesis is that equal ids come of
--   one target and key; an average is kept as its sum and count.
-- Tokens: Relay/Tokens.antt is token.ts, revocation.ts and token-store.ts, over JSON, base64url and
--   Ed25519 as the fields of the record Platform.
-- Federation: the modules under Relay/Federation are federation-manager.ts. Types has the messages and the
--   manager's state, Handshakes the limits on incoming connections, Peers and Admission a relay's way
--   to its admission, Acceptance the first message on either side, Exports the agents that others learn
--   of, Messages and Dispatch the handling of messages and the routing, and Disconnection the loss of a
--   relay. A relay's handlers are functions from state and message to state and output; where the
--   code awaits an answer of a relay that is on probation, one function ends, and the handler of that
--   answer goes on with the admission up to its next wait. A connection that is begun is an output.
-- Base: Boolean tests, lists over the native numbers, insertion-ordered maps, results, integers,
--   sorting and permutations.
-- A module called Tests, and those below it, run the theorems on concrete values.
--
-- The clock and random values are arguments. Loops are structural; the loop over skipped keys runs
-- over the number of rounds that its own condition gives. Numbers of messages and times are natural
-- numbers, as the code keeps them far below 2 ^ 53.
--
-- Not modelled: the cryptographic primitives, the checks of decoded CBOR values, sockets, timers,
-- files and logging, what the federation's outgoing connections do between their beginning and their
-- welcome, the federation's status report, the relay's handling of clients' sockets, the node's
-- message store, the computation of trust scores in floating point, the command line and the Rust
-- implementation.
mod Base
pub mod E2e
pub mod Messaging
pub mod Trust
pub mod Relay
