-- ===== src/Node.antt =====
-- internal/node: the client side. Every exchange with the server waits on a channel; what the other
-- goroutines do during a wait is an argument.
pub mod Packets
pub mod Model
pub mod Waiting
pub mod Peers
pub mod Outgoing
pub mod Incoming
pub mod Upkeep
pub mod Joining
pub mod Sound
pub mod Requests
pub mod Runs
