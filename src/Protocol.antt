-- ===== src/Protocol.antt =====
-- internal/protocol: the datagrams. A byte slice is a list of numbers, each below 256.
pub mod MsgType
pub mod Envelope
pub mod Signed
pub mod Answer
pub mod Proof
pub mod Sealed
