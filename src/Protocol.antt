-- ===== src/Protocol.antt =====
-- include/raft/protocol/protocol.h, and `Address` of include/common/socket/socket.h: the messages
-- between Raft nodes and their bytes.
pub mod Messages
pub mod Wire
pub mod RoundTrip
pub mod Cluster
pub mod Envelope
pub mod Factory
pub mod Delivery
pub mod Persistence
