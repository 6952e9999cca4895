-- ===== src/RaftNode.antt =====
-- src/raft/raft.cpp with its class in include/raft/raft.h: a Raft node's elections, replication
-- and commits. Each handler runs under the node's mutex, and is one step here.
pub mod State
pub mod Vote
pub mod Append
pub mod Commit
pub mod Election
pub mod Quorum
pub mod Apply
pub mod Replication
pub mod Accept
