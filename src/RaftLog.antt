-- ===== src/RaftLog.antt =====
-- src/raft/raft_log_array.cpp with its class in include/raft/raft.h: the log of a Raft node, its
-- write-ahead file and its index file.
pub mod Crc
pub mod State
pub mod Frames
pub mod Ops
pub mod Recovery
pub mod Views
pub mod Locks
pub mod Reset
pub mod Batch
