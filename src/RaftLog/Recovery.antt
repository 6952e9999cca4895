-- ===== src/RaftLog/Recovery.antt =====
-- What survives a restart: the entries that were appended, read back from the files of
-- src/raft/raft_log_array.cpp.
pub mod Reads
pub mod Stored
pub mod Durable
pub mod Restart
