-- ===== src/Examples.antt =====
-- Tests of the models, and each theorem at a concrete input.
mod Codec
mod RaftLog
mod RaftNode
mod Structures
mod Storage
mod Processors
mod SkipList
mod Follower
mod Messages
mod Commands
