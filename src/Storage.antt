-- ===== src/Storage.antt =====
-- The storage engine of src/storage: its values, its write-ahead log, and the processors of commands.
pub mod Wal
pub mod Value
pub mod MemTable
pub mod Engine
pub mod Commands
pub mod OperationType
pub mod Processors
pub mod Recovery
