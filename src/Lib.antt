-- ===== src/Lib.antt =====
-- EyaKV, a key-value store with Raft replication: the replication core, its log, its storage and its formats.
--
-- The parts and how they interact. A client's command becomes a LogEntry of the leader's RaftNode
-- (src/raft/raft.cpp), which appends it to its RaftLogArray (src/raft/raft_log_array.cpp): a vector
-- in memory, a write-ahead file of checked records, and an index file of their offsets. Followers
-- take entries by AppendEntries messages (include/raft/protocol/protocol.h), the leader commits an
-- index that a majority holds, and every node applies the committed entries to its storage. Term,
-- vote, members and indexes (PersistentState, include/raft/raft.h) go to a meta file. All formats
-- stand on the Serializer (include/common/serialization/serializer.h). A storage
-- (src/storage/storage.cpp) keeps the newest values in a memtable of skip lists, older ones in
-- immutable memtables, each with the name of its write-ahead file, and the rest in SSTables. A command
-- goes by its code to a processor (src/storage/processors.cpp), which logs it, changes the value in the
-- memtable, or copies an older value there; recovery replays the records of the log.
--
-- Which file models what:
--   Prelude        lists over the native numbers and their Boolean tests
--   Codec          serializer.h: Words (integers in memory order and htonl), Containers (strings,
--                  vectors, deques, pairs, sets, maps), their round trips, and Extends (readers on
--                  more bytes than they read)
--   Protocol       Address (include/common/socket/socket.h), the structs of protocol.h and
--                  PersistentState: Messages (the records), Wire and Cluster (serialize and
--                  deserialize), Envelope (RaftMessage) and Factory (the functions that make one),
--                  with theorems: RoundTrip, Persistence, Cluster/RoundTrip, Delivery
--   RaftLog        RaftLogArray: Crc (include/common/util/checksum_utils.h), State, Frames (the
--                  records of the two files), Ops and Batch (the member functions), and theorems:
--                  Recovery with Recovery/Restart, Views, Reset, Locks, Batch/Equivalence
--   RaftNode       RaftNode: State, Vote (elections, new masters, joins, the constructor), Append
--                  (handle_append_entries), Commit (try_commit_entries,
--                  apply_committed_entries_nolock, handle_append_entries_response), and theorems:
--                  Election, Quorum, Replication, Accept, Apply
--   Structures     Bloom (src/common/ds/bloom_filter.cpp), Lru (include/common/ds/lru_cache.h) and
--                  SkipList (include/common/ds/skip_list.h),
--                  with their theorems: Bloom/Bits, Bloom/Members, Lru/Items, Lru/Room, Lru/Recency, and
--                  Lru/Stored (its serialize and deserialize)
--   Effects        C++ calls that return or throw, and leave a state
--   Storage        Wal (src/storage/wal.cpp: append_log, write_record, sync, clear, recover)
--                  with Wal/Records and Wal/Replay; Value
--                  (include/common/types/value.h, include/storage/node.h); MemTable
--                  (src/storage/memtable.cpp); Engine, Commands and Recovery (src/storage/storage.cpp: reads,
--                  writes, rotation, expiry, removal, execute with its queries, and the replay of the
--                  log); OperationType
--                  (include/common/types/operation_type.h); Processors (src/storage/processors.cpp:
--                  Strings, Sets, Hashes, Deque with Deque/Execute), with theorems: Value/RoundTrip,
--                  OperationType/Partition, Deque/Range, Deque/Ends, Commands/SetGet, Recovery/Redo,
--                  Recovery/Lost
--   Examples       runs and theorems at concrete inputs
--
-- How code becomes definitions. A string is a list of bytes, an integer a natural number whose
-- wrap-around to 32 bits is written to_u32. A deserializer is a Reader, a function from the bytes
-- that are left to a value and the bytes after it; none is a read past the buffer, which the code
-- does not check. memcpy of an integer takes the byte order of the host, here little-endian, and
-- htonl swaps it. An unordered container is the list of its elements in iteration order, and
-- insertion puts a new element at the end. The port of an Address is its pattern of 32 bits. A file
-- is its bytes, and a null FILE* none; a stream that was opened as "ab+" stands at 0 until it is written, and
-- at the end then, which at_start keeps. What the disk does is an input: a Write is complete or stops
-- after some bytes, and its fflush is taken to succeed; a Rebuild says which files open and which writes succeed, a Disk does so for
-- the entries of a message. A Call of RaftLogArray goes from state to state, and takes the mutex
-- where the code does: std::shared_mutex is not recursive, so that a second lock in one thread ends
-- the call as relock. The size times the ratio in floating point is the parameter truncate_count.
-- The handlers of RaftNode run one at a time, as its recursive mutex makes them; sends, timers and
-- threads leave no trace in the model but for the reply that a handler sends. The meta file is
-- written whole. execute_command on the storage is a parameter, and the results that go to the
-- cache and the waiting clients are a list of Applied. What a node receives in become_follower is an Answer,
-- the messages behind a redirection included. The Bloom filter's product of bits per key and
-- 0.69 is the parameter scaled. An iterator of the LRU cache's list is the name of a node, and none
-- is the use of one that dangles.
--
-- The storage engine runs in one thread, and a call of it ends in a Result, a value or an exception, with
-- the state after it (Effects); none is undefined behaviour. What a call takes from its surroundings is an
-- Env: the level of a new node that random_level draws, the clock, a Device, and the name of a new file. A Device says how much fwrite takes
-- and how much of its buffer goes to the file, and whether fflush and the sync succeed; fclose is taken to
-- move the buffer to the file. A Platform holds the sizes of the types and the two numbers
-- that ZSet and floating point decide. ZSet is a parameter Z, whose code is not modelled, with its writer and reader, of which no theorem
-- assumes anything, ZSetProcessor::recover
-- the parameter recover_zset, and what the SSTables answer the field sstable_get. The queries take from an
-- Outside the pairs of the SSTables, std::regex and ZSetProcessor::execute. A pointer of the skip list is
-- an address of a heap, and none is the use of nullptr or of a level that a node does not have. The overloads
-- of the processors for std::string and std::string_view are one function, but for the two pushes, which log
-- different bytes. std::to_string, std::stoll and std::stoull are Codec/Decimal.
--
-- All loops are structural: over a list, over the bytes of the index file, or over the number of
-- indexes between last_applied and commit_index. The fuel of read_records is the number of bytes of the
-- file, which is enough since each record has at least one, and so is that of read_all. The search of a skip
-- list has a turn more than there are nodes on each level, and passes a node at most once there.
--
-- Not modelled: sockets, threads, timers and logging; flush and sync_metadata of RaftLogArray; snapshots,
-- membership and the client side of RaftNode; the flush to SSTables, their files and merges,
-- the checkpoints of the storage and the snapshot that a write makes stale; ZSet and its processor; the skip list's removals,
-- ranges and copies; the bytes of a Response; the configuration and the tools around them.
pub mod Prelude
pub mod Effects
pub mod Codec
pub mod Protocol
pub mod RaftLog
pub mod RaftNode
pub mod Structures
pub mod Storage
mod Examples
