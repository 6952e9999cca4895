-- ===== src/RaftLog/Locks.antt =====
-- Where src/raft/raft_log_array.cpp takes its mutex again while it holds it.
use eya_kv.Prelude.{
  ℕ, ◌+◌, ◌<◌, ◌≤◌, ◌≡◌, ap, true, false, ◌||◌, ltb, leb, if◌then◌else◌, some, [], ◌∷◌, ◌++◌,
  length, length-append, arith,
}
use eya_kv.Codec.Containers.{put_all}
use eya_kv.Protocol.Messages.{LogEntry}
use eya_kv.RaftLog.State.{RaftLogArray, done, relock, Rebuild, complete, put_u64}
use eya_kv.RaftLog.Frames.{frame, ftell, write_entry_to_wal, write_index_entry}
use eya_kv.RaftLog.Ops.{
  size, truncate_from, truncate_before, get_last_index, append, truncate_if_large, push_entry,
  create_snapshot,
}
use eya_kv.RaftLog.Recovery.Durable.{IsDurable, indexed}

-- `truncate_from` of an unlocked log returns false at an index outside it, and at any index inside
-- it, its end included, ends in the second lock before anything is cut.
pub truncate_from_relocks :
    (r : Rebuild) (index : ℕ) (l : RaftLogArray)
    → l.locked ≡ false
    → truncate_from r index l ≡ (
        if ltb index l.base_index || ltb (l.base_index + size l) index
        then done false l
        else relock (record l { locked = true }))
unfolding truncate_from get_last_index
truncate_from_relocks r index l free = ground arith

-- `create_snapshot` of an unlocked log returns false at an index outside it, and at any index
-- inside it ends in the second lock before anything is cut.
pub create_snapshot_relocks :
    (r : Rebuild) (index : ℕ) (l : RaftLogArray)
    → l.locked ≡ false
    → create_snapshot r index l ≡ (
        if ltb index l.base_index || leb (l.base_index + size l) index
        then done false l
        else relock (record l { locked = true }))
unfolding create_snapshot truncate_before
create_snapshot_relocks r index l free = ground arith

-- The log that holds one entry more, in memory and in both files, with its mutex held.
abbrev pub pushed : (l : RaftLogArray) → IsDurable l → LogEntry → RaftLogArray
pushed l d e = record l {
  wal_file = some (d.wal ++ frame (indexed l e));
  at_start = false;
  entries = l.entries ++ indexed l e ∷ [];
  index_offsets = l.index_offsets ++ length d.wal ∷ [];
  index_file = some (put_all put_u64 l.index_offsets ++ put_u64 (length d.wal));
  locked = true;
}

-- An append with complete writes to an unlocked log with open files, which takes it past its
-- threshold where the truncation ratio leaves something to drop, stores its entry and then ends in
-- the second lock with no entry dropped.
pub append_past_threshold :
    (r : Rebuild) (l : RaftLogArray) (e : LogEntry) (d : IsDurable l)
    → l.locked ≡ false
    → l.config.log_size_threshold ≤ size l
    → 0 < l.config.truncate_count (size l + 1)
    → append r complete complete e l ≡ relock (pushed l d e)
unfolding append write_entry_to_wal ftell push_entry write_index_entry truncate_if_large
    truncate_before
append_past_threshold r l e d free past some_count = ground (
  arith,
  d.wal_is,
  d.at_end,
  d.index_is,
  length-append l.entries (indexed l e ∷ []),
  ap l.config.truncate_count (length-append l.entries (indexed l e ∷ [])),
)
