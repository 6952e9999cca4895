-- ===== src/RaftLog/Reset.antt =====
-- `RaftLogArray::reset` of src/raft/raft_log_array.cpp and a restart after it.
use eya_kv.Prelude.{ℕ, ◌≡◌, refl, true, false, some, [], arith}
use eya_kv.RaftLog.State.{RaftLogArray, done}
use eya_kv.RaftLog.Frames.{read_offsets}
use eya_kv.RaftLog.Ops.{reset, recover, reopen}

-- A reset of an unlocked log to an index, whose files can be opened, leaves an empty log that
-- begins there, and a restart over its files gives an empty log that begins at 1, whatever the
-- index was.
pub reset_restarts_at_one :
    (start : ℕ) (l : RaftLogArray)
    → l.locked ≡ false
    → (l' : RaftLogArray) × (reset true true start l ≡ done true l')
      × (l'.base_index ≡ start)
      × (l'.entries ≡ [])
      × (recover (reopen l') ≡ done true (record l' { base_index = 1; at_start = true }))
unfolding reset recover read_offsets
reset_restarts_at_one start l free = (
  record l {
    entries = [];
    index_offsets = [];
    base_index = start;
    wal_file = some [];
    at_start = false;
    index_file = some [];
    locked = false;
  },
  ground (arith, free),
  refl,
  refl,
  refl,
)
