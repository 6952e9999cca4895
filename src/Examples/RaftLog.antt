-- ===== src/Examples/RaftLog.antt =====
-- The log of src/raft/raft_log_array.cpp at concrete inputs.
use eya_kv.Prelude.{◌/◌, ◌^◌, ◌<◌, ◌≡◌, refl, true, false, some, [], ◌∷◌, ◌++◌, length, arith}
use eya_kv.Codec.Words.{put_u32, put_net}
use eya_kv.Codec.Containers.{serialize_string, put_all}
use eya_kv.Protocol.Messages.{LogEntry}
use eya_kv.Protocol.Wire.{serialize_entry}
use eya_kv.RaftLog.State.{LogConfig, RaftLogArray, done, relock, complete, Rebuild, put_u64}
use eya_kv.RaftLog.Frames.{ftell, frame}
use eya_kv.RaftLog.Ops.{get, append, truncate_from, create_snapshot, reset, recover, reopen}
use eya_kv.RaftLog.Recovery.Reads.{FitsFrame, read_at-frame}
use eya_kv.RaftLog.Recovery.Durable.{IsDurable, IsRestartable, indexed, append_survives_restart}
use eya_kv.RaftLog.Recovery.Stored.{restored_base}
use eya_kv.RaftLog.Recovery.Restart.{append_after_restart}
use eya_kv.RaftLog.Reset.{reset_restarts_at_one}
use eya_kv.RaftLog.Views.{get-eq-view}
use eya_kv.RaftLog.Locks.{
  truncate_from_relocks, create_snapshot_relocks, pushed, append_past_threshold,
}

abbrev pub config : LogConfig
config = record { log_size_threshold = 1; truncate_count = λ n. n / 2; info = false }

abbrev pub empty_log : RaftLogArray
empty_log = record {
  entries = [];
  base_index = 1;
  wal_file = some [];
  at_start = true;
  index_offsets = [];
  index_file = some [];
  config = config;
  locked = false;
}

abbrev pub whole : Rebuild
whole = record {
  wal_opened = true;
  index_opened = true;
  wal_writes = λ _. complete;
  index_writes = λ _. complete;
}

abbrev pub first : LogEntry
first = record {
  term = 3;
  index = 1;
  command_type = 0;
  cmd = 115 ∷ 101 ∷ 116 ∷ [];
  timestamp = 5_000_000_000;
  request_id = 55 ∷ [];
}

pub first-FitsFrame : FitsFrame first
unfolding serialize_entry serialize_string put_net put_u32
first-FitsFrame = record {
  fits = record {
    term_fits = omega arith;
    index_fits = omega arith;
    type_fits = omega arith;
    timestamp_fits = omega arith;
    cmd_fits = omega arith;
    id_fits = omega arith;
  };
  length_fits = omega arith;
}

empty_log-IsRestartable : IsRestartable empty_log
unfolding put_all ftell
empty_log-IsRestartable = record {
  durable = record { wal = []; wal_is = refl; at_end = refl; index_is = refl; stored = tt };
  indexed_entries = tt;
  unlocked = refl;
}

empty_wal : length empty_log-IsRestartable.durable.wal < 2 ^ 64
unfolding empty_log-IsRestartable
empty_wal = omega arith

append_survives_restart_example :
    (l' : RaftLogArray) × (append whole complete complete first empty_log ≡ done (true, first) l')
    × (l'.entries ≡ first ∷ [])
    × IsRestartable l'
    × (recover (reopen l')
        ≡ done true
            (record l' { base_index = restored_base l'.base_index l'.entries; at_start = true }))
append_survives_restart_example =
    append_survives_restart whole complete empty_log first empty_log-IsRestartable first-FitsFrame
      empty_wal (omega arith) (omega arith)

-- The log after that append.
abbrev pub one_log : RaftLogArray
one_log = record empty_log {
  entries = first ∷ [];
  wal_file = some (frame first);
  at_start = false;
  index_offsets = 0 ∷ [];
  index_file = some (put_u64 0 ++ []);
}

one_log-IsDurable : IsDurable one_log
unfolding put_all ftell
one_log-IsDurable = record {
  wal = frame first;
  wal_is = refl;
  at_end = refl;
  index_is = refl;
  stored = (read_at-frame [] first first-FitsFrame, omega arith, tt);
}

-- That log, with room for more entries.
abbrev roomy_log : RaftLogArray
roomy_log = record one_log {
  config = record { log_size_threshold = 10; truncate_count = λ n. n; info = false };
}

roomy_log-IsRestartable : IsRestartable roomy_log
unfolding put_all ftell
roomy_log-IsRestartable = record {
  durable = record {
    wal = frame first;
    wal_is = refl;
    at_end = refl;
    index_is = refl;
    stored = (read_at-frame [] first first-FitsFrame, omega arith, tt);
  };
  indexed_entries = (refl, tt);
  unlocked = refl;
}

append_after_restart_example :
    (l1 l2 : RaftLogArray) × (recover (reopen roomy_log) ≡ done true l1)
    × (append whole complete complete first l1 ≡ done (true, indexed roomy_log first) l2)
    × (l2.entries ≡ first ∷ indexed roomy_log first ∷ [])
    × (recover (reopen l2)
        ≡ done true (record l2 { entries = first ∷ first ∷ []; at_start = true }))
append_after_restart_example =
    append_after_restart whole roomy_log first first [] [] roomy_log-IsRestartable refl refl
      (omega arith)

get-eq-view_example : get 1 one_log ≡ done (some first) one_log
get-eq-view_example = get-eq-view one_log 1 refl

truncate_from_relocks_example :
    truncate_from whole 1 one_log ≡ relock (record one_log { locked = true })
truncate_from_relocks_example = truncate_from_relocks whole 1 one_log refl

create_snapshot_relocks_example :
    create_snapshot whole 1 one_log ≡ relock (record one_log { locked = true })
create_snapshot_relocks_example = create_snapshot_relocks whole 1 one_log refl

append_past_threshold_example :
    append whole complete complete first one_log ≡ relock (pushed one_log one_log-IsDurable first)
append_past_threshold_example =
    append_past_threshold whole one_log first one_log-IsDurable refl (omega arith) (omega arith)

reset_restarts_at_one_example :
    (l' : RaftLogArray) × (reset true true 40 one_log ≡ done true l')
    × (l'.base_index ≡ 40)
    × (l'.entries ≡ [])
    × (recover (reopen l') ≡ done true (record l' { base_index = 1; at_start = true }))
reset_restarts_at_one_example = reset_restarts_at_one 40 one_log refl
