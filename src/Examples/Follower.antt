-- ===== src/Examples/Follower.antt =====
-- `handle_append_entries` of src/raft/raft.cpp on a follower that has the first of two entries.
use eya_kv.Prelude.{◌++◌, false, ◌+◌, ◌^◌, ◌<◌, ◌≡◌, refl, some, [], ◌∷◌, length, arith}
use eya_kv.Codec.Words.{put_u32, put_net}
use eya_kv.Codec.Containers.{serialize_string, put_all}
use eya_kv.Protocol.Messages.{LogEntry, AppendEntriesData}
use eya_kv.Protocol.Wire.{serialize_entry}
use eya_kv.RaftLog.State.{put_u64, RaftLogArray, done, complete}
use eya_kv.RaftLog.Frames.{frame, ftell}
use eya_kv.RaftLog.Ops.{entry_at}
use eya_kv.RaftLog.Recovery.Reads.{FitsFrame, read_at-frame}
use eya_kv.RaftLog.Recovery.Durable.{IsRestartable}
use eya_kv.RaftNode.State.{RaftNode}
use eya_kv.RaftNode.Append.{Disk, append_loop, prev_matches, handle_append_entries}
use eya_kv.RaftNode.Replication.{Holds, IsReliable, Continues, Extended, append_loop-Extended}
use eya_kv.RaftLog.Batch.{numbered, batch_append}
use eya_kv.RaftLog.Batch.Steps.{HasRoom}
use eya_kv.RaftLog.Batch.Equivalence.{append_each, batch_append-eq-each}
use eya_kv.RaftNode.Accept.{Accepted, handle_append_entries-Accepted}
use eya_kv.Examples.RaftLog.{whole, first, first-FitsFrame, one_log}
use eya_kv.Examples.RaftNode.{node}

abbrev follower_log : RaftLogArray
follower_log = record one_log {
  config = record { log_size_threshold = 10; truncate_count = λ n. n; info = false };
}

abbrev follower : RaftNode
follower = record node { log_array = follower_log }

abbrev second : LogEntry
second = record first { term = 4; index = 2 }

abbrev disk : Disk
disk = record { rebuild = whole; wal_writes = λ _. complete; index_writes = λ _. complete }

abbrev message : AppendEntriesData
message = record {
  prev_log_index = 0;
  prev_log_term = 0;
  entries = some (first ∷ second ∷ []);
  leader_commit = 1;
}

disk-IsReliable : IsReliable disk
disk-IsReliable = record { wal_complete = λ i. refl; index_complete = λ i. refl }

second-FitsFrame : FitsFrame second
unfolding serialize_entry serialize_string put_net put_u32
second-FitsFrame = record {
  fits = record {
    term_fits = omega arith;
    index_fits = omega arith;
    type_fits = omega arith;
    timestamp_fits = omega arith;
    cmd_fits = omega arith;
    id_fits = omega arith;
  };
  length_fits = omega arith;
}

follower_log-IsRestartable : IsRestartable follower_log
unfolding put_all ftell
follower_log-IsRestartable = record {
  durable = record {
    wal = frame first;
    wal_is = refl;
    at_end = refl;
    index_is = refl;
    stored = (read_at-frame [] first first-FitsFrame, omega arith, tt);
  };
  indexed_entries = (refl, tt);
  unlocked = refl;
}

wal_sizes : length (frame first) + length (put_all frame (second ∷ [])) < 2 ^ 64
unfolding put_all frame serialize_entry serialize_string put_net put_u32
wal_sizes = omega arith

second-Continues : Continues follower_log follower_log-IsRestartable (second ∷ [])
unfolding follower_log-IsRestartable frame
second-Continues = record {
  indexes = (refl, tt);
  fits = (second-FitsFrame, tt);
  wal_room = wal_sizes;
  below_threshold = omega arith;
  index_room = omega arith;
}

first-Holds : Holds follower_log first
unfolding entry_at
first-Holds = (first, refl, refl)

append_loop-Extended_example :
    (l' : RaftLogArray) × (append_loop disk 0 0 (first ∷ second ∷ []) follower_log ≡ done 1 l')
    × Extended follower_log l' (second ∷ [])
append_loop-Extended_example =
    append_loop-Extended disk (first ∷ []) (second ∷ []) follower_log follower_log-IsRestartable
      disk-IsReliable (first-Holds, tt) second-Continues

handle_append_entries-Accepted_example :
    Accepted 5 message (second ∷ []) follower (handle_append_entries disk 5 (some message) follower)
unfolding prev_matches
handle_append_entries-Accepted_example =
    handle_append_entries-Accepted disk 5 message (first ∷ []) (second ∷ []) follower
      follower_log-IsRestartable (omega arith) refl refl disk-IsReliable (first-Holds, tt)
      second-Continues

two-HasRoom : HasRoom follower_log (frame first) (put_u64 0 ++ []) (first ∷ second ∷ [])
unfolding ftell numbered put_all frame serialize_entry serialize_string put_net put_u32 put_u64
two-HasRoom = record {
  wal_is = refl;
  at_end = refl;
  index_is = refl;
  unlocked = refl;
  short = (omega arith, (omega arith, tt));
  wal_room = omega arith;
  below_threshold = omega arith;
}

batch_append-eq-each_example :
    batch_append whole complete complete (first ∷ second ∷ []) follower_log
    ≡ append_each whole (first ∷ second ∷ []) follower_log
batch_append-eq-each_example =
    batch_append-eq-each whole follower_log (frame first) (put_u64 0 ++ []) first (second ∷ [])
      two-HasRoom
