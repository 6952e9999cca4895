-- ===== src/RaftLog/Batch.antt =====
-- The batch appends of src/raft/raft_log_array.cpp, which write all records at once, and the other
-- reads of the log.
use eya_kv.Prelude.{
  ℕ, ◌+◌, ◌%◌, ◌^◌, Bool, true, false, if◌then◌else◌, Option, none, some, List, [], ◌∷◌, ◌++◌,
  length, get_last?, drop, ltb, ◌-◌,
}
use eya_kv.Codec.Words.{Bytes, to_u32}
use eya_kv.Codec.Containers.{put_all}
use eya_kv.Protocol.Messages.{LogEntry}
use eya_kv.Protocol.Wire.{serialize_entry}
use eya_kv.RaftLog.State.{
  RaftLogArray, done, Call, ◌>>=◌, with_lock, Write, written, succeeds, Rebuild, put_u64,
}
use eya_kv.RaftLog.Frames.{frame, ftell}
use eya_kv.RaftLog.Ops.{size, truncate_if_large}
pub mod Steps
pub mod Equivalence

-- entry.index = start_index++
unfoldable pub numbered : ℕ → List LogEntry → List LogEntry
numbered start [] = []
numbered start (e ∷ es) = record e { index = start } ∷ numbered (to_u32 (start + 1)) es

-- the offsets of the records, from `current` on
unfoldable pub batch_offsets : ℕ → List LogEntry → List ℕ
batch_offsets current [] = []
batch_offsets current (e ∷ es) =
    current ∷ batch_offsets ((current + 8 + to_u32 (length (serialize_entry e))) % 2 ^ 64) es

-- RaftLogArray::write_batch_to_wal on entries that are not empty
unfoldable pub write_batch_to_wal :
    List LogEntry → Write → RaftLogArray → Option (List ℕ) × RaftLogArray
unfolding batch_offsets ftell
write_batch_to_wal es w l = elim l.wal_file [
  | none ↦ (none, l)
  | some bytes ↦ (
    if succeeds w then some (batch_offsets (ftell l bytes) es) else none,
    record l { wal_file = some (bytes ++ written w (put_all frame es)); at_start = false },
  )
]

-- A closed index file is passed over.
unfoldable pub write_index_batch : List ℕ → Write → RaftLogArray → Bool × RaftLogArray
write_index_batch offsets v l = elim l.index_file [
  | none ↦ (true, l)
  | some bytes ↦
      (succeeds v, record l { index_file = some (bytes ++ written v (put_all put_u64 offsets)) })
]

-- what both batch appends do under the lock
unfoldable pub append_batch : Rebuild → Write → Write → List LogEntry → Call Bool
unfolding write_batch_to_wal write_index_batch truncate_if_large
append_batch r w v es l =
    let (offsets, l1) = write_batch_to_wal es w l in
    elim offsets [
      | none ↦ done false l1
      | some os ↦
          (let (ok, l2) = write_index_batch os v l1 in
            if ok
            then (truncate_if_large r >>= λ _. done true)
                (record l2 { entries = l2.entries ++ es; index_offsets = l2.index_offsets ++ os })
            else done false l2)
    ]

-- batch_append(vector &): numbers the entries, and returns them beside the result
unfoldable pub batch_append : Rebuild → Write → Write → List LogEntry → Call (Bool × List LogEntry)
unfolding numbered append_batch
batch_append r w v [] = done (true, [])
batch_append r w v (e ∷ es) = with_lock λ l.
    let es' = numbered (to_u32 (l.base_index + size l)) (e ∷ es) in
    (append_batch r w v es' >>= λ ok. done (ok, es')) l

-- batch_append(const vector &): keeps the entries as they are
unfoldable pub batch_append_const : Rebuild → Write → Write → List LogEntry → Call Bool
unfolding append_batch
batch_append_const r w v [] = done true
batch_append_const r w v (e ∷ es) = with_lock (append_batch r w v (e ∷ es))

unfoldable pub get_last : Call (Option LogEntry)
get_last = with_lock λ l. done (get_last? l.entries) l

-- get_entries_from without a count
unfoldable pub get_entries_on : ℕ → Call (List LogEntry)
get_entries_on start_index = with_lock λ l.
    done (if ltb start_index l.base_index then [] else drop (start_index - l.base_index) l.entries)
      l
