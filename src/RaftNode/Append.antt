-- ===== src/RaftNode/Append.antt =====
-- `handle_append_entries` of src/raft/raft.cpp: a follower takes entries and a commit index from
-- its leader.
use eya_kv.Prelude.{
  ℕ, ◌+◌, Bool, true, false, ◌||◌, ◌==◌, ltb, if◌then◌else◌, min, Option, none, some, List, [], ◌∷◌,
}
use eya_kv.Protocol.Messages.{LogEntry, AppendEntriesData}
use eya_kv.RaftLog.State.{RaftLogArray, done, relock, Call, ◌>>=◌, Write, Rebuild}
use eya_kv.RaftLog.Ops.{entry_at, get, last_index, truncate_from, append}
use eya_kv.RaftNode.State.{RaftNode, save_persistent_state, to_follower, set_term, set_commit}

-- What the disk does to the writes of a batch, by the entry's place in it.
pub record Disk : Type 0 where
  pub rebuild : Rebuild
  pub wal_writes : ℕ → Write
  pub index_writes : ℕ → Write

-- append_entries_response(term, success, log_index)
pub record AppendReply : Type 0 where
  pub term : ℕ
  pub success : Bool
  pub log_index : ℕ

-- `need_apply` is whether committed entries are now to be applied. `interrupted` is a handler that
-- ended in the log's second lock: nothing is saved or sent.
pub data Handled : Type 0 where
  handled : RaftNode → AppendReply → Bool → Handled
  interrupted : RaftNode → Handled

-- one round of the loop over the entries: whether the entry was appended
unfoldable pub append_one : Disk → ℕ → LogEntry → Call Bool
append_one d i e = get e.index >>= λ existing. elim existing [
  | none ↦ append d.rebuild (d.wal_writes i) (d.index_writes i) e >>= λ result. done result.0
  | some x ↦
      if x.term == e.term
      then done false
      else (truncate_from d.rebuild e.index >>= λ _.
          append d.rebuild (d.wal_writes i) (d.index_writes i) e >>= λ result. done result.0)
]

-- the number of entries that were appended
unfoldable pub append_loop : Disk → ℕ → ℕ → List LogEntry → Call ℕ
append_loop d i appended [] = done appended
append_loop d i appended (e ∷ es) = append_one d i e >>= λ added.
    append_loop d (i + 1) (if added then appended + 1 else appended) es

-- the check of prev_log_index and prev_log_term
unfoldable pub prev_matches : AppendEntriesData → RaftLogArray → Bool
prev_matches data_ l =
    if ltb 0 data_.prev_log_index
    then elim (entry_at data_.prev_log_index l) [
      | none ↦ false
      | some prev ↦ prev.term == data_.prev_log_term
    ]
    else true

abbrev pub entries_of : AppendEntriesData → List LogEntry
entries_of data_ = elim data_.entries [ none ↦ [] | some entries ↦ entries ]

unfoldable pub save_if : Bool → RaftNode → RaftNode
unfolding save_persistent_state
save_if need n = if need then save_persistent_state n else n

-- step 5 and what follows it: `need_save` holds so far
unfoldable pub commit_and_reply : AppendEntriesData → Bool → RaftNode → Handled
unfolding save_if last_index
commit_and_reply data_ need_save n =
    let new_commit = min data_.leader_commit (last_index n.log_array) in
    let advances =
      if ltb n.persistent.commit_index data_.leader_commit
      then ltb n.persistent.commit_index new_commit
      else false in
    let committed = if advances then set_commit new_commit n else n in
    handled (save_if (need_save || advances) committed)
      (record {
        term = n.persistent.current_term;
        success = true;
        log_index = last_index n.log_array;
      })
      advances

-- steps 3 and 4, in the leader's term; `bumped` is whether that was new
unfoldable pub append_in_term : Disk → Option AppendEntriesData → Bool → RaftNode → Handled
unfolding commit_and_reply save_if
append_in_term d none bumped n =
    handled (save_if bumped n)
      (record {
        term = n.persistent.current_term;
        success = false;
        log_index = last_index n.log_array;
      })
      false
append_in_term d (some data_) bumped n =
    if prev_matches data_ n.log_array
    then elim (append_loop d 0 0 (entries_of data_) n.log_array) [
      | relock l ↦ interrupted (record n { log_array = l })
      | done appended l ↦
          commit_and_reply data_ (bumped || ltb 0 appended) (record n { log_array = l })
    ]
    else handled (save_if bumped n)
        (record {
          term = n.persistent.current_term;
          success = false;
          log_index = last_index n.log_array;
        })
        false

unfoldable pub handle_append_entries : Disk → ℕ → Option AppendEntriesData → RaftNode → Handled
unfolding append_in_term to_follower
handle_append_entries d term data_ n =
    if ltb term n.persistent.current_term
    then handled n
        (record {
          term = n.persistent.current_term;
          success = false;
          log_index = last_index n.log_array;
        })
        false
    else append_in_term d data_ (ltb n.persistent.current_term term) (
        if ltb n.persistent.current_term term then set_term term (to_follower n) else to_follower n)

abbrev pub node_after : Handled → RaftNode
node_after (handled n reply need_apply) = n
node_after (interrupted n) = n
