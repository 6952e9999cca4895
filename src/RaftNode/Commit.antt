-- ===== src/RaftNode/Commit.antt =====
-- Commits in src/raft/raft.cpp: the majority index of a leader, the application of committed
-- entries, and the bookkeeping of what followers hold.
use eya_kv.Prelude.{
  ℕ, zero, suc, ◌+◌, ◌-◌, ◌/◌, Bool, true, false, ◌||◌, ◌==◌, ltb, leb, if◌then◌else◌, max, Option,
  none, some, List, [], ◌∷◌, map, length, get_or,
}
use eya_kv.Codec.Words.{Bytes, to_u32}
use eya_kv.Protocol.Messages.{LogEntry, AppendEntriesResponseData}
use eya_kv.RaftLog.Ops.{entry_at, term_at, last_index}
use eya_kv.RaftNode.State.{Role, is_leader, RaftNode, save_persistent_state, set_commit}

-- std::sort with std::greater
unfoldable pub insert_desc : ℕ → List ℕ → List ℕ
insert_desc x [] = x ∷ []
insert_desc x (y ∷ ys) = if ltb x y then y ∷ insert_desc x ys else x ∷ y ∷ ys

unfoldable pub sort_desc : List ℕ → List ℕ
unfolding insert_desc
sort_desc [] = []
sort_desc (x ∷ xs) = insert_desc x (sort_desc xs)

abbrev pub match_values : List (ℕ × ℕ) → List ℕ
match_values m = map (λ (p : ℕ × ℕ). p.1) m

-- the leader's own last index, and what each follower has matched
unfoldable pub match_indexes : RaftNode → List ℕ
unfolding last_index
match_indexes n = last_index n.log_array ∷ match_values n.match_index

unfoldable pub majority_index : List ℕ → ℕ
unfolding sort_desc
majority_index indexes = get_or (sort_desc indexes) (length indexes / 2) 0

-- try_commit_entries up to the application of entries; the flag says whether that follows
unfoldable pub try_commit_entries : RaftNode → RaftNode × Bool
unfolding match_indexes majority_index save_persistent_state term_at
try_commit_entries n =
    let commit_index = n.persistent.commit_index in
    if leb (last_index n.log_array) commit_index
    then (n, false)
    else (let index = majority_index (match_indexes n) in
        let advanced =
          if ltb commit_index index
          then term_at index n.log_array == n.persistent.current_term
          else false in
        let m = if advanced then save_persistent_state (set_commit index n) else n in
        (m, advanced || ltb m.persistent.last_applied m.persistent.commit_index))

-- What became of one index: the response, or `none` for the error where the log has no entry there;
-- what goes to the result cache; and whether the client that waits for the index is notified.
pub record Applied {ℓ} (R : Type ℓ) : Type ℓ where
  pub index : ℕ
  pub outcome : Option R
  pub cached : Option (Bytes × R)
  pub notified : Bool

abbrev pub is_empty : Bytes → Bool
is_empty [] = true
is_empty (b ∷ s) = false

-- `execute` is execute_command on the state `S` of the storage.
module _ {ℓ} {S R : Type ℓ} (execute : Bytes → S → S × R) where
  -- one round: the entry that `get` found at `index`, if any
  unfoldable pub apply_one : Role → Option LogEntry → ℕ → S → S × Applied R
  apply_one role none index s =
      (s, record { index = index; outcome = none; cached = none; notified = is_leader role })
  apply_one role (some e) index s =
      let (s', response) = execute e.cmd s in
      (
        s',
        record {
          index = index;
          outcome = some response;
          cached = if is_empty e.request_id then none else some (e.request_id, response);
          notified = is_leader role;
        },
      )

  -- `count` more rounds of the loop, after `last_applied`
  unfoldable pub apply_loop : ℕ → ℕ → RaftNode → S → S × List (Applied R)
  unfolding apply_one
  apply_loop zero last_applied n s = (s, [])
  apply_loop (suc count) last_applied n s =
      let index = last_applied + 1 in
      let (s1, applied) = apply_one n.role (entry_at index n.log_array) index s in
      let (s', rest) = apply_loop count index n s1 in (s', applied ∷ rest)

  -- with what became of each index
  unfoldable pub apply_committed_entries : RaftNode → S → RaftNode × S × List (Applied R)
  unfolding apply_loop save_persistent_state
  apply_committed_entries n s =
      let last_applied = n.persistent.last_applied in
      let commit_index = n.persistent.commit_index in
      if leb commit_index last_applied
      then (n, s, [])
      else (let (s', results) = apply_loop (commit_index - last_applied) last_applied n s in
          (
            save_persistent_state
                (record n { persistent = record n.persistent { last_applied = commit_index } }),
            s',
            results,
          ))

-- operator[] of the maps: a missing follower has 0
unfoldable pub index_of : ℕ → List (ℕ × ℕ) → ℕ
index_of sock [] = 0
index_of sock ((k, v) ∷ m) = if k == sock then v else index_of sock m

unfoldable pub put_index : ℕ → ℕ → List (ℕ × ℕ) → List (ℕ × ℕ)
put_index sock v [] = (sock, v) ∷ []
put_index sock v ((k, w) ∷ m) = if k == sock then (k, v) ∷ m else (k, w) ∷ put_index sock v m

-- handle_append_entries_response, before the commit and the next message to the follower
unfoldable pub note_response : AppendEntriesResponseData → ℕ → RaftNode → RaftNode
unfolding index_of put_index
note_response response sock n =
    if response.success
    then (let matched = max (index_of sock n.match_index) response.log_index in
        record n {
          match_index = put_index sock matched n.match_index;
          next_index = put_index sock (to_u32 (matched + 1)) n.next_index;
        })
    else (let next = index_of sock n.next_index in
        record n { next_index = put_index sock (next - 1) n.next_index })
