-- ===== src/Examples/RaftNode.antt =====
-- The node of src/raft/raft.cpp at concrete inputs.
use eya_kv.Prelude.{
  ℕ, ◌*◌, ◌<◌, ◌≤◌, ◌≡◌, refl, true, false, none, some, List, [], ◌∷◌, ◌++◌, length,
}
use eya_kv.Codec.Words.{Bytes}
use eya_kv.Codec.Containers.{bytes_eq}
use eya_kv.Protocol.Messages.{
  Address, null_address, address_eq, is_null, LogEntry, RequestVoteData, PersistentState,
}
use eya_kv.RaftLog.State.{RaftLogArray}
use eya_kv.RaftLog.Ops.{entry_at}
use eya_kv.RaftNode.State.{Role, RaftNode}
use eya_kv.RaftNode.Vote.{handle_request_vote}
use eya_kv.RaftNode.Commit.{majority_index, try_commit_entries, apply_committed_entries}
use eya_kv.RaftNode.Election.{timeout, vote_request, run, one_vote_per_term}
use eya_kv.RaftNode.Election.Memory.{OneVotePerTerm}
use eya_kv.RaftNode.Quorum.{count_ge, majority_index-greatest, Commits, try_commit-Commits}
use eya_kv.RaftNode.Apply.{apply_once}

abbrev pub entry_of : ℕ → ℕ → LogEntry
entry_of term index = record {
  term = term;
  index = index;
  command_type = 0;
  cmd = index ∷ [];
  timestamp = 0;
  request_id = [];
}

abbrev pub log : RaftLogArray
log = record {
  entries = entry_of 2 1 ∷ entry_of 3 2 ∷ [];
  base_index = 1;
  wal_file = none;
  at_start = true;
  index_offsets = [];
  index_file = none;
  config = record { log_size_threshold = 10; truncate_count = λ n. n; info = false };
  locked = false;
}

abbrev pub state : PersistentState
state = record {
  current_term = 3;
  voted_for = null_address;
  cluster_metadata = record {
    cluster_nodes = [];
    current_leader = null_address;
    cluster_version = 0;
  };
  log_snapshot_index = 0;
  commit_index = 0;
  last_applied = 0;
}

-- A leader with two followers, one of which holds all of its log.
abbrev pub node : RaftNode
node = record {
  log_array = log;
  persistent = state;
  saved = state;
  role = Role.leader;
  granted_votes = 0;
  next_index = (7, 3) ∷ (8, 1) ∷ [];
  match_index = (7, 2) ∷ (8, 0) ∷ [];
  port = 9000;
}

abbrev asker : ℕ → Address
asker port = record { host = 104 ∷ []; port = port }

abbrev ask : RequestVoteData
ask = record { last_log_index = 2; last_log_term = 3 }

-- A first candidate gets the vote of term 4, and a second one does not.
vote_test :
    (run node
      (vote_request 4 (some ask) (some (asker 1))
        ∷ vote_request 4 (some ask) (some (asker 2))
        ∷ timeout
        ∷ [])
      []).1
    ≡ record {
      term = 5;
      candidate = record { host = 49 ∷ 50 ∷ 55 ∷ 46 ∷ 48 ∷ 46 ∷ 48 ∷ 46 ∷ 49 ∷ []; port = 9000 };
    }
      ∷ record { term = 4; candidate = asker 1 }
      ∷ []
unfolding run handle_request_vote address_eq is_null bytes_eq
vote_test = refl

one_vote_per_term_example :
    OneVotePerTerm
      (run node
        (vote_request 4 (some ask) (some (asker 1))
          ∷ vote_request 4 (some ask) (some (asker 2))
          ∷ [])
        []).1
unfolding is_null bytes_eq
one_vote_per_term_example =
    one_vote_per_term node
      (vote_request 4 (some ask) (some (asker 1)) ∷ vote_request 4 (some ask) (some (asker 2)) ∷ [])
      refl (refl, (refl, tt))

majority_index-greatest_example :
    (3 < 2 * count_ge (majority_index (2 ∷ 2 ∷ 0 ∷ [])) (2 ∷ 2 ∷ 0 ∷ []))
    × ((m : ℕ) → majority_index (2 ∷ 2 ∷ 0 ∷ []) < m → 2 * count_ge m (2 ∷ 2 ∷ 0 ∷ []) ≤ 3)
majority_index-greatest_example = majority_index-greatest 2 (2 ∷ 0 ∷ [])

commit_test : (try_commit_entries node).0.persistent.commit_index ≡ 2
unfolding try_commit_entries entry_at
commit_test = refl

try_commit-Commits_example : Commits node (try_commit_entries node).0
try_commit-Commits_example = try_commit-Commits node

-- A storage that keeps the commands that it ran.
abbrev ran : Bytes → List Bytes → List Bytes × ℕ
ran cmd s = (s ++ cmd ∷ [], length s)

abbrev committed : RaftNode
committed = record node { persistent = record state { commit_index = 2 } }

apply_test : (apply_committed_entries ran committed []).1 ≡ (1 ∷ []) ∷ (2 ∷ []) ∷ []
unfolding apply_committed_entries entry_at
apply_test = refl

apply_once_example :
    apply_committed_entries ran
      (apply_committed_entries ran committed []).0
      (apply_committed_entries ran committed []).1
    ≡ (
      (apply_committed_entries ran committed []).0,
      (apply_committed_entries ran committed []).1,
      [],
    )
apply_once_example = apply_once ran committed []
