-- ===== src/RaftNode/State.antt =====
-- The state of `RaftNode` that its handlers read and write, and the changes of role.
use eya_kv.Prelude.{ℕ, Bool, true, false, List}
use eya_kv.Protocol.Messages.{Address, PersistentState}
use eya_kv.RaftLog.State.{RaftLogArray}

pub data Role : Type 0 where
  follower : Role
  candidate : Role
  leader : Role

abbrev pub is_leader : Role → Bool
is_leader Role.leader = true
is_leader _ = false

-- `saved` is what the meta file holds. The maps go from a follower's socket to an index.
pub record RaftNode : Type 0 where
  pub log_array : RaftLogArray
  pub persistent : PersistentState
  pub saved : PersistentState
  pub role : Role
  pub granted_votes : ℕ
  pub next_index : List (ℕ × ℕ)
  pub match_index : List (ℕ × ℕ)
  pub port : ℕ

-- the meta file is written and flushed
unfoldable pub save_persistent_state : RaftNode → RaftNode
save_persistent_state n = record n { saved = n.persistent }

unfoldable pub load_persistent_state : RaftNode → RaftNode
load_persistent_state n = record n { persistent = n.saved }

unfoldable pub to_follower : RaftNode → RaftNode
to_follower n = record n { role = Role.follower }

-- a leader stays one
unfoldable pub to_candidate : RaftNode → RaftNode
to_candidate n = elim n.role [ Role.leader ↦ n | _ ↦ record n { role = Role.candidate } ]

unfoldable pub to_leader : RaftNode → RaftNode
to_leader n = record n { role = Role.leader }

-- persistent_state_.current_term_ and voted_for_ are assigned
abbrev pub set_term : ℕ → RaftNode → RaftNode
set_term term n = record n { persistent = record n.persistent { current_term = term } }

abbrev pub set_vote : Address → RaftNode → RaftNode
set_vote vote n = record n { persistent = record n.persistent { voted_for = vote } }

abbrev pub set_nodes : List Address → RaftNode → RaftNode
set_nodes nodes n = record n {
  persistent = record n.persistent {
    cluster_metadata = record n.persistent.cluster_metadata { cluster_nodes = nodes };
  };
}

abbrev pub set_leader : Address → RaftNode → RaftNode
set_leader address n = record n {
  persistent = record n.persistent {
    cluster_metadata = record n.persistent.cluster_metadata { current_leader = address };
  };
}

abbrev pub set_commit : ℕ → RaftNode → RaftNode
set_commit commit n = record n { persistent = record n.persistent { commit_index = commit } }
