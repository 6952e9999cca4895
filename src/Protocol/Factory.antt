-- ===== src/Protocol/Factory.antt =====
-- The static functions of `RaftMessage` in include/raft/protocol/protocol.h that make messages,
-- and what a receiver sees of each.
use eya_kv.Prelude.{ℕ, Bool, true, false, none, some, List, []}
use eya_kv.Codec.Words.{Bytes}
use eya_kv.Protocol.Messages.{Address, LogEntry, ClusterMetadata}
use eya_kv.Protocol.Cluster.{no_metadata}
use eya_kv.Protocol.Envelope.{RaftMessageType, RaftMessage, default_message}

-- A call of one of the factories.
pub data Factory : Type 0 where
  leave_node : Address → Factory
  request_vote : ℕ → ℕ → ℕ → Factory
  request_vote_response : ℕ → Bool → Factory
  append_entries : ℕ → ℕ → ℕ → ℕ → Factory
  append_entries_with_data : ℕ → ℕ → ℕ → List LogEntry → ℕ → Factory
  append_entries_response : ℕ → Bool → ℕ → Factory
  new_node_join_broadcast : Address → Factory
  new_master : ℕ → Address → Factory
  query_leader : Factory
  query_leader_response : Address → Factory
  join_cluster : Bool → ℕ → ℕ → Factory
  join_cluster_response : Bool → Bytes → ClusterMetadata → ℕ → Factory
  snapshot_install : Bytes → ℕ → Bool → ℕ → ℕ → Factory
  snapshot_install_response : Bool → ℕ → Factory

unfoldable pub make : Factory → RaftMessage
make (leave_node addr) = record default_message {
  type = RaftMessageType.leave_node;
  leave_node_data = some addr;
}
make (request_vote term last_log_index last_log_term) = record default_message {
  type = RaftMessageType.request_vote;
  term = term;
  request_vote_data =
      some (record { last_log_index = last_log_index; last_log_term = last_log_term });
}
make (request_vote_response term vote_granted) = record default_message {
  type = RaftMessageType.request_vote_response;
  term = term;
  request_vote_response_data = some vote_granted;
}
make (append_entries term prev_log_index prev_log_term leader_commit) = record default_message {
  type = RaftMessageType.append_entries;
  term = term;
  append_entries_data = some (record {
    prev_log_index = prev_log_index;
    prev_log_term = prev_log_term;
    entries = none;
    leader_commit = leader_commit;
  });
}
make (append_entries_with_data term prev_log_index prev_log_term entries leader_commit) =
    record default_message {
      type = RaftMessageType.append_entries;
      term = term;
      append_entries_data = some (record {
        prev_log_index = prev_log_index;
        prev_log_term = prev_log_term;
        entries = some entries;
        leader_commit = leader_commit;
      });
    }
make (append_entries_response term success last_log_index) = record default_message {
  type = RaftMessageType.append_entries_response;
  term = term;
  append_entries_response_data = some (record { success = success; log_index = last_log_index });
}
make (new_node_join_broadcast addr) = record default_message {
  type = RaftMessageType.new_node;
  new_node_join_data = some addr;
}
make (new_master term leader_addr) = record default_message {
  type = RaftMessageType.new_master;
  term = term;
  new_master_data = some leader_addr;
}
make query_leader = record default_message { type = RaftMessageType.query_leader }
make (query_leader_response addr) = record default_message {
  type = RaftMessageType.query_leader_response;
  query_leader_response_data = some addr;
}
make (join_cluster is_reconnect last_index port) = record default_message {
  type = RaftMessageType.join_cluster;
  join_cluster_data =
      some (record { is_reconnect = is_reconnect; last_index = last_index; port = port });
}
make (join_cluster_response success error meta sync_index) = record default_message {
  type = RaftMessageType.join_cluster_response;
  join_cluster_response_data = some (record {
    success = success;
    error_message = error;
    cluster_metadata = meta;
    sync_from_index = sync_index;
  });
}
make (snapshot_install data_ offset done last_include_index last_include_term) =
    record default_message {
      type = RaftMessageType.snapshot_install;
      snapshot_install_data = some (record {
        snapshot_data = data_;
        offset = offset;
        done = done;
        last_included_index = last_include_index;
        last_included_term = last_include_term;
      });
    }
make (snapshot_install_response success offset) = record default_message {
  type = RaftMessageType.snapshot_install_response;
  snapshot_install_response_data = some (record { success = success; offset = offset });
}

-- The call whose message a receiver sees: entries sent as an empty set are absent, a response that
-- reports success has no error, and one that reports failure has the error alone.
abbrev pub arrived : Factory → Factory
arrived (append_entries_with_data term i t [] c) = append_entries term i t c
arrived (join_cluster_response true error meta i) = join_cluster_response true [] meta i
arrived (join_cluster_response false error meta i) = join_cluster_response false error no_metadata 0
arrived f = f
