-- ===== src/Protocol/Wire.antt =====
-- `serialize` and `deserialize` of the structs of include/raft/protocol/protocol.h.
use eya_kv.Prelude.{
  ℕ, zero, suc, ◌+◌, ◌*◌, ◌/◌, ◌%◌, ◌^◌, Bool, ◌==◌, if◌then◌else◌, not, Option, none, some, List,
  [], ◌∷◌, ◌++◌, length,
}
use eya_kv.Codec.Words.{
  Bytes, Reader, ◌>>=◌, pure, to_u32, put_u8, get_u8, put_u32, get_u32, put_net, get_net,
}
use eya_kv.Codec.Containers.{serialize_string, deserialize_string, get_bytes, put_all, get_loop}
use eya_kv.Protocol.Messages.{
  Address, LogEntry, entry_insert, RequestVoteData, AppendEntriesData, AppendEntriesResponseData,
  ClusterMetadata, nodes_contain, PersistentState,
}

-- uint32_t host_len = host.size(), then htonl(port) of an int
unfoldable pub serialize_address : Address → Bytes
serialize_address a = put_net (to_u32 (length a.host)) ++ (a.host ++ put_net (to_u32 a.port))

unfoldable pub deserialize_address : Reader Address
deserialize_address = get_net >>= λ host_len.
    get_bytes host_len >>= λ host. get_net >>= λ port. pure (record { host = host; port = port })

-- timestamp >> 32 and timestamp & 0xFFFFFFFF are written as two words
unfoldable pub serialize_entry : LogEntry → Bytes
serialize_entry e =
    put_net e.term
    ++ (put_net e.index
        ++ (put_net e.command_type
            ++ (put_net (to_u32 (e.timestamp / 2 ^ 32))
                ++ (put_net (e.timestamp % 2 ^ 32)
                    ++ (serialize_string e.cmd ++ serialize_string e.request_id)))))

unfoldable pub deserialize_entry : Reader LogEntry
deserialize_entry = get_net >>= λ term. get_net >>= λ index. get_net >>= λ command_type.
    get_net >>= λ high. get_net >>= λ low. deserialize_string >>= λ cmd.
    deserialize_string >>= λ request_id. pure (record {
      term = term;
      index = index;
      command_type = command_type;
      cmd = cmd;
      timestamp = high * 2 ^ 32 + low;
      request_id = request_id;
    })

unfoldable pub serialize_vote : RequestVoteData → Bytes
serialize_vote d = put_net d.last_log_index ++ put_net d.last_log_term

unfoldable pub deserialize_vote : Reader RequestVoteData
deserialize_vote = get_net >>= λ last_log_index. get_net >>= λ last_log_term.
    pure (record { last_log_index = last_log_index; last_log_term = last_log_term })

-- static_cast<uint8_t>(b ? 1 : 0), and `!= 0` on the way back
unfoldable pub put_bool : Bool → Bytes
put_bool b = put_u8 (if b then 1 else 0)

unfoldable pub get_bool : Reader Bool
get_bool = get_u8 >>= λ x. pure (not (x == 0))

-- RequestVoteResponseData
unfoldable pub serialize_vote_response : Bool → Bytes
serialize_vote_response vote_granted = put_bool vote_granted

unfoldable pub deserialize_vote_response : Reader Bool
deserialize_vote_response = get_bool

-- the entry count, 0 for an absent set, and the entries
unfoldable pub put_entries : Option (List LogEntry) → Bytes
put_entries none = put_u32 0
put_entries (some l) = put_net (to_u32 (length l)) ++ put_all serialize_entry l

-- no set is made for a count of 0
unfoldable pub get_entry_set : ℕ → Reader (Option (List LogEntry))
get_entry_set zero = pure none
get_entry_set (suc n) =
    get_loop deserialize_entry entry_insert (suc n) [] >>= λ entry_set. pure (some entry_set)

unfoldable pub get_entries : Reader (Option (List LogEntry))
unfolding get_entry_set
get_entries = get_net >>= get_entry_set

unfoldable pub serialize_append : AppendEntriesData → Bytes
serialize_append d =
    put_net d.prev_log_index
    ++ (put_net d.prev_log_term ++ (put_entries d.entries ++ put_net d.leader_commit))

unfoldable pub deserialize_append : Reader AppendEntriesData
deserialize_append = get_net >>= λ prev_log_index. get_net >>= λ prev_log_term.
    get_entries >>= λ entries. get_net >>= λ leader_commit. pure (record {
      prev_log_index = prev_log_index;
      prev_log_term = prev_log_term;
      entries = entries;
      leader_commit = leader_commit;
    })

unfoldable pub serialize_append_response : AppendEntriesResponseData → Bytes
serialize_append_response d = put_bool d.success ++ put_net d.log_index

unfoldable pub deserialize_append_response : Reader AppendEntriesResponseData
deserialize_append_response = get_bool >>= λ success.
    get_net >>= λ log_index. pure (record { success = success; log_index = log_index })

-- insert of unordered_set<Address>
unfoldable pub nodes_insert : List Address → Address → List Address
nodes_insert l a = if nodes_contain a l then l else l ++ a ∷ []

unfoldable pub serialize_metadata : ClusterMetadata → Bytes
serialize_metadata m =
    put_net m.cluster_version
    ++ (serialize_address m.current_leader
        ++ (put_net (to_u32 (length m.cluster_nodes)) ++ put_all serialize_address m.cluster_nodes))

unfoldable pub deserialize_metadata : Reader ClusterMetadata
deserialize_metadata = get_net >>= λ cluster_version. deserialize_address >>= λ current_leader.
    get_net >>= λ node_count.
    get_loop deserialize_address nodes_insert node_count [] >>= λ cluster_nodes. pure (record {
      cluster_nodes = cluster_nodes;
      current_leader = current_leader;
      cluster_version = cluster_version;
    })

-- include/raft/raft.h: these words stay in host order
unfoldable pub serialize_state : PersistentState → Bytes
serialize_state s =
    put_u32 s.current_term
    ++ (serialize_address s.voted_for
        ++ (serialize_metadata s.cluster_metadata
            ++ (put_u32 s.log_snapshot_index
                ++ (put_u32 s.commit_index ++ put_u32 s.last_applied))))

unfoldable pub deserialize_state : Reader PersistentState
deserialize_state = get_u32 >>= λ current_term. deserialize_address >>= λ voted_for.
    deserialize_metadata >>= λ cluster_metadata. get_u32 >>= λ log_snapshot_index.
    get_u32 >>= λ commit_index. get_u32 >>= λ last_applied. pure (record {
      current_term = current_term;
      voted_for = voted_for;
      cluster_metadata = cluster_metadata;
      log_snapshot_index = log_snapshot_index;
      commit_index = commit_index;
      last_applied = last_applied;
    })
