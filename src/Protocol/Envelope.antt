-- ===== src/Protocol/Envelope.antt =====
-- `RaftMessage` of include/raft/protocol/protocol.h: the factories and the two directions.
use eya_kv.Prelude.{ℕ, Bool, ◌==◌, if◌then◌else◌, Option, none, some, [], ◌++◌}
use eya_kv.Codec.Words.{Bytes, Reader, ◌>>=◌, pure, put_net, get_net}
use eya_kv.Protocol.Messages.{
  Address, RequestVoteData, AppendEntriesData, AppendEntriesResponseData,
}
use eya_kv.Protocol.Wire.{
  serialize_address, deserialize_address, serialize_vote, deserialize_vote, serialize_vote_response,
  deserialize_vote_response, serialize_append, deserialize_append, serialize_append_response,
  deserialize_append_response,
}
use eya_kv.Protocol.Cluster.{
  JoinClusterData, JoinClusterResponseData, SnapshotInstallData, SnapshotInstallResponseData,
  serialize_join, deserialize_join, serialize_join_response, deserialize_join_response,
  serialize_snapshot, deserialize_snapshot, serialize_snapshot_response,
  deserialize_snapshot_response,
}

-- `unnamed` is a number that is no enumerator: the cast from a uint32_t lets it through.
pub data RaftMessageType : Type 0 where
  request_vote : RaftMessageType
  request_vote_response : RaftMessageType
  append_entries : RaftMessageType
  append_entries_response : RaftMessageType
  new_node : RaftMessageType
  new_master : RaftMessageType
  query_leader : RaftMessageType
  query_leader_response : RaftMessageType
  join_cluster : RaftMessageType
  join_cluster_response : RaftMessageType
  cluster_config : RaftMessageType
  cluster_config_response : RaftMessageType
  snapshot_install : RaftMessageType
  snapshot_install_response : RaftMessageType
  leave_node : RaftMessageType
  unnamed : ℕ → RaftMessageType

unfoldable pub type_code : RaftMessageType → ℕ
type_code request_vote = 1
type_code request_vote_response = 2
type_code append_entries = 3
type_code append_entries_response = 4
type_code new_node = 5
type_code new_master = 7
type_code query_leader = 9
type_code query_leader_response = 10
type_code join_cluster = 11
type_code join_cluster_response = 12
type_code cluster_config = 13
type_code cluster_config_response = 14
type_code snapshot_install = 15
type_code snapshot_install_response = 16
type_code leave_node = 17
type_code (unnamed x) = x

unfoldable pub type_of_code : ℕ → RaftMessageType
type_of_code x =
    if x == 1
    then request_vote
    else if x == 2
    then request_vote_response
    else if x == 3
    then append_entries
    else if x == 4
    then append_entries_response
    else if x == 5
    then new_node
    else if x == 7
    then new_master
    else if x == 9
    then query_leader
    else if x == 10
    then query_leader_response
    else if x == 11
    then join_cluster
    else if x == 12
    then join_cluster_response
    else if x == 13
    then cluster_config
    else if x == 14
    then cluster_config_response
    else if x == 15
    then snapshot_install
    else if x == 16
    then snapshot_install_response
    else if x == 17
    then leave_node
    else unnamed x

-- NewNodeJoinData, NewMasterData, QueryLeaderResponseData and LeaveNodeData are one address each.
pub record RaftMessage : Type 0 where
  pub type : RaftMessageType
  pub term : ℕ
  pub request_vote_data : Option RequestVoteData
  pub request_vote_response_data : Option Bool
  pub append_entries_data : Option AppendEntriesData
  pub append_entries_response_data : Option AppendEntriesResponseData
  pub query_leader_response_data : Option Address
  pub join_cluster_data : Option JoinClusterData
  pub join_cluster_response_data : Option JoinClusterResponseData
  pub snapshot_install_data : Option SnapshotInstallData
  pub snapshot_install_response_data : Option SnapshotInstallResponseData
  pub new_node_join_data : Option Address
  pub leave_node_data : Option Address
  pub new_master_data : Option Address

-- RaftMessage()
abbrev pub default_message : RaftMessage
default_message = record {
  type = append_entries;
  term = 0;
  request_vote_data = none;
  request_vote_response_data = none;
  append_entries_data = none;
  append_entries_response_data = none;
  query_leader_response_data = none;
  join_cluster_data = none;
  join_cluster_response_data = none;
  snapshot_install_data = none;
  snapshot_install_response_data = none;
  new_node_join_data = none;
  leave_node_data = none;
  new_master_data = none;
}

-- `if (data.has_value()) result.append(data->serialize())`
abbrev pub put_some {ℓ} : {A : Type ℓ} → (A → Bytes) → Option A → Bytes
put_some write none = []
put_some write (some a) = write a

-- the switch of serialize
unfoldable pub serialize_body : RaftMessageType → RaftMessage → Bytes
serialize_body request_vote m = put_some serialize_vote m.request_vote_data
serialize_body request_vote_response m =
    put_some serialize_vote_response m.request_vote_response_data
serialize_body append_entries m = put_some serialize_append m.append_entries_data
serialize_body append_entries_response m =
    put_some serialize_append_response m.append_entries_response_data
serialize_body new_node m = put_some serialize_address m.new_node_join_data
serialize_body query_leader_response m = put_some serialize_address m.query_leader_response_data
serialize_body join_cluster m = put_some serialize_join m.join_cluster_data
serialize_body join_cluster_response m =
    put_some serialize_join_response m.join_cluster_response_data
serialize_body snapshot_install m = put_some serialize_snapshot m.snapshot_install_data
serialize_body snapshot_install_response m =
    put_some serialize_snapshot_response m.snapshot_install_response_data
serialize_body new_master m = put_some serialize_address m.new_master_data
serialize_body leave_node m = put_some serialize_address m.leave_node_data
serialize_body _ m = []

unfoldable pub serialize_message : RaftMessage → Bytes
unfolding serialize_body
serialize_message m = put_net (type_code m.type) ++ (put_net m.term ++ serialize_body m.type m)

-- the switch of deserialize, which fills a field of `m`
unfoldable pub deserialize_body : RaftMessageType → RaftMessage → Reader RaftMessage
deserialize_body request_vote m =
    deserialize_vote >>= λ d. pure (record m { request_vote_data = some d })
deserialize_body request_vote_response m =
    deserialize_vote_response >>= λ d. pure (record m { request_vote_response_data = some d })
deserialize_body append_entries m =
    deserialize_append >>= λ d. pure (record m { append_entries_data = some d })
deserialize_body append_entries_response m =
    deserialize_append_response >>= λ d. pure (record m { append_entries_response_data = some d })
deserialize_body new_node m =
    deserialize_address >>= λ d. pure (record m { new_node_join_data = some d })
deserialize_body query_leader_response m =
    deserialize_address >>= λ d. pure (record m { query_leader_response_data = some d })
deserialize_body join_cluster m =
    deserialize_join >>= λ d. pure (record m { join_cluster_data = some d })
deserialize_body join_cluster_response m =
    deserialize_join_response >>= λ d. pure (record m { join_cluster_response_data = some d })
deserialize_body snapshot_install m =
    deserialize_snapshot >>= λ d. pure (record m { snapshot_install_data = some d })
deserialize_body snapshot_install_response m = deserialize_snapshot_response >>= λ d.
    pure (record m { snapshot_install_response_data = some d })
deserialize_body new_master m =
    deserialize_address >>= λ d. pure (record m { new_master_data = some d })
deserialize_body leave_node m =
    deserialize_address >>= λ d. pure (record m { leave_node_data = some d })
deserialize_body _ m = pure m

unfoldable pub deserialize_message : RaftMessage → Reader RaftMessage
unfolding deserialize_body type_of_code
deserialize_message m = get_net >>= λ code. get_net >>= λ term.
    deserialize_body (type_of_code code) (record m { type = type_of_code code; term = term })
