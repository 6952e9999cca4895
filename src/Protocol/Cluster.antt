-- ===== src/Protocol/Cluster.antt =====
-- The messages of include/raft/protocol/protocol.h that join a node and send it a snapshot.
pub mod RoundTrip
use eya_kv.Prelude.{
  ℕ, ◌+◌, ◌*◌, ◌/◌, ◌%◌, ◌^◌, Bool, true, false, if◌then◌else◌, none, some, [], ◌∷◌, ◌++◌,
}
use eya_kv.Codec.Words.{Bytes, Reader, ◌>>=◌, pure, put_net, get_net}
use eya_kv.Codec.Containers.{serialize_string, deserialize_string}
use eya_kv.Protocol.Messages.{ClusterMetadata, null_address}
use eya_kv.Protocol.Wire.{put_bool, get_bool, serialize_metadata, deserialize_metadata}

pub record JoinClusterData : Type 0 where
  pub is_reconnect : Bool
  pub last_index : ℕ
  pub port : ℕ

pub record JoinClusterResponseData : Type 0 where
  pub success : Bool
  pub error_message : Bytes
  pub cluster_metadata : ClusterMetadata
  pub sync_from_index : ℕ

pub record SnapshotInstallData : Type 0 where
  pub snapshot_data : Bytes
  pub offset : ℕ
  pub done : Bool
  pub last_included_index : ℕ
  pub last_included_term : ℕ

pub record SnapshotInstallResponseData : Type 0 where
  pub success : Bool
  pub offset : ℕ

-- a uint16_t by htons, its high byte first
unfoldable pub put_net16 : ℕ → Bytes
put_net16 x = (x / 2 ^ 8 % 256) ∷ (x % 256) ∷ []

unfoldable pub get_net16 : Reader ℕ
get_net16 (a ∷ b ∷ rest) = some (a * 2 ^ 8 + b, rest)
get_net16 _ = none

unfoldable pub serialize_join : JoinClusterData → Bytes
serialize_join d = put_bool d.is_reconnect ++ (put_net d.last_index ++ put_net16 d.port)

unfoldable pub deserialize_join : Reader JoinClusterData
deserialize_join = get_bool >>= λ is_reconnect. get_net >>= λ last_index. get_net16 >>= λ port.
    pure (record { is_reconnect = is_reconnect; last_index = last_index; port = port })

-- the default-constructed metadata
abbrev pub no_metadata : ClusterMetadata
no_metadata = record { cluster_nodes = []; current_leader = null_address; cluster_version = 0 }

unfoldable pub serialize_join_response : JoinClusterResponseData → Bytes
serialize_join_response d =
    put_bool d.success
    ++ (if d.success
        then serialize_metadata d.cluster_metadata ++ put_net d.sync_from_index
        else serialize_string d.error_message)

unfoldable pub read_join_response : Bool → Reader JoinClusterResponseData
read_join_response true = deserialize_metadata >>= λ cluster_metadata.
    get_net >>= λ sync_from_index. pure (record {
      success = true;
      error_message = [];
      cluster_metadata = cluster_metadata;
      sync_from_index = sync_from_index;
    })
read_join_response false = deserialize_string >>= λ error_message. pure (record {
  success = false;
  error_message = error_message;
  cluster_metadata = no_metadata;
  sync_from_index = 0;
})

unfoldable pub deserialize_join_response : Reader JoinClusterResponseData
unfolding read_join_response
deserialize_join_response = get_bool >>= λ success. read_join_response success

unfoldable pub serialize_snapshot : SnapshotInstallData → Bytes
serialize_snapshot d =
    serialize_string d.snapshot_data
    ++ (put_net d.offset
        ++ (put_bool d.done ++ (put_net d.last_included_index ++ put_net d.last_included_term)))

unfoldable pub deserialize_snapshot : Reader SnapshotInstallData
deserialize_snapshot = deserialize_string >>= λ snapshot_data. get_net >>= λ offset.
    get_bool >>= λ done. get_net >>= λ last_included_index. get_net >>= λ last_included_term.
    pure (record {
      snapshot_data = snapshot_data;
      offset = offset;
      done = done;
      last_included_index = last_included_index;
      last_included_term = last_included_term;
    })

unfoldable pub serialize_snapshot_response : SnapshotInstallResponseData → Bytes
serialize_snapshot_response d = put_bool d.success ++ put_net d.offset

unfoldable pub deserialize_snapshot_response : Reader SnapshotInstallResponseData
deserialize_snapshot_response = get_bool >>= λ success.
    get_net >>= λ offset. pure (record { success = success; offset = offset })
