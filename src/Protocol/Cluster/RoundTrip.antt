-- ===== src/Protocol/Cluster/RoundTrip.antt =====
-- The messages of include/raft/protocol/protocol.h that join a node and send it a snapshot come
-- back from their bytes.
use eya_kv.Prelude.{ℕ, ◌^◌, ◌<◌, ◌≡◌, ap, ◌∙◌, true, false, some, [], ◌++◌, arith}
use eya_kv.Codec.Words.{Bytes, get_net, get_net-put_net, bind_some}
use eya_kv.Codec.Containers.{serialize_string, deserialize_string}
use eya_kv.Codec.RoundTrip.{Trips, FitsString, read_field, string-Trips}
use eya_kv.Protocol.Messages.{ClusterMetadata}
use eya_kv.Protocol.Wire.{put_bool, get_bool, serialize_metadata, deserialize_metadata}
use eya_kv.Protocol.RoundTrip.{bool-Trips, net_field}
use eya_kv.Protocol.Persistence.{FitsMetadata, metadata-Trips}
use eya_kv.Protocol.Cluster.{
  JoinClusterData, SnapshotInstallData, SnapshotInstallResponseData, put_net16, get_net16,
  serialize_join, deserialize_join, serialize_join_response, deserialize_join_response,
  serialize_snapshot, deserialize_snapshot, serialize_snapshot_response,
  deserialize_snapshot_response, no_metadata,
}

pub join-Trips :
    (d : JoinClusterData)
    → d.last_index < 2 ^ 32
    → d.port < 2 ^ 16
    → Trips serialize_join deserialize_join d
unfolding serialize_join deserialize_join put_net16 get_net16
join-Trips d h k rest =
    read_field put_bool get_bool _ d.is_reconnect _ rest (bool-Trips d.is_reconnect)
    ∙ net_field _ d.last_index _ rest h
    ∙ ap (λ (p : ℕ). some (record d { port = p }, rest)) (omega arith)

pub snapshot-Trips :
    (d : SnapshotInstallData)
    → FitsString d.snapshot_data
    → d.offset < 2 ^ 32
    → d.last_included_index < 2 ^ 32
    → d.last_included_term < 2 ^ 32
    → Trips serialize_snapshot deserialize_snapshot d
unfolding serialize_snapshot deserialize_snapshot
snapshot-Trips d s o i t rest =
    read_field serialize_string deserialize_string _ d.snapshot_data _ rest
      (string-Trips d.snapshot_data s)
    ∙ net_field _ d.offset _ rest o
    ∙ read_field put_bool get_bool _ d.done _ rest (bool-Trips d.done)
    ∙ net_field _ d.last_included_index _ rest i
    ∙ bind_some get_net _ (get_net-put_net d.last_included_term rest t)

pub snapshot_response-Trips :
    (d : SnapshotInstallResponseData)
    → d.offset < 2 ^ 32
    → Trips serialize_snapshot_response deserialize_snapshot_response d
unfolding serialize_snapshot_response deserialize_snapshot_response
snapshot_response-Trips d o rest =
    read_field put_bool get_bool _ d.success _ rest (bool-Trips d.success)
    ∙ bind_some get_net _ (get_net-put_net d.offset rest o)

pub accepted_trips :
    (error : Bytes) (meta : ClusterMetadata) (i : ℕ) (rest : Bytes)
    → FitsMetadata meta
    → i < 2 ^ 32
    → deserialize_join_response (
        serialize_join_response (record {
          success = true;
          error_message = error;
          cluster_metadata = meta;
          sync_from_index = i;
        })
        ++ rest)
      ≡ some (
        record { success = true; error_message = []; cluster_metadata = meta; sync_from_index = i },
        rest,
      )
unfolding serialize_join_response deserialize_join_response
accepted_trips error meta i rest m h =
    read_field put_bool get_bool _ true _ rest (bool-Trips true)
    ∙ read_field serialize_metadata deserialize_metadata _ meta _ rest (metadata-Trips meta m)
    ∙ bind_some get_net _ (get_net-put_net i rest h)

pub refused_trips :
    (error : Bytes) (meta : ClusterMetadata) (i : ℕ) (rest : Bytes)
    → FitsString error
    → deserialize_join_response (
        serialize_join_response (record {
          success = false;
          error_message = error;
          cluster_metadata = meta;
          sync_from_index = i;
        })
        ++ rest)
      ≡ some (
        record {
          success = false;
          error_message = error;
          cluster_metadata = no_metadata;
          sync_from_index = 0;
        },
        rest,
      )
unfolding serialize_join_response deserialize_join_response
refused_trips error meta i rest s =
    read_field put_bool get_bool _ false _ rest (bool-Trips false)
    ∙ bind_some deserialize_string _ (string-Trips error s rest)
