-- ===== src/Protocol/Delivery.antt =====
-- Every message that a factory of include/raft/protocol/protocol.h makes arrives.
use eya_kv.Prelude.{◌^◌, ◌<◌, ◌≡◌, refl, ap, ◌∙◌, true, false, some, [], ◌∷◌, ◌++◌, arith}
use eya_kv.Codec.Words.{Bytes, bind_some}
use eya_kv.Codec.RoundTrip.{FitsString}
use eya_kv.Protocol.Wire.{
  deserialize_vote, deserialize_vote_response, deserialize_append, deserialize_append_response,
  deserialize_address,
}
use eya_kv.Protocol.RoundTrip.{
  FitsAddress, FitsEntries, address-Trips, vote_trips, vote_response_trips, append_response_trips,
  append_round_trip, net_field,
}
use eya_kv.Protocol.Persistence.{FitsMetadata}
use eya_kv.Protocol.Cluster.{
  deserialize_join, deserialize_join_response, deserialize_snapshot, deserialize_snapshot_response,
}
use eya_kv.Protocol.Envelope.{
  RaftMessageType, RaftMessage, default_message, type_code, type_of_code, serialize_body,
  serialize_message, deserialize_body, deserialize_message,
}
use eya_kv.Protocol.Factory.{
  Factory, leave_node, request_vote, request_vote_response, append_entries,
  append_entries_with_data, append_entries_response, new_node_join_broadcast, new_master,
  query_leader, query_leader_response, join_cluster, join_cluster_response, snapshot_install,
  snapshot_install_response, make, arrived,
}
use eya_kv.Protocol.Cluster.RoundTrip.{
  join-Trips, snapshot-Trips, snapshot_response-Trips, accepted_trips, refused_trips,
}

-- The arguments of a factory fit their C++ types, and a set of entries rises in index.
abbrev pub FitsFactory : Factory → Type 0
FitsFactory (leave_node addr) = FitsAddress addr
FitsFactory (request_vote term i t) = (term < 2 ^ 32) × (i < 2 ^ 32) × (t < 2 ^ 32)
FitsFactory (request_vote_response term granted) = term < 2 ^ 32
FitsFactory (append_entries term i t c) =
    (term < 2 ^ 32) × (i < 2 ^ 32) × (t < 2 ^ 32) × (c < 2 ^ 32)
FitsFactory (append_entries_with_data term i t entries c) =
    (term < 2 ^ 32) × (i < 2 ^ 32) × (t < 2 ^ 32) × (c < 2 ^ 32) × FitsEntries (some entries)
FitsFactory (append_entries_response term success i) = (term < 2 ^ 32) × (i < 2 ^ 32)
FitsFactory (new_node_join_broadcast addr) = FitsAddress addr
FitsFactory (new_master term addr) = (term < 2 ^ 32) × FitsAddress addr
FitsFactory query_leader = Unit
FitsFactory (query_leader_response addr) = FitsAddress addr
FitsFactory (join_cluster reconnect i port) = (i < 2 ^ 32) × (port < 2 ^ 16)
FitsFactory (join_cluster_response success error meta i) =
    FitsString error × FitsMetadata meta × (i < 2 ^ 32)
FitsFactory (snapshot_install text offset done i t) =
    FitsString text × (offset < 2 ^ 32) × (i < 2 ^ 32) × (t < 2 ^ 32)
FitsFactory (snapshot_install_response success offset) = offset < 2 ^ 32

-- The type and the term of a message, then its body.
header_trips :
    (m : RaftMessage) (rest : Bytes)
    → m.term < 2 ^ 32
    → type_code m.type < 2 ^ 32
    → type_of_code (type_code m.type) ≡ m.type
    → deserialize_message default_message (serialize_message m ++ rest)
      ≡ deserialize_body m.type
          (record default_message { type = m.type; term = m.term })
          (serialize_body m.type m ++ rest)
unfolding serialize_message deserialize_message
header_trips m rest h k named =
    net_field _ (type_code m.type) _ rest k
    ∙ net_field _ m.term _ rest h
    ∙ ap
        (λ (t : RaftMessageType).
          deserialize_body t (record default_message { type = t; term = m.term })
            (serialize_body m.type m ++ rest))
        named

-- Every message that a factory makes from arguments that fit their types is read back, into a
-- default message and from any bytes behind it, as the message that its receiver is to see.
pub message_arrives :
    (f : Factory) (rest : Bytes)
    → FitsFactory f
    → deserialize_message default_message (serialize_message (make f) ++ rest)
      ≡ some (make (arrived f), rest)
unfolding make type_code type_of_code deserialize_body serialize_body
message_arrives (leave_node addr) rest h =
    header_trips (make (leave_node addr)) rest (omega arith) (omega arith) refl
    ∙ bind_some deserialize_address _ (address-Trips addr h rest)
message_arrives (request_vote term i t) rest h =
    header_trips (make (request_vote term i t)) rest h.0 (omega arith) refl
    ∙ bind_some deserialize_vote _ (vote_trips _ rest h.1 h.2)
message_arrives (request_vote_response term granted) rest h =
    header_trips (make (request_vote_response term granted)) rest h (omega arith) refl
    ∙ bind_some deserialize_vote_response _ (vote_response_trips granted rest)
message_arrives (append_entries term i t c) rest h =
    header_trips (make (append_entries term i t c)) rest h.0 (omega arith) refl
    ∙ bind_some deserialize_append _ (
        append_round_trip _ rest
          (record { index_fits = h.1; term_fits = h.2; commit_fits = h.3; entries_fit = tt }))
message_arrives (append_entries_with_data term i t [] c) rest h =
    header_trips (make (append_entries_with_data term i t [] c)) rest h.0 (omega arith) refl
    ∙ bind_some deserialize_append _ (
        append_round_trip _ rest
          (record { index_fits = h.1; term_fits = h.2; commit_fits = h.3; entries_fit = h.4 }))
message_arrives (append_entries_with_data term i t (e ∷ es) c) rest h =
    header_trips (make (append_entries_with_data term i t (e ∷ es) c)) rest h.0 (omega arith) refl
    ∙ bind_some deserialize_append _ (
        append_round_trip _ rest
          (record { index_fits = h.1; term_fits = h.2; commit_fits = h.3; entries_fit = h.4 }))
message_arrives (append_entries_response term success i) rest h =
    header_trips (make (append_entries_response term success i)) rest h.0 (omega arith) refl
    ∙ bind_some deserialize_append_response _ (append_response_trips _ rest h.1)
message_arrives (new_node_join_broadcast addr) rest h =
    header_trips (make (new_node_join_broadcast addr)) rest (omega arith) (omega arith) refl
    ∙ bind_some deserialize_address _ (address-Trips addr h rest)
message_arrives (new_master term addr) rest h =
    header_trips (make (new_master term addr)) rest h.0 (omega arith) refl
    ∙ bind_some deserialize_address _ (address-Trips addr h.1 rest)
message_arrives query_leader rest h =
    header_trips (make query_leader) rest (omega arith) (omega arith) refl
message_arrives (query_leader_response addr) rest h =
    header_trips (make (query_leader_response addr)) rest (omega arith) (omega arith) refl
    ∙ bind_some deserialize_address _ (address-Trips addr h rest)
message_arrives (join_cluster reconnect i port) rest h =
    header_trips (make (join_cluster reconnect i port)) rest (omega arith) (omega arith) refl
    ∙ bind_some deserialize_join _ (join-Trips _ h.0 h.1 rest)
message_arrives (join_cluster_response true error meta i) rest h =
    header_trips (make (join_cluster_response true error meta i)) rest (omega arith) (omega arith)
      refl
    ∙ bind_some deserialize_join_response _ (accepted_trips error meta i rest h.1 h.2)
message_arrives (join_cluster_response false error meta i) rest h =
    header_trips (make (join_cluster_response false error meta i)) rest (omega arith) (omega arith)
      refl
    ∙ bind_some deserialize_join_response _ (refused_trips error meta i rest h.0)
message_arrives (snapshot_install text offset done i t) rest h =
    header_trips (make (snapshot_install text offset done i t)) rest (omega arith) (omega arith)
      refl
    ∙ bind_some deserialize_snapshot _ (snapshot-Trips _ h.0 h.1 h.2 h.3 rest)
message_arrives (snapshot_install_response success offset) rest h =
    header_trips (make (snapshot_install_response success offset)) rest (omega arith) (omega arith)
      refl
    ∙ bind_some deserialize_snapshot_response _ (snapshot_response-Trips _ h rest)
