-- ===== src/Protocol/Persistence.antt =====
-- The cluster metadata of include/raft/protocol/protocol.h and the persistent state of
-- include/raft/raft.h come back from their bytes.
use mathlib.Core.List.{foldl}
use eya_kv.Prelude.{
  ◌^◌, ◌<◌, ◌≡◌, sym, ap, ◌∙◌, false, some, List, [], ◌∷◌, ◌++◌, append_assoc, append-nil, length,
}
use eya_kv.Codec.Words.{Bytes, get_u32, get_u32-put_u32, bind_some}
use eya_kv.Codec.Containers.{get_loop}
use eya_kv.Codec.RoundTrip.{All, AllTrip, Trips, read_field, read_count, get_loop-put_all}
use eya_kv.Protocol.Messages.{Address, ClusterMetadata, nodes_contain, PersistentState}
use eya_kv.Protocol.Wire.{
  serialize_address, deserialize_address, nodes_insert, serialize_metadata, deserialize_metadata,
  serialize_state, deserialize_state,
}
use eya_kv.Protocol.RoundTrip.{FitsAddress, address-Trips, net_field, word_field}

-- No address of `l` stands before it in `acc ++ l`.
abbrev pub NoNodeAfter : List Address → List Address → Type 0
NoNodeAfter acc [] = Unit
NoNodeAfter acc (a ∷ l) = (nodes_contain a acc ≡ false) × NoNodeAfter (acc ++ a ∷ []) l

foldl-nodes_insert :
    (acc l : List Address) → NoNodeAfter acc l → foldl nodes_insert acc l ≡ acc ++ l
unfolding nodes_insert
foldl-nodes_insert acc [] h = sym (append-nil acc)
foldl-nodes_insert acc (a ∷ l) h =
    rw h.0 (foldl-nodes_insert (acc ++ a ∷ []) l h.1 ∙ append_assoc acc (a ∷ []) l)

addresses_trip :
    (l : List Address)
    → All FitsAddress l
    → AllTrip serialize_address deserialize_address nodes_insert l
addresses_trip [] h = tt
addresses_trip (a ∷ l) h = (address-Trips a h.0, addresses_trip l h.1)

pub record FitsMetadata (m : ClusterMetadata) : Type 0 where
  pub version_fits : m.cluster_version < 2 ^ 32
  pub leader_fits : FitsAddress m.current_leader
  pub count_fits : length m.cluster_nodes < 2 ^ 32
  pub nodes_fit : All FitsAddress m.cluster_nodes
  pub nodes_distinct : NoNodeAfter [] m.cluster_nodes

pub metadata-Trips :
    (m : ClusterMetadata) → FitsMetadata m → Trips serialize_metadata deserialize_metadata m
unfolding serialize_metadata deserialize_metadata
metadata-Trips m h rest =
    net_field _ m.cluster_version _ rest h.version_fits
    ∙ read_field serialize_address deserialize_address _ m.current_leader _ rest
        (address-Trips m.current_leader h.leader_fits)
    ∙ read_count _ (length m.cluster_nodes) _ rest h.count_fits
    ∙ bind_some (get_loop deserialize_address nodes_insert (length m.cluster_nodes) []) _ (
        get_loop-put_all serialize_address deserialize_address nodes_insert m.cluster_nodes [] rest
          (addresses_trip m.cluster_nodes h.nodes_fit))
    ∙ ap (λ l. some (record m { cluster_nodes = l }, rest))
        (foldl-nodes_insert [] m.cluster_nodes h.nodes_distinct)

pub record FitsState (s : PersistentState) : Type 0 where
  pub term_fits : s.current_term < 2 ^ 32
  pub vote_fits : FitsAddress s.voted_for
  pub metadata_fits : FitsMetadata s.cluster_metadata
  pub snapshot_fits : s.log_snapshot_index < 2 ^ 32
  pub commit_fits : s.commit_index < 2 ^ 32
  pub applied_fits : s.last_applied < 2 ^ 32

-- A persistent state whose fields fit their types, and whose members are distinct, comes back from
-- its bytes: term, vote, members, and the three indexes.
pub state_round_trip :
    (s : PersistentState) (rest : Bytes)
    → FitsState s
    → deserialize_state (serialize_state s ++ rest) ≡ some (s, rest)
unfolding serialize_state deserialize_state
state_round_trip s rest h =
    word_field _ s.current_term _ rest h.term_fits
    ∙ read_field serialize_address deserialize_address _ s.voted_for _ rest
        (address-Trips s.voted_for h.vote_fits)
    ∙ read_field serialize_metadata deserialize_metadata _ s.cluster_metadata _ rest
        (metadata-Trips s.cluster_metadata h.metadata_fits)
    ∙ word_field _ s.log_snapshot_index _ rest h.snapshot_fits
    ∙ word_field _ s.commit_index _ rest h.commit_fits
    ∙ bind_some get_u32 _ (get_u32-put_u32 s.last_applied rest h.applied_fits)
