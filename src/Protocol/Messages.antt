-- ===== src/Protocol/Messages.antt =====
-- The structs of include/raft/protocol/protocol.h and their comparisons. `int port` of an address
-- is its bit pattern; a `std::set<LogEntry>` is the list of its entries by rising index.
use eya_kv.Prelude.{ℕ, Bool, true, false, ◌&&◌, ◌==◌, ltb, if◌then◌else◌, Option, List, [], ◌∷◌}
use eya_kv.Codec.Words.{Bytes}
use eya_kv.Codec.Containers.{bytes_eq}

pub record Address : Type 0 where
  pub host : Bytes
  pub port : ℕ

-- the default constructor
abbrev pub null_address : Address
null_address = record { host = []; port = 0 }

-- operator==
unfoldable pub address_eq : Address → Address → Bool
address_eq a b = bytes_eq a.host b.host && a.port == b.port

unfoldable pub is_null : Address → Bool
is_null a = bytes_eq a.host [] && a.port == 0

pub record LogEntry : Type 0 where
  pub term : ℕ
  pub index : ℕ
  pub command_type : ℕ
  pub cmd : Bytes
  pub timestamp : ℕ
  pub request_id : Bytes

-- insert of std::set<LogEntry>, ordered by `index`: an entry of an equal index stays
unfoldable pub entry_insert : List LogEntry → LogEntry → List LogEntry
entry_insert [] e = e ∷ []
entry_insert (x ∷ xs) e =
    if ltb x.index e.index
    then x ∷ entry_insert xs e
    else if ltb e.index x.index
    then e ∷ x ∷ xs
    else x ∷ xs

pub record RequestVoteData : Type 0 where
  pub last_log_index : ℕ
  pub last_log_term : ℕ

pub record AppendEntriesData : Type 0 where
  pub prev_log_index : ℕ
  pub prev_log_term : ℕ
  pub entries : Option (List LogEntry)
  pub leader_commit : ℕ

pub record AppendEntriesResponseData : Type 0 where
  pub success : Bool
  pub log_index : ℕ

-- unordered_set<Address>, in iteration order
pub record ClusterMetadata : Type 0 where
  pub cluster_nodes : List Address
  pub current_leader : Address
  pub cluster_version : ℕ

unfoldable pub nodes_contain : Address → List Address → Bool
nodes_contain a [] = false
nodes_contain a (x ∷ xs) = if address_eq x a then true else nodes_contain a xs

-- the persistent part of a node's state, include/raft/raft.h
pub record PersistentState : Type 0 where
  pub current_term : ℕ
  pub voted_for : Address
  pub cluster_metadata : ClusterMetadata
  pub log_snapshot_index : ℕ
  pub commit_index : ℕ
  pub last_applied : ℕ
