-- ===== src/Examples/Codec.antt =====
-- serializer.h and protocol.h at concrete inputs.
use eya_kv.Prelude.{ℕ, ◌^◌, ◌<◌, ◌≡◌, refl, some, [], ◌∷◌, ◌++◌, arith}
use eya_kv.Codec.Words.{put_net, put_u32, htonl}
use eya_kv.Codec.Containers.{
  bytes_eq, serialize_string, serialize_vector, deserialize_vector, serialize_set, deserialize_set,
  serialize_map, deserialize_map, set_contains, map_find,
}
use eya_kv.Codec.Collections.{vector_trips, set_trips, map_trips}
use eya_kv.Protocol.Messages.{
  null_address, LogEntry, AppendEntriesData, PersistentState, nodes_contain,
}
use eya_kv.Protocol.Wire.{
  serialize_entry, deserialize_entry, serialize_append, deserialize_append, serialize_state,
  deserialize_state,
}
use eya_kv.Protocol.RoundTrip.{FitsEntry, entry_round_trip, append_round_trip}
use eya_kv.Protocol.Persistence.{state_round_trip}

string_test : serialize_string (104 ∷ 105 ∷ []) ≡ 0 ∷ 0 ∷ 0 ∷ 2 ∷ 104 ∷ 105 ∷ []
unfolding serialize_string put_net put_u32 htonl
string_test = refl

vector_trips_example :
    deserialize_vector (serialize_vector ((104 ∷ []) ∷ [] ∷ []) ++ 7 ∷ [])
    ≡ some ((104 ∷ []) ∷ [] ∷ [], 7 ∷ [])
vector_trips_example =
    vector_trips ((104 ∷ []) ∷ [] ∷ []) (7 ∷ []) (omega arith) (omega arith, (omega arith, tt))

set_trips_example :
    deserialize_set (serialize_set ((104 ∷ []) ∷ (105 ∷ []) ∷ []) ++ [])
    ≡ some ((104 ∷ []) ∷ (105 ∷ []) ∷ [], [])
unfolding set_contains bytes_eq
set_trips_example =
    set_trips ((104 ∷ []) ∷ (105 ∷ []) ∷ []) [] (omega arith) (omega arith, (omega arith, tt))
      (refl, (refl, tt))

map_trips_example :
    deserialize_map (serialize_map ((104 ∷ [], 1 ∷ []) ∷ (105 ∷ [], []) ∷ []) ++ [])
    ≡ some ((104 ∷ [], 1 ∷ []) ∷ (105 ∷ [], []) ∷ [], [])
unfolding map_find bytes_eq
map_trips_example =
    map_trips ((104 ∷ [], 1 ∷ []) ∷ (105 ∷ [], []) ∷ []) [] (omega arith)
      ((omega arith, omega arith), ((omega arith, omega arith), tt)) (refl, (refl, tt))

abbrev pub sample : ℕ → LogEntry
sample index = record {
  term = 3;
  index = index;
  command_type = 0;
  cmd = 115 ∷ [];
  timestamp = 5_000_000_000;
  request_id = [];
}

pub sample-FitsEntry : (index : ℕ) → index < 2 ^ 32 → FitsEntry (sample index)
sample-FitsEntry index h = record {
  term_fits = omega arith;
  index_fits = h;
  type_fits = omega arith;
  timestamp_fits = omega arith;
  cmd_fits = omega arith;
  id_fits = omega arith;
}

entry_round_trip_example :
    deserialize_entry (serialize_entry (sample 9) ++ 1 ∷ []) ≡ some (sample 9, 1 ∷ [])
entry_round_trip_example = entry_round_trip (sample 9) (1 ∷ []) (sample-FitsEntry 9 (omega arith))

abbrev message : AppendEntriesData
message = record {
  prev_log_index = 8;
  prev_log_term = 2;
  entries = some (sample 9 ∷ sample 10 ∷ []);
  leader_commit = 7;
}

append_round_trip_example : deserialize_append (serialize_append message ++ []) ≡ some (message, [])
append_round_trip_example = append_round_trip message [] (record {
  index_fits = omega arith;
  term_fits = omega arith;
  commit_fits = omega arith;
  entries_fit = (
    omega arith,
    (sample-FitsEntry 9 (omega arith), (sample-FitsEntry 10 (omega arith), tt)),
    (tt, (omega arith, tt)),
  );
})

abbrev node_state : PersistentState
node_state = record {
  current_term = 4;
  voted_for = record { host = 104 ∷ []; port = 80 };
  cluster_metadata = record {
    cluster_nodes = record { host = 105 ∷ []; port = 81 } ∷ [];
    current_leader = null_address;
    cluster_version = 1;
  };
  log_snapshot_index = 0;
  commit_index = 7;
  last_applied = 6;
}

state_round_trip_example :
    deserialize_state (serialize_state node_state ++ []) ≡ some (node_state, [])
unfolding nodes_contain
state_round_trip_example = state_round_trip node_state [] (record {
  term_fits = omega arith;
  vote_fits = record { host_fits = omega arith; port_fits = omega arith };
  metadata_fits = record {
    version_fits = omega arith;
    leader_fits = record { host_fits = omega arith; port_fits = omega arith };
    count_fits = omega arith;
    nodes_fit = (record { host_fits = omega arith; port_fits = omega arith }, tt);
    nodes_distinct = (refl, tt);
  };
  snapshot_fits = omega arith;
  commit_fits = omega arith;
  applied_fits = omega arith;
})
