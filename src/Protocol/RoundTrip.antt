-- ===== src/Protocol/RoundTrip.antt =====
-- Every message of include/raft/protocol/protocol.h is read back as it was sent.
use mathlib.Core.List.{foldl}
use eya_kv.Prelude.{
  ℕ, ◌+◌, ◌*◌, ◌/◌, ◌%◌, ◌^◌, ◌<◌, ◌≡◌, refl, sym, ap, ◌∙◌, Bool, true, false, Option, none, some,
  List, [], ◌∷◌, ◌++◌, append_assoc, append-nil, length, arith,
}
use eya_kv.Codec.Words.{
  Bytes, Reader, ◌>>=◌, pure, to_u32, get_u8, get_u8-put_u8, put_u32, get_u32, get_u32-put_u32,
  put_net, get_net, get_net-put_net, bind_some, htonl,
}
use eya_kv.Codec.Containers.{get_bytes, serialize_string, deserialize_string, put_all, get_loop}
use eya_kv.Codec.RoundTrip.{
  All, AllTrip, Trips, FitsString, read_field, read_count, string-Trips, get_loop-put_all,
  to_u32_id, get_bytes-append,
}
use eya_kv.Protocol.Messages.{
  Address, LogEntry, entry_insert, RequestVoteData, AppendEntriesData, AppendEntriesResponseData,
}
use eya_kv.Protocol.Wire.{
  serialize_address, deserialize_address, serialize_entry, deserialize_entry, serialize_vote,
  deserialize_vote, put_bool, get_bool, serialize_vote_response, deserialize_vote_response,
  put_entries, get_entry_set, get_entries, serialize_append, deserialize_append,
  serialize_append_response, deserialize_append_response,
}

pub net-Trips : (x : ℕ) → x < 2 ^ 32 → Trips put_net get_net x
net-Trips x h rest = get_net-put_net x rest h

pub word-Trips : (x : ℕ) → x < 2 ^ 32 → Trips put_u32 get_u32 x
word-Trips x h rest = get_u32-put_u32 x rest h

-- One field of a struct in network order, then the others.
pub net_field {ℓ} :
    {B : Type ℓ} (f : ℕ → Reader B) (x : ℕ) (more rest : Bytes)
    → x < 2 ^ 32
    → (get_net >>= f) ((put_net x ++ more) ++ rest) ≡ f x (more ++ rest)
net_field f x more rest h = read_field put_net get_net f x more rest (net-Trips x h)

pub word_field {ℓ} :
    {B : Type ℓ} (f : ℕ → Reader B) (x : ℕ) (more rest : Bytes)
    → x < 2 ^ 32
    → (get_u32 >>= f) ((put_u32 x ++ more) ++ rest) ≡ f x (more ++ rest)
word_field f x more rest h = read_field put_u32 get_u32 f x more rest (word-Trips x h)

pub record FitsAddress (a : Address) : Type 0 where
  pub host_fits : FitsString a.host
  pub port_fits : a.port < 2 ^ 32

pub address-Trips : (a : Address) → FitsAddress a → Trips serialize_address deserialize_address a
unfolding serialize_address deserialize_address
address-Trips a h rest =
    read_count _ (length a.host) (a.host ++ put_net (to_u32 a.port)) rest h.host_fits
    ∙ ap (get_bytes (length a.host) >>= tail) (append_assoc a.host (put_net (to_u32 a.port)) rest)
    ∙ bind_some (get_bytes (length a.host)) tail (get_bytes-append a.host _)
    ∙ ap (λ (p : ℕ). tail a.host (put_net p ++ rest)) (to_u32_id a.port h.port_fits)
    ∙ bind_some get_net _ (get_net-put_net a.port rest h.port_fits)
  where
    tail : Bytes → Reader Address
    tail host = get_net >>= λ port. pure (record { host = host; port = port })

-- The fields of a log entry fit their C++ types: words of 32 bits, a timestamp of 64, and strings
-- whose length fits a word.
pub record FitsEntry (e : LogEntry) : Type 0 where
  pub term_fits : e.term < 2 ^ 32
  pub index_fits : e.index < 2 ^ 32
  pub type_fits : e.command_type < 2 ^ 32
  pub timestamp_fits : e.timestamp < 2 ^ 64
  pub cmd_fits : FitsString e.cmd
  pub id_fits : FitsString e.request_id

timestamp_words : (t : ℕ) → t < 2 ^ 64 → to_u32 (t / 2 ^ 32) * 2 ^ 32 + t % 2 ^ 32 ≡ t
timestamp_words t h = omega arith

pub entry-Trips : (e : LogEntry) → FitsEntry e → Trips serialize_entry deserialize_entry e
unfolding serialize_entry deserialize_entry
entry-Trips e h rest =
    net_field _ e.term _ rest h.term_fits
    ∙ net_field _ e.index _ rest h.index_fits
    ∙ net_field _ e.command_type _ rest h.type_fits
    ∙ net_field _ (to_u32 (e.timestamp / 2 ^ 32)) _ rest (omega arith)
    ∙ net_field _ (e.timestamp % 2 ^ 32) _ rest (omega arith)
    ∙ read_field serialize_string deserialize_string _ e.cmd _ rest (string-Trips e.cmd h.cmd_fits)
    ∙ bind_some deserialize_string _ (string-Trips e.request_id h.id_fits rest)
    ∙ ap (λ (t : ℕ). some (record e { timestamp = t }, rest))
        (timestamp_words e.timestamp h.timestamp_fits)

-- A log entry whose fields fit their types comes back, its 64-bit timestamp from two words.
pub entry_round_trip :
    (e : LogEntry) (rest : Bytes)
    → FitsEntry e
    → deserialize_entry (serialize_entry e ++ rest) ≡ some (e, rest)
entry_round_trip e rest h = entry-Trips e h rest

pub vote_trips :
    (d : RequestVoteData) (rest : Bytes)
    → d.last_log_index < 2 ^ 32
    → d.last_log_term < 2 ^ 32
    → deserialize_vote (serialize_vote d ++ rest) ≡ some (d, rest)
unfolding serialize_vote deserialize_vote
vote_trips d rest h k =
    net_field _ d.last_log_index _ rest h
    ∙ bind_some get_net _ (get_net-put_net d.last_log_term rest k)

pub bool-Trips : (b : Bool) → Trips put_bool get_bool b
unfolding put_bool get_bool
bool-Trips true rest = bind_some get_u8 _ (get_u8-put_u8 1 rest (omega arith))
bool-Trips false rest = bind_some get_u8 _ (get_u8-put_u8 0 rest (omega arith))

pub vote_response_trips :
    (vote_granted : Bool) (rest : Bytes)
    → deserialize_vote_response (serialize_vote_response vote_granted ++ rest)
      ≡ some (vote_granted, rest)
unfolding serialize_vote_response deserialize_vote_response
vote_response_trips b rest = bool-Trips b rest

pub append_response_trips :
    (d : AppendEntriesResponseData) (rest : Bytes)
    → d.log_index < 2 ^ 32
    → deserialize_append_response (serialize_append_response d ++ rest) ≡ some (d, rest)
unfolding serialize_append_response deserialize_append_response
append_response_trips d rest h =
    read_field put_bool get_bool _ d.success _ rest (bool-Trips d.success)
    ∙ bind_some get_net _ (get_net-put_net d.log_index rest h)

-- The entries of `l` rise in index, and above all of `acc`, as those of a std::set do.
abbrev pub RisesAfter : List LogEntry → List LogEntry → Type 0
RisesAfter acc [] = Unit
RisesAfter acc (e ∷ l) = All (λ x. x.index < e.index) acc × RisesAfter (acc ++ e ∷ []) l

entry_insert-above :
    (acc : List LogEntry) (e : LogEntry)
    → All (λ x. x.index < e.index) acc
    → entry_insert acc e ≡ acc ++ e ∷ []
unfolding entry_insert
entry_insert-above [] e h = refl
entry_insert-above (x ∷ xs) e h = ground (arith, entry_insert-above xs e h.1)

foldl-entry_insert :
    (acc l : List LogEntry) → RisesAfter acc l → foldl entry_insert acc l ≡ acc ++ l
foldl-entry_insert acc [] h = sym (append-nil acc)
foldl-entry_insert acc (e ∷ l) h =
    rw (entry_insert-above acc e h.0)
      (foldl-entry_insert (acc ++ e ∷ []) l h.1 ∙ append_assoc acc (e ∷ []) l)

entries_trip :
    (l : List LogEntry) → All FitsEntry l → AllTrip serialize_entry deserialize_entry entry_insert l
entries_trip [] h = tt
entries_trip (e ∷ l) h = (entry-Trips e h.0, entries_trip l h.1)

-- An absent set and an empty one are both sent as a count of 0, and read as absent.
abbrev pub as_received : Option (List LogEntry) → Option (List LogEntry)
as_received none = none
as_received (some []) = none
as_received (some (e ∷ l)) = some (e ∷ l)

abbrev pub FitsEntries : Option (List LogEntry) → Type 0
FitsEntries none = Unit {0}
FitsEntries (some l) = (length l < 2 ^ 32) × All FitsEntry l × RisesAfter [] l

-- The count of an absent set is not put in network order; at 0 that changes nothing.
count_of_none : (rest : Bytes) → get_net (put_u32 0 ++ rest) ≡ some (0, rest)
unfolding get_net get_u32 put_u32 htonl
count_of_none rest = refl

put_entries_trip :
    (entries : Option (List LogEntry)) (rest : Bytes)
    → FitsEntries entries
    → get_entries (put_entries entries ++ rest) ≡ some (as_received entries, rest)
unfolding put_entries get_entries put_all
put_entries_trip none rest h = bind_some get_net get_entry_set (count_of_none rest)
put_entries_trip (some []) rest h = read_count get_entry_set 0 [] rest (omega arith)
put_entries_trip (some (e ∷ l)) rest h =
    read_count get_entry_set (length (e ∷ l)) (put_all serialize_entry (e ∷ l)) rest h.0
    ∙ bind_some (get_loop deserialize_entry entry_insert (length (e ∷ l)) []) _ (
        get_loop-put_all serialize_entry deserialize_entry entry_insert (e ∷ l) [] rest
          (entries_trip (e ∷ l) h.1))
    ∙ ap (λ m. some (some m, rest)) (foldl-entry_insert [] (e ∷ l) h.2)

pub record FitsAppend (d : AppendEntriesData) : Type 0 where
  pub index_fits : d.prev_log_index < 2 ^ 32
  pub term_fits : d.prev_log_term < 2 ^ 32
  pub commit_fits : d.leader_commit < 2 ^ 32
  pub entries_fit : FitsEntries d.entries

-- An AppendEntries message whose fields fit their types, and whose entries rise in index, comes
-- back, but that an empty set of entries is received as an absent one.
pub append_round_trip :
    (d : AppendEntriesData) (rest : Bytes)
    → FitsAppend d
    → deserialize_append (serialize_append d ++ rest)
      ≡ some (record d { entries = as_received d.entries }, rest)
unfolding serialize_append deserialize_append
append_round_trip d rest h =
    net_field _ d.prev_log_index _ rest h.index_fits
    ∙ net_field _ d.prev_log_term _ rest h.term_fits
    ∙ ap (get_entries >>= tail)
        (append_assoc (put_entries d.entries) (put_net d.leader_commit) rest)
    ∙ bind_some get_entries tail (put_entries_trip d.entries _ h.entries_fit)
    ∙ bind_some get_net _ (get_net-put_net d.leader_commit rest h.commit_fits)
  where
    tail : Option (List LogEntry) → Reader AppendEntriesData
    tail entries = get_net >>= λ leader_commit. pure (record {
      prev_log_index = d.prev_log_index;
      prev_log_term = d.prev_log_term;
      entries = entries;
      leader_commit = leader_commit;
    })
