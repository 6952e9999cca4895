-- ===== src/RaftLog/Ops.antt =====
-- The operations of `RaftLogArray` in src/raft/raft_log_array.cpp. Indexes are compared as size_t
-- and returned as uint32_t, as there.
use eya_kv.Prelude.{
  ℕ, ◌+◌, ◌-◌, Bool, true, false, not, ◌||◌, ◌==◌, ltb, leb, if◌then◌else◌, Option, none, some,
  List, [], ◌∷◌, ◌++◌, length, get_elem?, get_last?, set, take, drop,
}
use eya_kv.Codec.Words.{Bytes, to_u32}
use eya_kv.Protocol.Messages.{LogEntry}
use eya_kv.RaftLog.State.{RaftLogArray, done, Call, ◌>>=◌, with_lock, Write, Rebuild}
use eya_kv.RaftLog.Frames.{
  write_entry_to_wal, write_index_entry, entry, read_entry_from_wal, read_offsets,
}

abbrev pub size : RaftLogArray → ℕ
size l = length l.entries

-- the entry at a logical index, where `get` returns true
unfoldable pub entry_at : ℕ → RaftLogArray → Option LogEntry
entry_at index l =
    if ltb index l.base_index || leb (l.base_index + size l) index
    then none
    else get_elem? l.entries (index - l.base_index)

unfoldable pub get : ℕ → Call (Option LogEntry)
unfolding entry_at
get index = with_lock λ l. done (entry_at index l) l

unfoldable pub term_at : ℕ → RaftLogArray → ℕ
unfolding entry_at
term_at index l = elim (entry_at index l) [ none ↦ 0 | some e ↦ e.term ]

unfoldable pub get_term : ℕ → Call ℕ
unfolding term_at
get_term index = with_lock λ l. done (term_at index l) l

unfoldable pub last_index : RaftLogArray → ℕ
last_index l = if size l == 0 then 0 else to_u32 (l.base_index + size l - 1)

unfoldable pub get_last_index : Call ℕ
unfolding last_index
get_last_index = with_lock λ l. done (last_index l) l

-- the index and the term of the last entry
unfoldable pub last_info : RaftLogArray → ℕ × ℕ
last_info l = elim (get_last? l.entries) [
  | none ↦ (0, 0)
  | some e ↦ (to_u32 (l.base_index + size l - 1), e.term)
]

unfoldable pub get_last_info : Call (ℕ × ℕ)
unfolding last_info
get_last_info = with_lock λ l. done (last_info l) l

-- get_entries_from with a count
unfoldable pub get_entries_from : ℕ → ℕ → Call (List LogEntry)
get_entries_from start_index max_count = with_lock λ l.
    done
      (if ltb start_index l.base_index
        then []
        else take max_count (drop (start_index - l.base_index) l.entries))
      l

-- the loop of truncate_wal_and_index over the entries from position `i` on
unfoldable pub rebuild_loop : Rebuild → ℕ → List LogEntry → RaftLogArray → RaftLogArray
rebuild_loop r i [] l = l
rebuild_loop r i (e ∷ es) l =
    let (offset, l') = write_entry_to_wal e (r.wal_writes i) l in
    rebuild_loop r (i + 1) es (elim offset [
      | none ↦ l'
      | some o ↦
          (write_index_entry o (r.index_writes i)
            (record l' { index_offsets = set l'.index_offsets i o })).1
    ])

unfoldable pub reopened : Bool → Option Bytes
reopened opened = if opened then some [] else none

-- closes both files, creates them anew and writes the entries again
unfoldable pub truncate_wal_and_index : Rebuild → RaftLogArray → RaftLogArray
unfolding reopened rebuild_loop
truncate_wal_and_index r l =
    let fresh = record l {
      wal_file = reopened r.wal_opened;
      at_start = false;
      index_file = reopened r.index_opened;
    } in
    if not r.wal_opened || not r.index_opened then fresh else rebuild_loop r 0 l.entries fresh

-- LOG_INFO with get_last_index() among its arguments
unfoldable pub log_last_index : Call (Unit {0})
log_last_index l = elim l.config.info [
  | true ↦ (get_last_index >>= λ _. done tt) l
  | false ↦ done tt l
]

-- reads the last index under the lock that it holds
unfoldable pub truncate_from : Rebuild → ℕ → Call Bool
truncate_from r index = with_lock λ l.
    if ltb index l.base_index || ltb (l.base_index + size l) index
    then done false l
    else (get_last_index >>= λ old_last_index l.
          if index == l.base_index + size l
          then done true l
          else (let kept = index - l.base_index in
              (log_last_index >>= λ _. done true) (
                truncate_wal_and_index r (record l {
                  entries = take kept l.entries;
                  index_offsets = take kept l.index_offsets;
                }))))
        l

unfoldable pub truncate_before : Rebuild → ℕ → Call Bool
truncate_before r index = with_lock λ l.
    if ltb index l.base_index || ltb (l.base_index + size l) index
    then done false l
    else if index == l.base_index
    then done true l
    else (let dropped = index - l.base_index in
        (log_last_index >>= λ _. done true) (
          truncate_wal_and_index r (record l {
            entries = drop dropped l.entries;
            index_offsets = drop dropped l.index_offsets;
            base_index = index;
          })))

-- the end of the appends: a log past the threshold drops its oldest part
unfoldable pub truncate_if_large : Rebuild → Call (Unit {0})
truncate_if_large r l =
    if ltb l.config.log_size_threshold (size l)
    then (let count = l.config.truncate_count (size l) in
        if ltb 0 count
        then (truncate_before r (to_u32 (l.base_index + to_u32 count)) >>= λ _. done tt) l
        else done tt l)
    else done tt l

-- steps 2 and 3 of the appends, after the write at `offset`
unfoldable pub push_entry : LogEntry → ℕ → Write → RaftLogArray → RaftLogArray
push_entry e offset w l =
    (write_index_entry offset w (record l {
      entries = l.entries ++ e ∷ [];
      index_offsets = l.index_offsets ++ offset ∷ [];
    })).1

-- append(LogEntry &): gives the entry its index, and returns it beside the result. The result is
-- true on a failed write too: `return -1` in a function that returns bool.
unfoldable pub append : Rebuild → Write → Write → LogEntry → Call (Bool × LogEntry)
unfolding push_entry truncate_if_large
append r w v e = with_lock λ l.
    let e' = record e { index = to_u32 (l.base_index + size l) } in
    let (offset, l') = write_entry_to_wal e' w l in
    elim offset [
      | none ↦ done (true, e') l'
      | some o ↦ (truncate_if_large r >>= λ _. done (true, e')) (push_entry e' o v l')
    ]

-- append(const LogEntry &): keeps the entry as it is
unfoldable pub append_const : Rebuild → Write → Write → LogEntry → Call Bool
unfolding push_entry truncate_if_large
append_const r w v e = with_lock λ l.
    let (offset, l') = write_entry_to_wal e w l in
    elim offset [
      | none ↦ done true l'
      | some o ↦ (truncate_if_large r >>= λ _. done true) (push_entry e o v l')
    ]

unfoldable pub create_snapshot : Rebuild → ℕ → Call Bool
create_snapshot r snapshot_index = with_lock λ l.
    if ltb snapshot_index l.base_index || leb (l.base_index + size l) snapshot_index
    then done false l
    else truncate_before r (to_u32 (snapshot_index + 1)) l

-- the two fopen of reset may fail
unfoldable pub reset : Bool → Bool → ℕ → Call Bool
unfolding reopened
reset wal_opened index_opened new_start_index = with_lock λ l.
    done (not (not wal_opened || not index_opened)) (record l {
      entries = [];
      index_offsets = [];
      base_index = new_start_index;
      wal_file = reopened wal_opened;
      at_start = false;
      index_file = reopened index_opened;
    })

-- load_entries: `none` if a record cannot be read
unfoldable pub load_entries : List ℕ → RaftLogArray → Option (List LogEntry)
load_entries [] l = some []
load_entries (offset ∷ offsets) l =
    let rest = load_entries offsets l in
    elim (read_entry_from_wal offset l) [
      | entry e ↦ elim rest [ none ↦ none | some es ↦ some (e ∷ es) ]
      | _ ↦ none
    ]

-- recover, with load_index: what the constructor makes of the two files
unfoldable pub recover : Call Bool
unfolding load_entries
recover = with_lock λ l. elim l.index_file [
  | none ↦ done true l
  | some index ↦
      (let offsets = read_offsets index in
        elim (load_entries offsets l) [
          | none ↦ done true (record l { entries = []; index_offsets = []; base_index = 1 })
          | some [] ↦ done true (record l { entries = []; index_offsets = offsets; base_index = 1 })
          | some (e ∷ es) ↦
              done true
                (record l { entries = e ∷ es; index_offsets = offsets; base_index = e.index })
        ])
]

-- A process that starts over the files of `l`: the constructor before `recover`.
abbrev pub reopen : RaftLogArray → RaftLogArray
reopen l = record l {
  entries = [];
  index_offsets = [];
  base_index = 1;
  at_start = true;
  locked = false;
}
