-- ===== src/RaftLog/Recovery/Durable.antt =====
-- The invariant of the files of `RaftLogArray` in src/raft/raft_log_array.cpp, kept by `append`.
use eya_kv.Prelude.{
  ◌+◌, ◌^◌, ◌<◌, ◌≤◌, ◌≡◌, refl, ap, true, false, some, List, [], ◌∷◌, ◌++◌, length, length-append,
  length-take, take, ◌≤◌, arith, if◌then◌else◌,
}
use eya_kv.Codec.Words.{Bytes, to_u32}
use eya_kv.Codec.Containers.{put_all}
use eya_kv.Protocol.Messages.{LogEntry}
use eya_kv.RaftLog.State.{
  RaftLogArray, done, Write, complete, torn, written, succeeds, Rebuild, put_u64,
}
use eya_kv.RaftLog.Frames.{frame, ftell, write_entry_to_wal, write_index_entry}
use eya_kv.RaftLog.Ops.{size, append, push_entry, truncate_if_large, recover, reopen}
use eya_kv.RaftLog.Recovery.Reads.{FitsFrame, read_at-frame}
use eya_kv.RaftLog.Recovery.Stored.{
  Stored, Stored-append, Stored-push, index-push, IndexedFrom, IndexedFrom-push, restored_base,
  IndexedFrom-StartsAt, recover-Stored,
}

-- Both files are open, the stream stands at the end of the log file, the index file holds the offsets, and these lead to the entries.
pub record IsDurable (l : RaftLogArray) : Type 0 where
  pub wal : Bytes
  pub wal_is : l.wal_file ≡ some wal
  pub at_end : ftell l wal ≡ length wal
  pub index_is : l.index_file ≡ some (put_all put_u64 l.index_offsets)
  pub stored : Stored wal l.index_offsets l.entries

-- What an append of an entry leaves in memory: the entry if the record was written, else nothing.
abbrev pub appended : Write → LogEntry → List LogEntry → List LogEntry
appended w e es = if succeeds w then es ++ e ∷ [] else es

-- the entry with the index that `append` gives it
abbrev pub indexed : RaftLogArray → LogEntry → LogEntry
indexed l e = record e { index = to_u32 (l.base_index + size l) }

-- The log that an append leaves, and what it returns, when the log stays within its threshold.
pub record Appends (r : Rebuild) (w : Write) (l : RaftLogArray) (e : LogEntry) (d : IsDurable l)
    : Type 0 where
  pub after : RaftLogArray
  pub returns : append r w complete e l ≡ done (true, indexed l e) after
  pub durable : IsDurable after
  pub entries_are : after.entries ≡ appended w (indexed l e) l.entries
  pub base_is : after.base_index ≡ l.base_index
  pub config_is : after.config ≡ l.config
  pub unlocked : after.locked ≡ false
  pub wal_grows : length durable.wal ≤ length d.wal + length (frame (indexed l e))

pub append-Appends :
    (r : Rebuild) (w : Write) (l : RaftLogArray) (e : LogEntry) (d : IsDurable l)
    → l.locked ≡ false
    → FitsFrame (indexed l e)
    → length d.wal < 2 ^ 64
    → size l + 1 ≤ l.config.log_size_threshold
    → Appends r w l e d
unfolding append write_entry_to_wal ftell push_entry write_index_entry truncate_if_large
append-Appends r (torn n) l e d free fits small below = record {
  after = record l {
    wal_file = some (d.wal ++ written (torn n) (frame (indexed l e)));
    at_start = false;
    locked = false;
  };
  returns = ground (arith, d.wal_is);
  durable = record {
    wal = d.wal ++ written (torn n) (frame (indexed l e));
    wal_is = refl;
    at_end = refl;
    index_is = d.index_is;
    stored = Stored-append d.wal _ l.index_offsets l.entries d.stored;
  };
  entries_are = refl;
  base_is = refl;
  config_is = refl;
  unlocked = refl;
  wal_grows = omega (
    arith,
    length-append d.wal (take n (frame (indexed l e))),
    length-take n (frame (indexed l e)),
  );
}
append-Appends r complete l e d free fits small below = record {
  after = record l {
    wal_file = some (d.wal ++ frame (indexed l e));
    at_start = false;
    entries = l.entries ++ indexed l e ∷ [];
    index_offsets = l.index_offsets ++ length d.wal ∷ [];
    index_file = some (put_all put_u64 l.index_offsets ++ put_u64 (length d.wal));
    locked = false;
  };
  returns =
      ground (arith, d.wal_is, d.at_end, d.index_is, length-append l.entries (indexed l e ∷ []));
  durable = record {
    wal = d.wal ++ frame (indexed l e);
    wal_is = refl;
    at_end = refl;
    index_is = ap some (index-push l.index_offsets (length d.wal));
    stored =
        Stored-push _ l.index_offsets l.entries (length d.wal) (indexed l e)
          (Stored-append d.wal _ l.index_offsets l.entries d.stored)
          (read_at-frame d.wal (indexed l e) fits) small;
  };
  entries_are = refl;
  base_is = refl;
  config_is = refl;
  unlocked = refl;
  wal_grows = omega (arith, length-append d.wal (frame (indexed l e)));
}

-- What a log that can be restarted satisfies.
pub record IsRestartable (l : RaftLogArray) : Type 0 where
  pub durable : IsDurable l
  pub indexed_entries : IndexedFrom l.base_index l.entries
  pub unlocked : l.locked ≡ false

pub appended-IndexedFrom :
    (w : Write) (l : RaftLogArray) (e : LogEntry)
    → IndexedFrom l.base_index l.entries
    → l.base_index + size l < 2 ^ 32
    → IndexedFrom l.base_index (appended w (indexed l e) l.entries)
appended-IndexedFrom complete l e h k =
    IndexedFrom-push l.base_index l.entries (indexed l e) h (omega arith)
appended-IndexedFrom (torn n) l e h k = h

abbrev pub restartable_after :
    {r : Rebuild} {w : Write} {l : RaftLogArray} {e : LogEntry} (s : IsRestartable l)
    → l.base_index + size l < 2 ^ 32
    → (a : Appends r w l e s.durable) → IsRestartable a.after
restartable_after {r} {w} {l} {e} s room a = record {
  durable = a.durable;
  indexed_entries =
      rw (a.base_is, a.entries_are) (appended-IndexedFrom w l e s.indexed_entries room);
  unlocked = a.unlocked;
}

-- An append to a restartable log, one that has written since it was opened or whose log file is empty,
-- within its threshold, of an entry that fits and with a complete write to the index file, reports
-- success, whether the write of the record was complete, with its fflush, or fwrite stopped in it; the
-- log then holds the entry exactly if it was complete, is restartable again, and a restart over its files gives
-- the same log, with base index 1 if empty and its stream at the start.
pub append_survives_restart :
    (r : Rebuild) (w : Write) (l : RaftLogArray) (e : LogEntry) (s : IsRestartable l)
    → FitsFrame (indexed l e)
    → length s.durable.wal < 2 ^ 64
    → size l + 1 ≤ l.config.log_size_threshold
    → l.base_index + size l < 2 ^ 32
    → (l' : RaftLogArray) × (append r w complete e l ≡ done (true, indexed l e) l')
      × (l'.entries ≡ appended w (indexed l e) l.entries)
      × IsRestartable l'
      × (recover (reopen l')
          ≡ done true
              (record l' { base_index = restored_base l'.base_index l'.entries; at_start = true }))
append_survives_restart r w l e s fits small below room =
    let a = append-Appends r w l e s.durable s.unlocked fits small below in
    let again = restartable_after s room a in
    (
      a.after,
      a.returns,
      a.entries_are,
      again,
      recover-Stored a.after a.durable.wal a.after.entries a.durable.wal_is a.durable.index_is
          a.durable.stored (IndexedFrom-StartsAt _ _ again.indexed_entries) a.unlocked,
    )
