-- ===== src/RaftLog/Recovery/Restart.antt =====
-- src/raft/raft_log_array.cpp: the first append of a process that was started over a log.
use eya_kv.Prelude.{
  ℕ, ◌+◌, ◌≤◌, ◌≡◌, refl, sym, ap, subst, ◌∙◌, true, false, some, List, [], ◌∷◌, ◌++◌,
  length-append, arith,
}
use eya_kv.Codec.Containers.{put_all}
use eya_kv.Protocol.Messages.{LogEntry}
use eya_kv.RaftLog.State.{RaftLogArray, done, complete, Rebuild, put_u64}
use eya_kv.RaftLog.Frames.{frame, ftell, write_entry_to_wal, write_index_entry}
use eya_kv.RaftLog.Ops.{size, append, push_entry, truncate_if_large, recover, reopen}
use eya_kv.RaftLog.Recovery.Durable.{IsRestartable, IsDurable, indexed}
use eya_kv.RaftLog.Recovery.Stored.{
  Stored-append, Stored-push, index-push, recover-Stored, StartsAt, IndexedFrom-StartsAt,
  IndexedFrom, Stored, restored_base,
}
use eya_kv.RaftLog.Recovery.Reads.{read_at-append}

-- The log that the first append of the process leaves: the offset of its record is 0.
abbrev pub misplaced : (l : RaftLogArray) → IsDurable l → LogEntry → RaftLogArray
misplaced l d e = record l {
  wal_file = some (d.wal ++ frame e);
  at_start = false;
  entries = l.entries ++ e ∷ [];
  index_offsets = l.index_offsets ++ 0 ∷ [];
  index_file = some (put_all put_u64 l.index_offsets ++ put_u64 0);
  locked = false;
}

restarted_append :
    (r : Rebuild) (l : RaftLogArray) (e : LogEntry) (d : IsDurable l)
    → l.locked ≡ false
    → size l + 1 ≤ l.config.log_size_threshold
    → append r complete complete e (record l { at_start = true })
      ≡ done (true, indexed l e) (misplaced l d (indexed l e))
unfolding append write_entry_to_wal ftell push_entry write_index_entry truncate_if_large
restarted_append r l e d free below =
    ground (arith, free, d.wal_is, d.index_is, length-append l.entries (indexed l e ∷ []))

-- A process is started over a log that can be restarted, that is not empty and whose first entry
-- stands at the start of the log file, and finds it. An append with complete writes then reports
-- success, and the entry is in memory; but a second restart finds the first entry of the log in its
-- place.
pub append_after_restart :
    (r : Rebuild) (l : RaftLogArray) (e x : LogEntry) (es : List LogEntry) (os : List ℕ)
    → IsRestartable l
    → l.entries ≡ x ∷ es
    → l.index_offsets ≡ 0 ∷ os
    → size l + 1 ≤ l.config.log_size_threshold
    → (l1 l2 : RaftLogArray) × (recover (reopen l) ≡ done true l1)
      × (append r complete complete e l1 ≡ done (true, indexed l e) l2)
      × (l2.entries ≡ l.entries ++ indexed l e ∷ [])
      × (recover (reopen l2)
          ≡ done true (record l2 { entries = l.entries ++ x ∷ []; at_start = true }))
append_after_restart r l e x es os s nonempty at_zero below =
    let d = s.durable in
    let l2 = misplaced l d (indexed l e) in
    let stored : Stored d.wal (0 ∷ os) (x ∷ es) =
      subst (λ o. Stored d.wal o (x ∷ es)) at_zero
        (subst (λ m. Stored d.wal l.index_offsets m) nonempty d.stored) in
    let starts : x.index ≡ l.base_index =
      (subst (IndexedFrom l.base_index) nonempty s.indexed_entries).0 in
    let more = frame (indexed l e) in
    let both =
      Stored-push (d.wal ++ more) l.index_offsets l.entries 0 x
        (Stored-append d.wal more l.index_offsets l.entries d.stored)
        (read_at-append 0 d.wal more x stored.0) (omega arith) in
    (
      record l { at_start = true },
      l2,
      recover-Stored l d.wal l.entries d.wal_is d.index_is d.stored
            (IndexedFrom-StartsAt l.base_index l.entries s.indexed_entries) s.unlocked
          ∙ ap
              (λ (m : List LogEntry).
                done true (record l { base_index = restored_base l.base_index m; at_start = true }))
              nonempty,
      restarted_append r l e d s.unlocked below,
      refl,
      recover-Stored l2 (d.wal ++ more) (l.entries ++ x ∷ []) refl
            (ap some (index-push l.index_offsets 0)) both
            (subst (λ m. StartsAt l.base_index (m ++ x ∷ [])) (sym nonempty) starts) refl
          ∙ ap
              (λ (m : List LogEntry). done true (record l2 {
                entries = l.entries ++ x ∷ [];
                base_index = restored_base l.base_index (m ++ x ∷ []);
                at_start = true;
              }))
              nonempty,
    )
