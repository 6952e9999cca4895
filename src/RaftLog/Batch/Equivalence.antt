-- ===== src/RaftLog/Batch/Equivalence.antt =====
-- src/raft/raft_log_array.cpp: a batch append does what single appends of its entries do.
use eya_kv.Prelude.{
  ℕ, ◌+◌, ◌≡◌, sym, ap, ◌∙◌, Bool, true, List, [], ◌∷◌, ◌++◌, append-nil, length, length-append,
  arith,
}
use eya_kv.Codec.Words.{Bytes, to_u32}
use eya_kv.Codec.Containers.{put_all}
use eya_kv.Protocol.Messages.{LogEntry}
use eya_kv.RaftLog.State.{RaftLogArray, call_then, done, Call, ◌>>=◌, complete, Rebuild, put_u64}
use eya_kv.RaftLog.Frames.{frame}
use eya_kv.RaftLog.Ops.{size, append}
use eya_kv.RaftLog.Recovery.Durable.{indexed}
use eya_kv.RaftLog.Batch.{numbered, batch_offsets, batch_append}
use eya_kv.RaftLog.Batch.Steps.{
  extended, HasRoom, one_more, append_one, batch-extended, room_after, extended-one_more,
}

-- The entries appended one by one, and as they were numbered.
pub append_each : Rebuild → List LogEntry → Call (Bool × List LogEntry)
append_each r [] = done (true, [])
append_each r (e ∷ es) =
    append r complete complete e >>= λ x. append_each r es >>= λ xs. done (true, x.1 ∷ xs.1)

each-extended :
    (r : Rebuild) (l : RaftLogArray) (wal index : Bytes) (es : List LogEntry)
    → HasRoom l wal index es
    → append_each r es l
      ≡ done
          (true, numbered (to_u32 (l.base_index + size l)) es)
          (extended l wal index (numbered (to_u32 (l.base_index + size l)) es))
unfolding append_each numbered put_all batch_offsets
each-extended r l wal index [] h = rw (
  append-nil wal,
  append-nil index,
  append-nil l.entries,
  append-nil l.index_offsets,
  sym h.wal_is,
  sym h.index_is,
  sym h.unlocked,
)
each-extended r l wal index (e ∷ es) h =
    let x = indexed l e in
    let l1 = one_more l wal index x in
    let rest = numbered (to_u32 (to_u32 (l.base_index + size l) + 1)) es in
    let n : size l1 ≡ size l + 1 = length-append l.entries (x ∷ []) in
    let next : to_u32 (l1.base_index + size l1) ≡ to_u32 (to_u32 (l.base_index + size l) + 1) =
      omega (arith, n) in
    let first =
      append_one r l wal index e h.wal_is h.at_end h.index_is h.unlocked
        (omega (arith, h.below_threshold)) in
    let others =
      each-extended r l1 (wal ++ frame x) (index ++ put_u64 (length wal)) es
        (room_after l wal index e es h) in
    let same =
      extended-one_more l wal index x rest h.short.0
        (omega (arith, h.wal_room, length-append (frame x) (put_all frame rest))) in
    call_then (append r complete complete e) _ first
    ∙ call_then (append_each r es) (λ xs. done (true, x ∷ xs.1)) {l = l1} others
    ∙ ap
        (λ (s : ℕ).
          done (true, x ∷ numbered s es)
            (extended l1 (wal ++ frame x) (index ++ put_u64 (length wal)) (numbered s es)))
        next
    ∙ ap (λ (l' : RaftLogArray). done (true, x ∷ rest) l') same

-- A batch append to an unlocked log with open files, whose stream stands at the end, and with room, whose writes are complete and
-- whose entries are short, does what single appends of the entries in order do: it returns the
-- same numbered entries and leaves the same log and files.
pub batch_append-eq-each :
    (r : Rebuild) (l : RaftLogArray) (wal index : Bytes) (e : LogEntry) (es : List LogEntry)
    → HasRoom l wal index (e ∷ es)
    → batch_append r complete complete (e ∷ es) l ≡ append_each r (e ∷ es) l
batch_append-eq-each r l wal index e es h =
    batch-extended r l wal index e es h ∙ sym (each-extended r l wal index (e ∷ es) h)
