-- ===== src/RaftLog/Batch/Steps.antt =====
-- src/raft/raft_log_array.cpp: the log that a batch append leaves, and one that a single append
-- leaves.
use eya_kv.Prelude.{
  ℕ, suc, ◌+◌, ◌%◌, ◌^◌, ◌<◌, ◌≤◌, ◌≡◌, refl, ap, ◌∙◌, Bool, true, false, some, List, [], ◌∷◌, ◌++◌,
  append_assoc, length, length-append, subst, arith,
}
use eya_kv.Codec.Words.{Bytes, to_u32, put_u32}
use eya_kv.Codec.Containers.{put_all}
use eya_kv.Codec.RoundTrip.{All}
use eya_kv.Protocol.Messages.{LogEntry}
use eya_kv.Protocol.Wire.{serialize_entry}
use eya_kv.RaftLog.State.{
  RaftLogArray, call_then, lock_free, done, ◌>>=◌, complete, Rebuild, put_u64,
}
use eya_kv.RaftLog.Frames.{frame, ftell, write_entry_to_wal, write_index_entry}
use eya_kv.RaftLog.Ops.{size, append, push_entry, truncate_if_large}
use eya_kv.RaftLog.Recovery.Durable.{indexed}
use eya_kv.RaftLog.Batch.{
  numbered, batch_offsets, write_batch_to_wal, write_index_batch, append_batch, batch_append,
}

-- Whether the stream stands at its start once the entries are written.
abbrev pub still_at_start : Bool → List LogEntry → Bool
still_at_start b [] = b
still_at_start b (e ∷ es) = false

still_moved : (es : List LogEntry) → still_at_start false es ≡ false
still_moved [] = refl
still_moved (e ∷ es) = refl

-- The log with the entries behind it in memory and in both files.
abbrev pub extended : RaftLogArray → Bytes → Bytes → List LogEntry → RaftLogArray
extended l wal index es = record l {
  wal_file = some (wal ++ put_all frame es);
  at_start = still_at_start l.at_start es;
  entries = l.entries ++ es;
  index_offsets = l.index_offsets ++ batch_offsets (length wal) es;
  index_file = some (index ++ put_all put_u64 (batch_offsets (length wal) es));
  locked = false;
}

-- The serialized entry is shorter than 2^32 bytes.
abbrev pub IsShort : LogEntry → Type 0
IsShort e = length (serialize_entry e) < 2 ^ 32

-- Both files of an unlocked log are open, and there is room for the entries.
pub record HasRoom (l : RaftLogArray) (wal index : Bytes) (es : List LogEntry) : Type 0 where
  pub wal_is : l.wal_file ≡ some wal
  pub at_end : ftell l wal ≡ length wal
  pub index_is : l.index_file ≡ some index
  pub unlocked : l.locked ≡ false
  pub short : All IsShort (numbered (to_u32 (l.base_index + size l)) es)
  pub wal_room :
      length wal + length (put_all frame (numbered (to_u32 (l.base_index + size l)) es)) < 2 ^ 64
  pub below_threshold : size l + length es ≤ l.config.log_size_threshold

-- the log after one append
abbrev pub one_more : RaftLogArray → Bytes → Bytes → LogEntry → RaftLogArray
one_more l wal index e = record l {
  wal_file = some (wal ++ frame e);
  at_start = false;
  entries = l.entries ++ e ∷ [];
  index_offsets = l.index_offsets ++ length wal ∷ [];
  index_file = some (index ++ put_u64 (length wal));
  locked = false;
}

pub append_one :
    (r : Rebuild) (l : RaftLogArray) (wal index : Bytes) (e : LogEntry)
    → l.wal_file ≡ some wal
    → ftell l wal ≡ length wal
    → l.index_file ≡ some index
    → l.locked ≡ false
    → size l + 1 ≤ l.config.log_size_threshold
    → append r complete complete e l ≡ done (true, indexed l e) (one_more l wal index (indexed l e))
unfolding append write_entry_to_wal ftell push_entry write_index_entry truncate_if_large
append_one r l wal index e w t i free below =
    ground (arith, w, t, i, free, length-append l.entries (indexed l e ∷ []))

pub length-numbered : (start : ℕ) (es : List LogEntry) → length (numbered start es) ≡ length es
unfolding numbered
length-numbered start [] = refl
length-numbered start (e ∷ es) = ap suc (length-numbered (to_u32 (start + 1)) es)

truncate_none :
    (r : Rebuild) (l : RaftLogArray)
    → size l ≤ l.config.log_size_threshold
    → truncate_if_large r l ≡ done tt l
unfolding truncate_if_large
truncate_none r l below = ground arith

pub append_batch-extended :
    (r : Rebuild) (l : RaftLogArray) (wal index : Bytes) (e : LogEntry) (es : List LogEntry)
    → l.wal_file ≡ some wal
    → ftell l wal ≡ length wal
    → l.index_file ≡ some index
    → size l + length (e ∷ es) ≤ l.config.log_size_threshold
    → append_batch r complete complete (e ∷ es) l
      ≡ done true (record (extended l wal index (e ∷ es)) { locked = l.locked })
unfolding append_batch write_batch_to_wal write_index_batch ftell
append_batch-extended r l wal index e es w t i below =
    let whole =
      truncate_none r (from (ftell l wal))
        (omega (arith, below, length-append l.entries (e ∷ es))) in
    let runs : append_batch r complete complete (e ∷ es) l ≡ done true (from (ftell l wal)) =
      rw (w, i)
        (call_then (truncate_if_large r) (λ _. done true) {a = tt} {l = from (ftell l wal)}
          {l' = from (ftell l wal)} whole) in
    runs ∙ ap (λ o. done true (from o)) t
  where
    from : ℕ → RaftLogArray
    from o = record l {
      wal_file = some (wal ++ put_all frame (e ∷ es));
      at_start = false;
      entries = l.entries ++ e ∷ es;
      index_offsets = l.index_offsets ++ batch_offsets o (e ∷ es);
      index_file = some (index ++ put_all put_u64 (batch_offsets o (e ∷ es)));
    }

pub batch-extended :
    (r : Rebuild) (l : RaftLogArray) (wal index : Bytes) (e : LogEntry) (es : List LogEntry)
    → HasRoom l wal index (e ∷ es)
    → batch_append r complete complete (e ∷ es) l
      ≡ done
          (true, numbered (to_u32 (l.base_index + size l)) (e ∷ es))
          (extended l wal index (numbered (to_u32 (l.base_index + size l)) (e ∷ es)))
unfolding batch_append numbered ftell
batch-extended r l wal index e es h =
    let es' = numbered (to_u32 (l.base_index + size l)) (e ∷ es) in
    let runs =
      append_batch-extended r (record l { locked = true }) wal index
        (record e { index = to_u32 (l.base_index + size l) })
        (numbered (to_u32 (to_u32 (l.base_index + size l) + 1)) es) h.wal_is h.at_end h.index_is
        (omega
          (arith, h.below_threshold, length-numbered (to_u32 (l.base_index + size l)) (e ∷ es))) in
    lock_free
      (λ k.
        (append_batch r complete complete (numbered (to_u32 (k.base_index + size k)) (e ∷ es))
            >>= λ ok. done (ok, numbered (to_u32 (k.base_index + size k)) (e ∷ es)))
          k)
      {l = l} {l' = record (extended l wal index es') { locked = true }} h.unlocked
      (call_then (append_batch r complete complete es') (λ ok. done (ok, es'))
        {l = record l { locked = true }} runs)

-- the room that is left after one append
pub room_after :
    (l : RaftLogArray) (wal index : Bytes) (e : LogEntry) (es : List LogEntry)
    → HasRoom l wal index (e ∷ es)
    → HasRoom
        (one_more l wal index (indexed l e))
        (wal ++ frame (indexed l e))
        (index ++ put_u64 (length wal))
        es
unfolding numbered put_all ftell
room_after l wal index e es h =
    let n : size (one_more l wal index (indexed l e)) ≡ size l + 1 =
      length-append l.entries (indexed l e ∷ []) in
    let next : to_u32 (to_u32 (l.base_index + size l) + 1)
        ≡ to_u32 (l.base_index + size (one_more l wal index (indexed l e))) =
      omega (arith, n) in
    record {
      wal_is = refl;
      at_end = refl;
      index_is = refl;
      unlocked = refl;
      short = subst (λ (s : ℕ). All IsShort (numbered s es)) next h.short.1;
      wal_room =
          subst
            (λ (s : ℕ).
              length (wal ++ frame (indexed l e)) + length (put_all frame (numbered s es)) < 2 ^ 64)
            next
            (omega (
              arith,
              h.wal_room,
              length-append wal (frame (indexed l e)),
              length-append (frame (indexed l e))
                  (put_all frame (numbered (to_u32 (to_u32 (l.base_index + size l) + 1)) es)),
            ));
      below_threshold = omega (arith, h.below_threshold, n);
    }

pub length-frame : (e : LogEntry) → length (frame e) ≡ 8 + length (serialize_entry e)
unfolding frame put_u32
length-frame e = omega arith

pub extended-one_more :
    (l : RaftLogArray) (wal index : Bytes) (e : LogEntry) (es : List LogEntry)
    → IsShort e
    → length wal + length (frame e) < 2 ^ 64
    → extended (one_more l wal index e) (wal ++ frame e) (index ++ put_u64 (length wal)) es
      ≡ extended l wal index (e ∷ es)
unfolding put_all batch_offsets
extended-one_more l wal index e es short room =
    let next : length (wal ++ frame e)
        ≡ (length wal + 8 + to_u32 (length (serialize_entry e))) % 2 ^ 64 =
      omega (arith, short, room, length-append wal (frame e), length-frame e) in
    rw (
      next,
      still_moved es,
      append_assoc wal (frame e) (put_all frame es),
      append_assoc l.entries (e ∷ []) es,
      append_assoc l.index_offsets (length wal ∷ [])
          (batch_offsets ((length wal + 8 + to_u32 (length (serialize_entry e))) % 2 ^ 64) es),
      append_assoc index (put_u64 (length wal)) (
          put_all put_u64
            (batch_offsets ((length wal + 8 + to_u32 (length (serialize_entry e))) % 2 ^ 64) es)),
    )
