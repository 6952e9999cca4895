-- ===== src/RaftLog/Recovery/Stored.antt =====
-- The files of src/raft/raft_log_array.cpp that lead to entries, and what `recover` makes of them.
use eya_kv.Prelude.{
  ℕ, ◌+◌, ◌^◌, ◌<◌, ◌≡◌, refl, sym, ap, ◌∙◌, true, false, some, List, [], ◌∷◌, ◌++◌, append_assoc,
  append-nil, length, arith,
}
use eya_kv.Codec.Words.{Bytes}
use eya_kv.Codec.Containers.{put_all}
use eya_kv.Protocol.Messages.{LogEntry}
use eya_kv.RaftLog.State.{RaftLogArray, done, put_u64}
use eya_kv.RaftLog.Frames.{entry, read_at, read_entry_from_wal, read_offsets}
use eya_kv.RaftLog.Ops.{load_entries, recover, reopen}
use eya_kv.RaftLog.Recovery.Reads.{read_at-append, read_offsets-put_u64}

-- Each offset is that of a record that reads as the entry at its place.
abbrev pub Stored : Bytes → List ℕ → List LogEntry → Type 0
Stored wal [] [] = Unit {0}
Stored wal (o ∷ os) (e ∷ es) = (read_at o wal ≡ entry e) × (o < 2 ^ 64) × Stored wal os es
Stored wal [] (e ∷ es) = ⊥
Stored wal (o ∷ os) [] = ⊥

pub Stored-append :
    (wal more : Bytes) (os : List ℕ) (es : List LogEntry)
    → Stored wal os es
    → Stored (wal ++ more) os es
Stored-append wal more [] [] h = tt
Stored-append wal more (o ∷ os) (e ∷ es) h =
    (read_at-append o wal more e h.0, h.1, Stored-append wal more os es h.2)
Stored-append wal more [] (e ∷ es) h = h
Stored-append wal more (o ∷ os) [] h = h

pub Stored-push :
    (wal : Bytes) (os : List ℕ) (es : List LogEntry) (o : ℕ) (e : LogEntry)
    → Stored wal os es
    → read_at o wal ≡ entry e
    → o < 2 ^ 64
    → Stored wal (os ++ o ∷ []) (es ++ e ∷ [])
Stored-push wal [] [] o e h r b = (r, b, tt)
Stored-push wal (p ∷ os) (x ∷ es) o e h r b = (h.0, h.1, Stored-push wal os es o e h.2 r b)
Stored-push wal [] (x ∷ es) o e h r b = absurd h
Stored-push wal (p ∷ os) [] o e h r b = absurd h

put_all-append {ℓ} :
    {A : Type ℓ} (write : A → Bytes) (xs ys : List A)
    → put_all write (xs ++ ys) ≡ put_all write xs ++ put_all write ys
unfolding put_all
put_all-append write [] ys = refl
put_all-append write (x ∷ xs) ys =
    ap (◌++◌ (write x)) (put_all-append write xs ys)
    ∙ sym (append_assoc (write x) (put_all write xs) (put_all write ys))

put_all-one : (o : ℕ) → put_all put_u64 (o ∷ []) ≡ put_u64 o
unfolding put_all
put_all-one o = append-nil (put_u64 o)

pub index-push :
    (os : List ℕ) (o : ℕ) → put_all put_u64 os ++ put_u64 o ≡ put_all put_u64 (os ++ o ∷ [])
index-push os o =
    ap (◌++◌ (put_all put_u64 os)) (sym (put_all-one o)) ∙ sym (put_all-append put_u64 os (o ∷ []))

-- Each entry has the logical index of its place.
abbrev pub IndexedFrom : ℕ → List LogEntry → Type 0
IndexedFrom b [] = Unit {0}
IndexedFrom b (e ∷ es) = (e.index ≡ b) × IndexedFrom (b + 1) es

pub IndexedFrom-push :
    (b : ℕ) (es : List LogEntry) (e : LogEntry)
    → IndexedFrom b es
    → e.index ≡ b + length es
    → IndexedFrom b (es ++ e ∷ [])
IndexedFrom-push b [] e h k = (omega arith, tt)
IndexedFrom-push b (x ∷ es) e h k = (h.0, IndexedFrom-push (b + 1) es e h.1 (omega arith))

read_offsets-Stored :
    (wal : Bytes) (os : List ℕ) (es : List LogEntry)
    → Stored wal os es
    → read_offsets (put_all put_u64 os) ≡ os
unfolding put_all read_offsets
read_offsets-Stored wal [] [] h = refl
read_offsets-Stored wal (o ∷ os) (e ∷ es) h =
    read_offsets-put_u64 o (put_all put_u64 os) h.1 ∙ ap (◌∷◌ o) (read_offsets-Stored wal os es h.2)
read_offsets-Stored wal [] (e ∷ es) h = refl
read_offsets-Stored wal (o ∷ os) [] h = absurd h

load_entries-Stored :
    (l : RaftLogArray) (wal : Bytes) (os : List ℕ) (es : List LogEntry)
    → l.wal_file ≡ some wal
    → Stored wal os es
    → load_entries os l ≡ some es
unfolding load_entries read_entry_from_wal
load_entries-Stored l wal [] [] f h = refl
load_entries-Stored l wal (o ∷ os) (e ∷ es) f h =
    ground (arith, load_entries-Stored l wal os es f h.2, f, h.0)
load_entries-Stored l wal [] (e ∷ es) f h = absurd h
load_entries-Stored l wal (o ∷ os) [] f h = absurd h

-- The base index that a restart finds: that of the first entry, and 1 where there is none.
abbrev pub restored_base : ℕ → List LogEntry → ℕ
restored_base base [] = 1
restored_base base (e ∷ es) = base

-- The first entry has that index.
abbrev pub StartsAt : ℕ → List LogEntry → Type 0
StartsAt b [] = Unit {0}
StartsAt b (e ∷ es) = e.index ≡ b

pub IndexedFrom-StartsAt : (b : ℕ) (es : List LogEntry) → IndexedFrom b es → StartsAt b es
IndexedFrom-StartsAt b [] h = tt
IndexedFrom-StartsAt b (e ∷ es) h = h.0

recovered :
    (l : RaftLogArray) (es : List LogEntry) (index : Bytes)
    → l.index_file ≡ some index
    → load_entries (read_offsets index) (record (reopen l) { locked = true }) ≡ some es
    → StartsAt l.base_index es
    → recover (reopen l)
      ≡ done true (record l {
        entries = es;
        index_offsets = read_offsets index;
        base_index = restored_base l.base_index es;
        at_start = true;
        locked = false;
      })
unfolding recover
recovered l [] index f h k = ground (arith, f, h)
recovered l (e ∷ es) index f h k = ground (arith, f, h, k)

-- A restart finds the entries that the offsets lead to.
pub recover-Stored :
    (l : RaftLogArray) (wal : Bytes) (es : List LogEntry)
    → l.wal_file ≡ some wal
    → l.index_file ≡ some (put_all put_u64 l.index_offsets)
    → Stored wal l.index_offsets es
    → StartsAt l.base_index es
    → l.locked ≡ false
    → recover (reopen l)
      ≡ done true
          (record l { entries = es; base_index = restored_base l.base_index es; at_start = true })
recover-Stored l wal es wal_is index_is stored k free =
    let offsets_back = read_offsets-Stored wal l.index_offsets es stored in
    recovered l es (put_all put_u64 l.index_offsets) index_is
      (ap (λ os. load_entries os (record (reopen l) { locked = true })) offsets_back
        ∙ load_entries-Stored _ wal l.index_offsets es wal_is stored)
      k
    ∙ ap
        (λ (os : List ℕ). done true (record l {
          entries = es;
          index_offsets = os;
          base_index = restored_base l.base_index es;
          at_start = true;
          locked = false;
        }))
        offsets_back
    ∙ ap
        (λ b. done true (record l {
          entries = es;
          base_index = restored_base l.base_index es;
          at_start = true;
          locked = b;
        }))
        (sym free)
