-- ===== src/RaftNode/Replication.antt =====
-- `handle_append_entries` of src/raft/raft.cpp: what a follower's log is after a batch of entries
-- some of which it has already.
use eya_kv.Prelude.{
  ℕ, ◌+◌, ◌^◌, ◌<◌, ◌≤◌, ◌≡◌, refl, ap, sym, ◌∙◌, Bool, true, false, ==-refl, if◌then◌else◌, none,
  some, List, [], ◌∷◌, ◌++◌, append_assoc, append-nil, length, length-append, subst, arith,
}
use eya_kv.Codec.Containers.{put_all}
use eya_kv.Codec.RoundTrip.{All}
use eya_kv.Protocol.Messages.{LogEntry}
use eya_kv.RaftLog.State.{call_then, RaftLogArray, done, Rebuild, complete}
use eya_kv.RaftLog.Frames.{frame}
use eya_kv.RaftLog.Ops.{size, entry_at, get, append}
use eya_kv.RaftLog.Recovery.Reads.{FitsFrame}
use eya_kv.RaftLog.Recovery.Durable.{
  IsRestartable, Appends, append-Appends, indexed, restartable_after,
}
use eya_kv.RaftLog.Recovery.Stored.{IndexedFrom}
use eya_kv.RaftNode.Append.{Disk, append_one, append_loop}

-- The log has an entry of that index and term.
abbrev pub Holds : RaftLogArray → LogEntry → Type 0
Holds l e = (x : LogEntry) × (entry_at e.index l ≡ some x) × (x.term ≡ e.term)

-- All writes to the disk are complete.
pub record IsReliable (d : Disk) : Type 0 where
  pub wal_complete : (i : ℕ) → d.wal_writes i ≡ complete
  pub index_complete : (i : ℕ) → d.index_writes i ≡ complete

-- Entries that go on where the log ends, and that it has the room for.
pub record Continues (l : RaftLogArray) (s : IsRestartable l) (fresh : List LogEntry) : Type 0 where
  pub indexes : IndexedFrom (l.base_index + size l) fresh
  pub fits : All FitsFrame fresh
  pub wal_room : length s.durable.wal + length (put_all frame fresh) < 2 ^ 64
  pub below_threshold : size l + length fresh ≤ l.config.log_size_threshold
  pub index_room : l.base_index + size l + length fresh ≤ 2 ^ 32

get_free : (j : ℕ) (l : RaftLogArray) → l.locked ≡ false → get j l ≡ done (entry_at j l) l
unfolding get
get_free j l free = ground (arith, free)

past_end : (j : ℕ) (l : RaftLogArray) → j ≡ l.base_index + size l → entry_at j l ≡ none
unfolding entry_at
past_end j l h = ground (arith, h)

present_one :
    (d : Disk) (i : ℕ) (e : LogEntry) (l : RaftLogArray)
    → l.locked ≡ false
    → Holds l e
    → append_one d i e l ≡ done false l
unfolding append_one
present_one d i e l free (x, at, same) =
    call_then (get e.index) _ (get_free e.index l free ∙ ap (λ o. done o l) at)
    ∙ rw (same, ==-refl e.term)

-- what follows one round of the loop
append_loop-step :
    (d : Disk) (i k : ℕ) (e : LogEntry) (es : List LogEntry) (added : Bool) (l l' : RaftLogArray)
    → append_one d i e l ≡ done added l'
    → append_loop d i k (e ∷ es) l ≡ append_loop d (i + 1) (if added then k + 1 else k) es l'
unfolding append_loop
append_loop-step d i k e es added l l' h = call_then (append_one d i e) _ h

present_skipped :
    (d : Disk) (i k : ℕ) (present rest : List LogEntry) (l : RaftLogArray)
    → l.locked ≡ false
    → All (Holds l) present
    → append_loop d i k (present ++ rest) l ≡ append_loop d (i + length present) k rest l
present_skipped d i k [] rest l free h = ap (λ (j : ℕ). append_loop d j k rest l) (omega arith)
present_skipped d i k (e ∷ present) rest l free h =
    append_loop-step d i k e (present ++ rest) false l l (present_one d i e l free h.0)
    ∙ present_skipped d (i + 1) k present rest l free h.1
    ∙ ap (λ (j : ℕ). append_loop d j k rest l) (omega arith)

fresh_one :
    (d : Disk) (i : ℕ) (e : LogEntry) (l l' : RaftLogArray)
    → IsReliable d
    → l.locked ≡ false
    → e.index ≡ l.base_index + size l
    → append d.rebuild complete complete e l ≡ done (true, e) l'
    → append_one d i e l ≡ done true l'
unfolding append_one
fresh_one d i e l l' r free at h =
    call_then (get e.index) _ (get_free e.index l free ∙ ap (λ o. done o l) (past_end e.index l at))
    ∙ rw (r.wal_complete i, r.index_complete i)
        (call_then (append d.rebuild complete complete e) _ h)

-- What a log is after it took the entries.
pub record Extended (l l' : RaftLogArray) (fresh : List LogEntry) : Type 0 where
  pub entries_are : l'.entries ≡ l.entries ++ fresh
  pub base_is : l'.base_index ≡ l.base_index
  pub restartable : IsRestartable l'

append-Continues :
    {r : Rebuild} (l : RaftLogArray) (s : IsRestartable l) (e : LogEntry) (fresh : List LogEntry)
    (a : Appends r complete l e s.durable)
    → indexed l e ≡ e
    → (c : Continues l s (e ∷ fresh))
    → Continues a.after (restartable_after s (omega (arith, c.index_room)) a) fresh
unfolding put_all
append-Continues l s e fresh a same c =
    let n : size a.after ≡ size l + 1 =
      ap length a.entries_are ∙ length-append l.entries (indexed l e ∷ []) in
    let f : length (frame (indexed l e)) ≡ length (frame e) =
      ap (λ (x : LogEntry). length (frame x)) same in
    record {
      indexes = subst (λ (b : ℕ). IndexedFrom b fresh) (omega (arith, a.base_is, n)) c.indexes.1;
      fits = c.fits.1;
      wal_room =
          omega (arith, c.wal_room, a.wal_grows, f, length-append (frame e) (put_all frame fresh));
      below_threshold = rw (a.config_is) (omega (arith, c.below_threshold, n));
      index_room = omega (arith, c.index_room, a.base_is, n);
    }

fresh_appended :
    (d : Disk) (i k : ℕ) (fresh : List LogEntry) (l : RaftLogArray) (s : IsRestartable l)
    → IsReliable d
    → Continues l s fresh
    → (l' : RaftLogArray) × (append_loop d i k fresh l ≡ done (k + length fresh) l')
      × Extended l l' fresh
unfolding append_loop
fresh_appended d i k [] l s r c = (
  l,
  ap (λ (m : ℕ). done m l) (omega arith),
  record { entries_are = sym (append-nil l.entries); base_is = refl; restartable = s },
)
fresh_appended d i k (e ∷ fresh) l s r c =
    let same : indexed l e ≡ e =
      ap (λ (n : ℕ). record e { index = n }) (omega (arith, c.index_room, c.indexes.0)) in
    let a =
      append-Appends d.rebuild complete l e s.durable s.unlocked
        (subst FitsFrame (sym same) c.fits.0) (omega (arith, c.wal_room))
        (omega (arith, c.below_threshold)) in
    let s1 = restartable_after s (omega (arith, c.index_room)) a in
    let e1 = a.entries_are ∙ ap (λ (x : LogEntry). l.entries ++ x ∷ []) same in
    let (l', runs, x) =
      fresh_appended d (i + 1) (k + 1) fresh a.after s1 r (append-Continues l s e fresh a same c) in
    (
      l',
      append_loop-step d i k e fresh true l a.after (
            fresh_one d i e l a.after r s.unlocked c.indexes.0
              (a.returns ∙ ap (λ (x : LogEntry). done (true, x) a.after) same))
          ∙ runs
          ∙ ap (λ (m : ℕ). done m l') (omega arith),
      record {
        entries_are =
            x.entries_are
            ∙ ap (λ (es : List LogEntry). es ++ fresh) e1
            ∙ append_assoc l.entries (e ∷ []) fresh;
        base_is = x.base_is ∙ a.base_is;
        restartable = x.restartable;
      },
    )

-- A follower with a restartable log, whose disk is reliable, takes a batch of entries that it has
-- already, at the same index and term, followed by entries that go on where its log ends and that
-- fit: the loop of handle_append_entries returns, skips the first and appends the others in order,
-- counts them, keeps the base index, and leaves the log restartable.
pub append_loop-Extended :
    (d : Disk) (present fresh : List LogEntry) (l : RaftLogArray) (s : IsRestartable l)
    → IsReliable d
    → All (Holds l) present
    → Continues l s fresh
    → (l' : RaftLogArray) × (append_loop d 0 0 (present ++ fresh) l ≡ done (length fresh) l')
      × Extended l l' fresh
append_loop-Extended d present fresh l s r held c =
    let (l', runs, x) = fresh_appended d (0 + length present) 0 fresh l s r c in
    (
      l',
      present_skipped d 0 0 present fresh l s.unlocked held
          ∙ runs
          ∙ ap (λ (m : ℕ). done m l') (omega arith),
      x,
    )
