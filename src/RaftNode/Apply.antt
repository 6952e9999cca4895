-- ===== src/RaftNode/Apply.antt =====
-- The application of committed entries in src/raft/raft.cpp: each entry once, in the log's order.
use mathlib.Core.List.{foldl}
use mathlib.Core.Path.{ap₂}
use native.Mathlib.Nat.{le_refl}
use eya_kv.Prelude.{
  ℕ, zero, suc, ◌+◌, ◌-◌, ◌<◌, ◌≤◌, ◌≡◌, refl, ◌∙◌, Bool, true, false, Bool-cases, if◌then◌else◌,
  inl, inr, ap, Option, none, some, List, [], ◌∷◌, map, arith, dec_lt,
}
use eya_kv.Codec.Words.{Bytes}
use eya_kv.Protocol.Messages.{LogEntry}
use eya_kv.RaftLog.State.{RaftLogArray}
use eya_kv.RaftLog.Ops.{entry_at}
use eya_kv.RaftNode.State.{Role, is_leader, RaftNode, save_persistent_state}
use eya_kv.RaftNode.Commit.{Applied, is_empty, apply_one, apply_loop, apply_committed_entries}

abbrev with_option {ℓ} : {A : Type ℓ} → Option A → List A → List A
with_option none xs = xs
with_option (some x) xs = x ∷ xs

-- The entries of the log at the `count` indexes after `last`, in order.
pub entries_after : ℕ → ℕ → RaftLogArray → List LogEntry
entries_after zero last l = []
entries_after (suc count) last l =
    with_option (entry_at (last + 1) l) (entries_after count (last + 1) l)

-- The request ids of the entries that have one.
pub request_ids : List LogEntry → List Bytes
request_ids [] = []
request_ids (e ∷ es) =
    let rest = request_ids es in if is_empty e.request_id then rest else e.request_id ∷ rest

-- The indexes from `last + 1` on.
pub indexes_after : ℕ → ℕ → List ℕ
indexes_after zero last = []
indexes_after (suc count) last = (last + 1) ∷ indexes_after count (last + 1)

-- How many indexes are committed and not applied.
abbrev pub gap : RaftNode → ℕ
gap n = n.persistent.commit_index - n.persistent.last_applied

module _ {ℓ} {S R : Type ℓ} (execute : Bytes → S → S × R) where
  -- The storage after the commands of some entries.
  abbrev pub replay : S → List LogEntry → S
  replay = foldl (λ s (e : LogEntry). (execute e.cmd s).0)

  one-replay :
      (role : Role) (o : Option LogEntry) (index : ℕ) (s : S) (es : List LogEntry)
      → replay (apply_one execute role o index s).0 es ≡ replay s (with_option o es)
  unfolding apply_one
  one-replay role none index s es = refl
  one-replay role (some e) index s es = refl

  one-index :
      (role : Role) (o : Option LogEntry) (index : ℕ) (s : S)
      → (apply_one execute role o index s).1.index ≡ index
  unfolding apply_one
  one-index role none index s = refl
  one-index role (some e) index s = refl

  loop-replay :
      (count last : ℕ) (n : RaftNode) (s : S)
      → (apply_loop execute count last n s).0 ≡ replay s (entries_after count last n.log_array)
  unfolding apply_loop entries_after
  loop-replay zero last n s = refl
  loop-replay (suc count) last n s =
      loop-replay count (last + 1) n _
      ∙ one-replay n.role (entry_at (last + 1) n.log_array) (last + 1) s _

  loop-indexes :
      (count last : ℕ) (n : RaftNode) (s : S)
      → map (λ (a : Applied R). a.index) (apply_loop execute count last n s).1
        ≡ indexes_after count last
  unfolding apply_loop indexes_after
  loop-indexes zero last n s = refl
  loop-indexes (suc count) last n s =
      ap₂ ◌∷◌ (one-index n.role (entry_at (last + 1) n.log_array) (last + 1) s)
        (loop-indexes count (last + 1) n _)

  one-notified :
      (role : Role) (o : Option LogEntry) (index : ℕ) (s : S)
      → (apply_one execute role o index s).1.notified ≡ is_leader role
  unfolding apply_one
  one-notified role none index s = refl
  one-notified role (some e) index s = refl

  -- The indexes whose waiting client is notified, in order.
  pub notified_indexes : List (Applied R) → List ℕ
  notified_indexes [] = []
  notified_indexes (a ∷ later) =
      let rest = notified_indexes later in if a.notified then a.index ∷ rest else rest

  notified-cons :
      (a : Applied R) (later : List (Applied R)) (b : Bool) (i : ℕ) (is : List ℕ)
      → a.notified ≡ b
      → a.index ≡ i
      → notified_indexes later ≡ (if b then is else [])
      → notified_indexes (a ∷ later) ≡ (if b then i ∷ is else [])
  unfolding notified_indexes
  notified-cons a later true i is e x h = rw (e) (ap₂ ◌∷◌ x h)
  notified-cons a later false i is e x h = rw (e) h

  loop-notifies :
      (count last : ℕ) (n : RaftNode) (s : S) (b : Bool)
      → is_leader n.role ≡ b
      → notified_indexes (apply_loop execute count last n s).1
        ≡ (if b then indexes_after count last else [])
  unfolding apply_loop indexes_after notified_indexes
  loop-notifies zero last n s true e = refl
  loop-notifies zero last n s false e = refl
  loop-notifies (suc count) last n s b e =
      let o = entry_at (last + 1) n.log_array in
      let (s1, applied) = apply_one execute n.role o (last + 1) s in
      notified-cons applied (apply_loop execute count (last + 1) n s1).1 b (last + 1)
        (indexes_after count (last + 1)) (one-notified n.role o (last + 1) s ∙ e)
        (one-index n.role o (last + 1) s) (loop-notifies count (last + 1) n s1 b e)

  -- The requests whose response goes to the result cache, in order.
  pub cached_ids : List (Applied R) → List Bytes
  cached_ids [] = []
  cached_ids (a ∷ later) =
      let rest = cached_ids later in elim a.cached [ none ↦ rest | some (id, r) ↦ id ∷ rest ]

  one-cached :
      (role : Role) (o : Option LogEntry) (index : ℕ) (s : S) (later : List (Applied R))
      (es : List LogEntry)
      → cached_ids later ≡ request_ids es
      → cached_ids ((apply_one execute role o index s).1 ∷ later) ≡ request_ids (with_option o es)
  unfolding apply_one cached_ids request_ids
  one-cached role none index s later es h = h
  one-cached role (some e) index s later es h = elim (Bool-cases (is_empty e.request_id)) [
    | inl b ↦ rw (b) h
    | inr b ↦ rw (b) (ap (◌∷◌ e.request_id) h)
  ]

  loop-caches :
      (count last : ℕ) (n : RaftNode) (s : S)
      → cached_ids (apply_loop execute count last n s).1
        ≡ request_ids (entries_after count last n.log_array)
  unfolding apply_loop entries_after cached_ids request_ids
  loop-caches zero last n s = refl
  loop-caches (suc count) last n s =
      let o = entry_at (last + 1) n.log_array in
      let s1 = (apply_one execute n.role o (last + 1) s).0 in
      one-cached n.role o (last + 1) s (apply_loop execute count (last + 1) n s1).1
        (entries_after count (last + 1) n.log_array) (loop-caches count (last + 1) n s1)

  -- What an application of committed entries does to the storage and to the node.
  pub record Applies (n m : RaftNode) (s t : S) (results : List (Applied R)) : Type ℓ where
    pub storage : t ≡ replay s (entries_after (gap n) n.persistent.last_applied n.log_array)
    pub answers :
        map (λ (a : Applied R). a.index) results ≡ indexes_after (gap n) n.persistent.last_applied
    pub notifies :
        notified_indexes results
        ≡ (if is_leader n.role then indexes_after (gap n) n.persistent.last_applied else [])
    pub caches :
        cached_ids results
        ≡ request_ids (entries_after (gap n) n.persistent.last_applied n.log_array)
    pub caught_up : m.persistent.commit_index ≤ m.persistent.last_applied
    pub same_commit : m.persistent.commit_index ≡ n.persistent.commit_index
    pub same_log : m.log_array ≡ n.log_array

  apply_behind :
      (n : RaftNode) (s : S)
      → n.persistent.last_applied < n.persistent.commit_index
      → apply_committed_entries execute n s ≡ (
        save_persistent_state (record n {
          persistent = record n.persistent { last_applied = n.persistent.commit_index };
        }),
        (apply_loop execute (gap n) n.persistent.last_applied n s).0,
        (apply_loop execute (gap n) n.persistent.last_applied n s).1,
      )
  unfolding apply_committed_entries
  apply_behind n s h = ground arith

  apply_up_to_date :
      (n : RaftNode) (s : S)
      → n.persistent.commit_index ≤ n.persistent.last_applied
      → apply_committed_entries execute n s ≡ (n, s, [])
  unfolding apply_committed_entries
  apply_up_to_date n s h = ground arith

  none_notified :
      (k last : ℕ) (b : Bool)
      → k ≡ 0
      → notified_indexes [] ≡ (if b then indexes_after k last else [])
  unfolding notified_indexes indexes_after
  none_notified k last true e = rw (e)
  none_notified k last false e = refl

  pub apply-Applies :
      (n : RaftNode) (s : S)
      → Applies n
          (apply_committed_entries execute n s).0
          s
          (apply_committed_entries execute n s).1
          (apply_committed_entries execute n s).2
  unfolding entries_after indexes_after request_ids cached_ids
  apply-Applies n s = elim (dec_lt n.persistent.last_applied n.persistent.commit_index) [
    | yes h ↦ rw (apply_behind n s h) (record {
      storage = loop-replay (gap n) n.persistent.last_applied n s;
      answers = loop-indexes (gap n) n.persistent.last_applied n s;
      notifies = loop-notifies (gap n) n.persistent.last_applied n s (is_leader n.role) refl;
      caches = loop-caches (gap n) n.persistent.last_applied n s;
      caught_up = unfold save_persistent_state in le_refl _;
      same_commit = unfold save_persistent_state in refl;
      same_log = unfold save_persistent_state in refl;
    })
    | no h ↦ rw (apply_up_to_date n s (omega arith)) (
        let none_left : gap n ≡ 0 = omega arith in
        record {
          storage = rw (none_left, entries_after);
          answers = rw (none_left, indexes_after);
          notifies = none_notified (gap n) n.persistent.last_applied (is_leader n.role) none_left;
          caches = rw (none_left, entries_after, request_ids);
          caught_up = omega arith;
          same_commit = refl;
          same_log = refl;
        })
  ]

  -- A second application right after the first runs nothing and goes through no index.
  pub apply_once :
      (n : RaftNode) (s : S)
      → let (m, t, results) = apply_committed_entries execute n s in
        apply_committed_entries execute m t ≡ (m, t, [])
  apply_once n s = apply_up_to_date _ _ (apply-Applies n s).caught_up
