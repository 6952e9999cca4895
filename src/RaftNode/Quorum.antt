-- ===== src/RaftNode/Quorum.antt =====
-- The majority index of `try_commit_entries` in src/raft/raft.cpp: what sorting and taking the
-- middle picks.
use eya_kv.Prelude.{
  ℕ, zero, suc, ◌+◌, ◌*◌, ◌/◌, ◌<◌, ◌≤◌, ◌≡◌, ◌≢◌, refl, ◌∙◌, ◌==◌, ltb, leb, if◌then◌else◌, List,
  [], ◌∷◌, length, get_or, arith, Bool-cases, inl, inr,
}
use eya_kv.Codec.RoundTrip.{All}
use eya_kv.RaftLog.Ops.{last_index, term_at}
use eya_kv.RaftNode.State.{RaftNode}
use eya_kv.RaftNode.Commit.{
  insert_desc, sort_desc, majority_index, match_indexes, match_values, try_commit_entries,
}

-- How many of the indexes are at least `m`.
pub count_ge : ℕ → List ℕ → ℕ
count_ge m [] = 0
count_ge m (x ∷ xs) = if leb m x then count_ge m xs + 1 else count_ge m xs

abbrev Descends : List ℕ → Type 0
Descends [] = Unit {0}
Descends (x ∷ xs) = All (λ y. y ≤ x) xs × Descends xs

count_ge-insert : (m x : ℕ) (xs : List ℕ) → count_ge m (insert_desc x xs) ≡ count_ge m (x ∷ xs)
unfolding count_ge insert_desc
count_ge-insert m x [] = refl
count_ge-insert m x (y ∷ ys) = ground (arith, count_ge-insert m x ys)

count_ge-sort : (m : ℕ) (xs : List ℕ) → count_ge m (sort_desc xs) ≡ count_ge m xs
unfolding sort_desc count_ge
count_ge-sort m [] = refl
count_ge-sort m (x ∷ xs) = count_ge-insert m x (sort_desc xs) ∙ ground (arith, count_ge-sort m xs)

length-insert : (x : ℕ) (xs : List ℕ) → length (insert_desc x xs) ≡ length xs + 1
unfolding insert_desc
length-insert x [] = omega arith
length-insert x (y ∷ ys) = ground (arith, length-insert x ys)

length-sort : (xs : List ℕ) → length (sort_desc xs) ≡ length xs
unfolding sort_desc
length-sort [] = refl
length-sort (x ∷ xs) = omega (arith, length-insert x (sort_desc xs), length-sort xs)

All-le : (x y : ℕ) (xs : List ℕ) → x ≤ y → All (λ z. z ≤ x) xs → All (λ z. z ≤ y) xs
All-le x y [] h a = tt
All-le x y (z ∷ xs) h a = (omega arith, All-le x y xs h a.1)

All-insert :
    (b x : ℕ) (xs : List ℕ) → x ≤ b → All (λ z. z ≤ b) xs → All (λ z. z ≤ b) (insert_desc x xs)
unfolding insert_desc
All-insert b x [] h a = (h, tt)
All-insert b x (y ∷ ys) h a = ground (arith, All-insert b x ys h a.1)

insert-Descends : (x : ℕ) (xs : List ℕ) → Descends xs → Descends (insert_desc x xs)
unfolding insert_desc
insert-Descends x [] d = (tt, tt)
insert-Descends x (y ∷ ys) d = elim (Bool-cases (ltb x y)) [
  | inl below ↦ rw below (All-insert y x ys (ground arith) d.0, insert-Descends x ys d.1)
  | inr above ↦ rw above ((ground arith, All-le y x ys (ground arith) d.0), d)
]

sort-Descends : (xs : List ℕ) → Descends (sort_desc xs)
unfolding sort_desc
sort-Descends [] = tt
sort-Descends (x ∷ xs) = insert-Descends x (sort_desc xs) (sort-Descends xs)

count_ge-below : (m b : ℕ) (xs : List ℕ) → b < m → All (λ z. z ≤ b) xs → count_ge m xs ≡ 0
unfolding count_ge
count_ge-below m b [] h a = refl
count_ge-below m b (x ∷ xs) h a = ground (arith, count_ge-below m b xs h a.1)

get_or-le : (b : ℕ) (xs : List ℕ) (i : ℕ) → All (λ z. z ≤ b) xs → get_or xs i 0 ≤ b
get_or-le b [] i a = omega arith
get_or-le b (x ∷ xs) zero a = a.0
get_or-le b (x ∷ xs) (suc i) a = get_or-le b xs i a.1

-- In a falling list the first `i + 1` elements are at least that at `i`.
count_ge-at : (xs : List ℕ) (i : ℕ) → Descends xs → i < length xs → i < count_ge (get_or xs i 0) xs
unfolding count_ge
count_ge-at [] i d h = absurd (omega arith)
count_ge-at (x ∷ xs) zero d h = ground arith
count_ge-at (x ∷ xs) (suc i) d h =
    ground (arith, count_ge-at xs i d.1 (omega arith), get_or-le x xs i d.0)

-- And no more than `i` are greater.
count_ge-above :
    (xs : List ℕ) (i m : ℕ) → Descends xs → get_or xs i 0 < m → i < length xs → count_ge m xs ≤ i
unfolding count_ge
count_ge-above [] i m d h k = absurd (omega arith)
count_ge-above (x ∷ xs) zero m d h k = ground (arith, count_ge-below m x xs h d.0)
count_ge-above (x ∷ xs) (suc i) m d h k = ground (arith, count_ge-above xs i m d.1 h (omega arith))

-- The majority index is the greatest index that more than half of the nodes hold: more than half
-- of the indexes are at least it, and no greater one has that.
pub majority_index-greatest :
    (x : ℕ) (xs : List ℕ)
    → (length (x ∷ xs) < 2 * count_ge (majority_index (x ∷ xs)) (x ∷ xs))
      × ((m : ℕ) → majority_index (x ∷ xs) < m → 2 * count_ge m (x ∷ xs) ≤ length (x ∷ xs))
unfolding majority_index
majority_index-greatest x xs =
    let all : List ℕ = x ∷ xs in
    let mid : ℕ = length all / 2 in
    let falls = sort-Descends all in
    (
      omega (
        arith,
        count_ge-at (sort_desc all) mid falls (omega (arith, length-sort all)),
        count_ge-sort (majority_index all) all,
        length-sort all,
      ),
      λ m h. omega (
        arith,
        count_ge-above (sort_desc all) mid m falls h (omega (arith, length-sort all)),
        count_ge-sort m all,
      ),
    )

-- An index of the log beyond the commit index that more than half of the leader and the followers of
-- match_index_ hold. A follower whose connection was closed is not in match_index_.
abbrev pub IsHeld : RaftNode → ℕ → Type 0
IsHeld n k =
    (n.persistent.commit_index < k)
    × (k ≤ last_index n.log_array)
    × (length (match_indexes n) < 2 * count_ge k (match_indexes n))

-- What a leader's attempt to commit does to its commit index: it raises it to the greatest index
-- that more than half of the leader and the followers of match_index_ hold, whose entry is of the
-- leader's term, and saves it; or it does nothing, where no index can be committed or the entry there is
-- of another term.
pub data Commits (n m : RaftNode) : Type 0 where
  unchanged :
      m ≡ n
      → ((k : ℕ)
          → IsHeld n k
          → term_at (majority_index (match_indexes n)) n.log_array ≢ n.persistent.current_term)
      → Commits n m
  raised :
      n.persistent.commit_index < m.persistent.commit_index
      → length (match_indexes n) < 2 * count_ge m.persistent.commit_index (match_indexes n)
      → ((k : ℕ)
          → m.persistent.commit_index < k
          → 2 * count_ge k (match_indexes n) ≤ length (match_indexes n))
      → term_at m.persistent.commit_index n.log_array ≡ n.persistent.current_term
      → m.saved ≡ m.persistent
      → Commits n m

-- An attempt to commit raises the commit index to the greatest index that more than half of the leader
-- and the followers of match_index_ hold, however many nodes the cluster has, and saves it, if that is
-- beyond the old one and its entry is of the current term; it leaves the node as it was only where no
-- index of the log beyond the old one is held by more than half of these, or the entry at the middle
-- index is of another term.
pub try_commit-Commits : (n : RaftNode) → Commits n (try_commit_entries n).0
unfolding try_commit_entries match_indexes
try_commit-Commits n =
    let greatest = majority_index-greatest (last_index n.log_array) (match_values n.match_index) in
    elim (Bool-cases (leb (last_index n.log_array) n.persistent.commit_index)) [
      | inl none_new ↦ unchanged (ground arith) (λ k held. absurd (ground (arith, held, none_new)))
      | inr some_new ↦
          elim (Bool-cases (ltb n.persistent.commit_index (majority_index (match_indexes n)))) [
            | inl above ↦
                elim (Bool-cases (
                  term_at (majority_index (match_indexes n)) n.log_array
                  == n.persistent.current_term)) [
                    | inl current ↦
                        rw (some_new, above, current)
                          (raised (ground arith) greatest.0 greatest.1 (ground arith) refl)
                    | inr older ↦ unchanged (ground arith) (λ k held. ground (arith, older))
                  ]
            | inr not_above ↦ unchanged (ground arith) (λ k held.
                let few = greatest.1 k (ground (arith, not_above, held)) in
                absurd (omega (arith, few, held.2)))
          ]
    ]
