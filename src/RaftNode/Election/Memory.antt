-- ===== src/RaftNode/Election/Memory.antt =====
-- What a node of src/raft/raft.cpp remembers of the votes that it gave, and that the handlers
-- which give none keep it.
use eya_kv.Prelude.{
  ℕ, max, ◌||◌, ltb, ◌&&◌, Bool-cases, inl, inr, subst, sym, ◌==◌, ◌<◌, ◌≤◌, ◌≡◌, ◌⊎◌, Bool, true,
  false, Option, none, some, List, [], ◌∷◌, arith,
}
use eya_kv.Codec.RoundTrip.{All}
use eya_kv.Codec.Equality.{bytes_eq→≡}
use eya_kv.Codec.Containers.{bytes_eq}
use eya_kv.Protocol.Messages.{
  ClusterMetadata, Address, address_eq, is_null, AppendEntriesData, PersistentState,
}
use eya_kv.RaftNode.State.{is_leader, RaftNode, load_persistent_state}
use eya_kv.RaftNode.Vote.{
  Answer, unanswered, no_data, joined, refused, redirected, follow_leader, meet_master,
  enter_cluster, become_leader, redirect, is_follower, handle_answer, step_down, count_vote,
  handle_request_vote_response, become_follower, handle_new_master, restart_node,
}
use eya_kv.RaftNode.Append.{
  Disk, append_in_term, commit_and_reply, node_after, handle_append_entries,
}
use eya_kv.RaftNode.Commit.{try_commit_entries}

pub address_eq→≡ : (a b : Address) → address_eq a b ≡ true → a ≡ b
unfolding address_eq
address_eq→≡ a b h = ground (arith, bytes_eq→≡ a.host b.host)

-- A vote that the node gave, to itself or to another.
pub record Ballot : Type 0 where
  pub term : ℕ
  pub candidate : Address

-- Two votes of one term are for one candidate.
abbrev pub Agrees : Ballot → List Ballot → Type 0
Agrees b = All (λ c. c.term ≡ b.term → c.candidate ≡ b.candidate)

abbrev pub OneVotePerTerm : List Ballot → Type 0
OneVotePerTerm [] = Unit {0}
OneVotePerTerm (b ∷ bs) = Agrees b bs × OneVotePerTerm bs

-- The vote is of an earlier term than the saved one, or it is the saved vote.
abbrev pub Remembered : PersistentState → Ballot → Type 0
Remembered s b =
    (b.term < s.current_term) ⊎ ((b.term ≡ s.current_term) × (b.candidate ≡ s.voted_for))

-- What the meta file and the memory know of the votes given.
pub record Voted (n : RaftNode) (given : List Ballot) : Type 0 where
  pub saved_le : n.saved.current_term ≤ n.persistent.current_term
  pub same_vote : n.saved.voted_for ≡ n.persistent.voted_for
  pub remembered : All (Remembered n.saved) given
  pub named : All (λ b. is_null b.candidate ≡ false) given
  pub one_each : OneVotePerTerm given

-- A step that gives no vote: the saved term does not fall, and the vote changes with it only.
pub record Keeps (n m : RaftNode) : Type 0 where
  pub rises : n.saved.current_term ≤ m.saved.current_term
  pub saved_le : m.saved.current_term ≤ m.persistent.current_term
  pub same_vote : m.saved.voted_for ≡ m.persistent.voted_for
  pub with_term :
      (n.saved.current_term < m.saved.current_term) ⊎ (m.saved.voted_for ≡ n.saved.voted_for)

pub All-Remembered :
    (n m : RaftNode) (given : List Ballot)
    → Keeps n m
    → All (Remembered n.saved) given
    → All (Remembered m.saved) given
All-Remembered n m [] k h = tt
All-Remembered n m (b ∷ bs) k h = (ground arith, All-Remembered n m bs k h.1)

pub Keeps-Voted : {n m : RaftNode} {given : List Ballot} → Keeps n m → Voted n given → Voted m given
Keeps-Voted {n} {m} {given} k v = record {
  saved_le = k.saved_le;
  same_vote = k.same_vote;
  remembered = All-Remembered n m given k v.remembered;
  named = v.named;
  one_each = v.one_each;
}

module _ {n : RaftNode} {given : List Ballot} (v : Voted n given) where
  pub step_down-Keeps : (term : ℕ) → n.persistent.current_term < term → Keeps n (step_down term n)
  unfolding step_down
  step_down-Keeps term h = ground (arith, v.saved_le)

  pub count_vote-Keeps : Keeps n (count_vote n)
  unfolding count_vote
  count_vote-Keeps = ground (arith, v.saved_le, v.same_vote)

  pub response-Keeps :
      (term : ℕ) (granted : Option Bool) → Keeps n (handle_request_vote_response term granted n)
  unfolding handle_request_vote_response
  response-Keeps term granted = ground (arith, v.saved_le, v.same_vote)

  follow_leader-Keeps : (a : Address) (term commit : ℕ) → Keeps n (follow_leader a term commit n)
  unfolding follow_leader
  follow_leader-Keeps a term commit = ground (arith, v.saved_le, v.same_vote)

  enter_cluster-Keeps :
      (term : ℕ) (data_ : ClusterMetadata) (self : Address)
      → n.persistent.current_term ≤ term
      → Keeps n (enter_cluster term data_ self n)
  unfolding enter_cluster
  enter_cluster-Keeps term data_ self newer = ground (arith, v.saved_le, v.same_vote, newer)

  become_leader-Keeps : Keeps n (become_leader n)
  unfolding become_leader
  become_leader-Keeps = ground (arith, v.saved_le, v.same_vote)

  unchanged-Keeps : Keeps n n
  unchanged-Keeps = ground (arith, v.saved_le, v.same_vote)

  redirect-Keeps :
      (a : Address) (local_addr : Option Address) (m : RaftNode)
      → Keeps n m
      → Keeps n (redirect a local_addr n m)
  unfolding redirect
  redirect-Keeps a none m k = unchanged-Keeps
  redirect-Keeps a (some b) m k = elim (Bool-cases (is_null a)) [
    | inl e ↦ rw (e) unchanged-Keeps
    | inr e ↦ (elim (Bool-cases (bytes_eq a.host b.host && a.port == n.port)) [
      | inl f ↦ rw (e, f) become_leader-Keeps
      | inr f ↦ rw (e, f) k
    ])
  ]

  pub commit-Keeps : Keeps n (try_commit_entries n).0
  unfolding try_commit_entries
  commit-Keeps = ground (arith, v.saved_le, v.same_vote)

  pub restart-Keeps : Keeps n (restart_node n)
  unfolding restart_node load_persistent_state
  restart-Keeps = ground (arith, v.saved_le, v.same_vote)

-- The terms that the answers to a node's requests to join carry are not below `t`.
abbrev pub NotOlder : ℕ → Answer → Type 0
NotOlder t (joined term data_ self) = t ≤ term
NotOlder t (redirected a local_addr answer) = NotOlder t answer
NotOlder t _ = Unit {0}

Keeps-trans : {n m k : RaftNode} → Keeps n m → Keeps m k → Keeps n k
Keeps-trans {n} {m} {k} a b =
    ground (arith, a.rises, b.rises, a.with_term, b.with_term, b.saved_le, b.same_vote)

follow_leader-term :
    (a : Address) (term commit : ℕ) (n : RaftNode)
    → (follow_leader a term commit n).persistent.current_term ≡ max n.persistent.current_term term
unfolding follow_leader
follow_leader-term a term commit n = ground arith

-- An answer that is handled behind the change to a follower.
followed-Keeps :
    {n : RaftNode} {given : List Ballot} (v : Voted n given) (a : Address) (term commit : ℕ)
    (answer : Answer)
    → (Voted (follow_leader a term commit n) given
        → NotOlder (follow_leader a term commit n).persistent.current_term answer
        → Keeps
            (follow_leader a term commit n)
            (handle_answer answer (follow_leader a term commit n)))
    → NotOlder (max n.persistent.current_term term) answer
    → Keeps n (handle_answer answer (follow_leader a term commit n))
followed-Keeps {n} v a term commit answer handled ok =
    let k = follow_leader-Keeps v a term commit in
    Keeps-trans k (
      handled (Keeps-Voted k v)
        (subst (λ t. NotOlder t answer) (sym (follow_leader-term a term commit n)) ok))

pub answer-Keeps :
    (answer : Answer) {n : RaftNode} {given : List Ballot}
    → Voted n given
    → NotOlder n.persistent.current_term answer
    → Keeps n (handle_answer answer n)
unfolding handle_answer
answer-Keeps unanswered v ok = unchanged-Keeps v
answer-Keeps no_data v ok = unchanged-Keeps v
answer-Keeps (joined term data_ self) {n} v ok = elim (Bool-cases (is_follower n.role)) [
  | inl e ↦ rw (e) (enter_cluster-Keeps v term data_ self ok)
  | inr e ↦ rw (e) (unchanged-Keeps v)
]
answer-Keeps refused {n} v ok = elim (Bool-cases (is_follower n.role)) [
  | inl e ↦ rw (e) (become_leader-Keeps v)
  | inr e ↦ rw (e) (unchanged-Keeps v)
]
answer-Keeps (redirected a local_addr unanswered) {n} v ok =
    redirect-Keeps v a local_addr n (unchanged-Keeps v)
answer-Keeps (redirected a local_addr answer) {n} v ok =
    let same : n.persistent.current_term ≡ max n.persistent.current_term 0 = omega arith in
    redirect-Keeps v a local_addr _ (
      followed-Keeps v a 0 0 answer (λ w o. answer-Keeps answer w o)
        (subst (λ t. NotOlder t answer) same ok))

pub become_follower-Keeps :
    {n : RaftNode} {given : List Ballot} (v : Voted n given) (a : Address) (term commit : ℕ)
    (answer : Answer)
    → NotOlder (max n.persistent.current_term term) answer
    → Keeps n (become_follower a term commit answer n)
unfolding become_follower
become_follower-Keeps v a term commit unanswered ok = unchanged-Keeps v
become_follower-Keeps v a term commit answer ok =
    followed-Keeps v a term commit answer (λ w o. answer-Keeps answer w o) ok

meet_master-Keeps :
    {n : RaftNode} {given : List Ballot} (v : Voted n given) (term : ℕ) (a : Address)
    → Keeps n (meet_master term a n)
unfolding meet_master
meet_master-Keeps v term a = ground (arith, v.saved_le, v.same_vote)

meet_master-term :
    (n : RaftNode) (term : ℕ) (a : Address)
    → max n.persistent.current_term term ≡ max (meet_master term a n).persistent.current_term term
unfolding meet_master
meet_master-term n term a = ground arith

pub new_master-Keeps :
    {n : RaftNode} {given : List Ballot} (v : Voted n given) (term : ℕ) (a self : Option Address)
    (answer : Answer)
    → NotOlder (max n.persistent.current_term term) answer
    → Keeps n (handle_new_master term a self answer n)
unfolding handle_new_master
new_master-Keeps v term none self answer ok = unchanged-Keeps v
new_master-Keeps {n} v term (some a) none answer ok =
    elim (Bool-cases (
      ltb term n.persistent.current_term
      || (is_leader n.role && term == n.persistent.current_term))) [
        | inl e ↦ rw (e) (unchanged-Keeps v)
        | inr e ↦ rw (e) (unchanged-Keeps v)
      ]
new_master-Keeps {n} v term (some a) (some b) answer ok =
    elim (Bool-cases (
      ltb term n.persistent.current_term
      || (is_leader n.role && term == n.persistent.current_term))) [
        | inl e ↦ rw (e) (unchanged-Keeps v)
        | inr e ↦ (elim (Bool-cases (address_eq b a)) [
          | inl f ↦ rw (e, f) (unchanged-Keeps v)
          | inr f ↦
              (let k = meet_master-Keeps v term a in
                rw (e, f)
                  (Keeps-trans k (
                    become_follower-Keeps (Keeps-Voted k v) a term n.persistent.commit_index answer
                      (subst (λ t. NotOlder t answer) (meet_master-term n term a) ok))))
        ])
      ]

-- What a handler of AppendEntries leaves of term and vote: the term of the message, and the vote.
pub record Follows (term : ℕ) (n m : RaftNode) : Type 0 where
  pub term_is : m.persistent.current_term ≡ term
  pub vote_is : m.persistent.voted_for ≡ n.persistent.voted_for
  pub saves : (m.saved ≡ n.saved) ⊎ (m.saved ≡ m.persistent)

pub commit_and_reply-Follows :
    (d : AppendEntriesData) (need : Bool) (n : RaftNode)
    → Follows n.persistent.current_term n (node_after (commit_and_reply d need n))
unfolding commit_and_reply
commit_and_reply-Follows d need n = ground arith

pub append_in_term-Follows :
    (d : Disk) (data_ : Option AppendEntriesData) (bumped : Bool) (n : RaftNode)
    → Follows n.persistent.current_term n (node_after (append_in_term d data_ bumped n))
unfolding append_in_term
append_in_term-Follows d none bumped n = ground arith
append_in_term-Follows d (some data_) bumped n = ground arith

module _ {n : RaftNode} {given : List Ballot} (v : Voted n given) where
  pub append_entries-Keeps :
      (d : Disk) (term : ℕ) (data_ : Option AppendEntriesData)
      → Keeps n (node_after (handle_append_entries d term data_ n))
  unfolding handle_append_entries append_in_term
  append_entries-Keeps d term none = ground (arith, v.saved_le, v.same_vote)
  append_entries-Keeps d term (some data_) = ground (arith, v.saved_le, v.same_vote)
