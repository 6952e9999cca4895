-- ===== src/RaftNode/Election/Votes.antt =====
-- The handlers of src/raft/raft.cpp that give a vote.
use eya_kv.Prelude.{
  ℕ, ◌+◌, ◌^◌, ◌<◌, ◌≡◌, refl, ap, subst, ◌∙◌, ◌⊎◌, inl, inr, Bool, true, false, ◌||◌, ltb,
  if◌then◌else◌, Option, none, some, List, [], ◌∷◌, ◌++◌, arith, Bool-cases, ltb→lt,
}
use eya_kv.Codec.RoundTrip.{All}
use eya_kv.Codec.Containers.{bytes_eq}
use eya_kv.Protocol.Messages.{Address, address_eq, is_null, RequestVoteData, PersistentState}
use eya_kv.RaftNode.State.{RaftNode}
use eya_kv.RaftNode.Vote.{
  VoteReply, self_address, become_candidate, step_down, answer_vote, handle_request_vote,
}
use eya_kv.RaftNode.Election.Memory.{
  address_eq→≡, Ballot, Agrees, Remembered, Voted, Keeps-Voted, step_down-Keeps,
}

-- The vote that a request made the node give.
abbrev pub ballots : Option Address → Option VoteReply → List Ballot
ballots (some opposite) (some reply) =
    if reply.vote_granted then record { term = reply.term; candidate = opposite } ∷ [] else []
ballots _ _ = []

-- No other vote was given in the term `t` but for `c`.
abbrev pub Free : PersistentState → ℕ → Address → Type 0
Free s t c =
    (s.current_term < t)
    ⊎ ((s.current_term ≡ t) × ((s.voted_for ≡ c) ⊎ (is_null s.voted_for ≡ true)))

pub Remembered-vote :
    (s u : PersistentState) (b : Ballot) (c : Address)
    → Remembered s b
    → is_null b.candidate ≡ false
    → Free s u.current_term c
    → u.voted_for ≡ c
    → Remembered u b
Remembered-vote s u b c (inl older) named (inl new) w = inl (omega arith)
Remembered-vote s u b c (inl older) named (inr same) w = inl (omega (arith, same.0))
Remembered-vote s u b c (inr saved) named (inl new) w = inl (omega (arith, saved.0))
Remembered-vote s u b c (inr saved) named (inr (t, inl vote)) w =
    inr (omega (arith, saved.0), cc (saved.1, vote, w))
Remembered-vote s u b c (inr saved) named (inr (t, inr nobody)) w =
    absurd (cc (ap is_null saved.1, nobody, named))

pub All-vote :
    (s u : PersistentState) (c : Address) (given : List Ballot)
    → All (Remembered s) given
    → All (λ b. is_null b.candidate ≡ false) given
    → Free s u.current_term c
    → u.voted_for ≡ c
    → All (Remembered u) given
All-vote s u c [] r n f w = tt
All-vote s u c (b ∷ bs) r n f w =
    (Remembered-vote s u b c r.0 n.0 f w, All-vote s u c bs r.1 n.1 f w)

pub Remembered-Agrees :
    (u : PersistentState) (given : List Ballot)
    → All (Remembered u) given
    → Agrees (record { term = u.current_term; candidate = u.voted_for }) given
Remembered-Agrees u [] r = tt
Remembered-Agrees u (b ∷ bs) (inl older, r) = (λ e. absurd (omega arith), Remembered-Agrees u bs r)
Remembered-Agrees u (b ∷ bs) (inr same, r) = (λ e. same.1, Remembered-Agrees u bs r)

-- A vote of the term that is then saved, where no other was given in that term.
pub Voted-vote :
    (n m : RaftNode) (given : List Ballot)
    → Voted n given
    → m.saved ≡ m.persistent
    → Free n.saved m.saved.current_term m.saved.voted_for
    → is_null m.saved.voted_for ≡ false
    → Voted m (record { term = m.saved.current_term; candidate = m.saved.voted_for } ∷ given)
Voted-vote n m given v s free ok =
    let kept = All-vote n.saved m.saved m.saved.voted_for given v.remembered v.named free refl in
    record {
      saved_le = ground (arith, s);
      same_vote = ap (λ (p : PersistentState). p.voted_for) s;
      remembered = (inr (refl, refl), kept);
      named = (ok, v.named);
      one_each = (Remembered-Agrees m.saved given kept, v.one_each);
    }

-- The node once it has given its vote.
abbrev pub voted_for : Address → RaftNode → RaftNode
voted_for c n = record n {
  persistent = record n.persistent { voted_for = c };
  saved = record n.persistent { voted_for = c };
}

pub answer_vote_cases :
    (d : RequestVoteData) (c : Address) (n : RaftNode)
    → (((is_null n.persistent.voted_for || address_eq n.persistent.voted_for c) ≡ true)
        × (answer_vote d c n ≡ (
          voted_for c n,
          some (record { term = n.persistent.current_term; vote_granted = true }),
        )))
      ⊎ (answer_vote d c n
          ≡ (n, some (record { term = n.persistent.current_term; vote_granted = false })))
unfolding answer_vote
answer_vote_cases d c n = ground arith

pub vote-Free :
    (n : RaftNode) (given : List Ballot) (c : Address)
    → Voted n given
    → (is_null n.persistent.voted_for || address_eq n.persistent.voted_for c) ≡ true
    → Free n.saved n.persistent.current_term c
vote-Free n given c v can =
    ground (arith, v.saved_le, v.same_vote, address_eq→≡ n.persistent.voted_for c)

pub answer_vote-Voted :
    (d : RequestVoteData) (c : Address) (n : RaftNode) (given : List Ballot)
    → Voted n given
    → is_null c ≡ false
    → Voted (answer_vote d c n).0 (ballots (some c) (answer_vote d c n).1 ++ given)
answer_vote-Voted d c n given v ok = elim (answer_vote_cases d c n) [
  | inl (can, e) ↦ rw e (Voted-vote n (voted_for c n) given v refl (vote-Free n given c v can) ok)
  | inr e ↦ rw e v
]

-- What the network may tell the node of the sender of a request: if an address, not the null one.
abbrev pub IsNamed : Option Address → Type 0
IsNamed none = Unit {0}
IsNamed (some c) = is_null c ≡ false

pub request-Voted :
    (term : ℕ) (d : Option RequestVoteData) (opposite : Option Address) (n : RaftNode)
    (given : List Ballot)
    → Voted n given
    → IsNamed opposite
    → Voted
        (handle_request_vote term d opposite n).0
        (ballots opposite (handle_request_vote term d opposite n).1 ++ given)
unfolding handle_request_vote
request-Voted term none none n given v ok = v
request-Voted term none (some c) n given v ok = v
request-Voted term (some d) none n given v ok = v
request-Voted term (some d) (some c) n given v ok =
    elim (Bool-cases (ltb term n.persistent.current_term)) [
      | inl old ↦ rw old v
      | inr current ↦ rw current (
          answer_vote-Voted d c _ given (step_down_if (ltb n.persistent.current_term term) refl) ok)
    ]
  where
    step_down_if :
        (b : Bool)
        → ltb n.persistent.current_term term ≡ b
        → Voted (if b then step_down term n else n) given
    step_down_if true e = Keeps-Voted (step_down-Keeps v term (ltb→lt _ _ e)) v
    step_down_if false e = v

pub candidate_saved :
    (n : RaftNode)
    → n.persistent.current_term + 1 < 2 ^ 32
    → ((become_candidate n).saved ≡ (become_candidate n).persistent)
      × ((become_candidate n).saved.current_term ≡ n.persistent.current_term + 1)
      × ((become_candidate n).saved.voted_for ≡ self_address n)
unfolding become_candidate
candidate_saved n room = ground arith

pub self_address-named : (n : RaftNode) → is_null (self_address n) ≡ false
unfolding is_null bytes_eq
self_address-named n = refl

pub candidate-Voted :
    (n : RaftNode) (given : List Ballot)
    → Voted n given
    → n.persistent.current_term + 1 < 2 ^ 32
    → Voted
        (become_candidate n)
        (record { term = n.persistent.current_term + 1; candidate = self_address n } ∷ given)
candidate-Voted n given v room =
    let (s, t, c) = candidate_saved n room in
    subst (λ b. Voted (become_candidate n) (b ∷ given))
      (λ i. record { term = t i; candidate = c i })
      (Voted-vote n (become_candidate n) given v s (inl (omega (arith, v.saved_le, t)))
        (ap is_null c ∙ self_address-named n))
