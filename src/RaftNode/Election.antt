-- ===== src/RaftNode/Election.antt =====
-- The votes that a node of src/raft/raft.cpp gives over a history of events.
-- The model of src/raft/raft.cpp that the steps stand on is in Vote and Append.
pub mod Memory
pub mod Votes
use eya_kv.Prelude.{
  ℕ, max, ◌+◌, ◌^◌, ◌<◌, ◌≤◌, ◌≡◌, refl, ap, subst, ◌∙◌, ◌⊎◌, inl, inr, Bool, true, false, ◌||◌,
  ltb, if◌then◌else◌, Option, none, some, List, [], ◌∷◌, ◌++◌, arith, Bool-cases, ltb→lt,
}
use eya_kv.Codec.RoundTrip.{All}
use eya_kv.Codec.Equality.{bytes_eq→≡}
use eya_kv.Codec.Containers.{bytes_eq}
use eya_kv.Protocol.Messages.{
  Address, address_eq, is_null, RequestVoteData, AppendEntriesData, PersistentState,
}
use eya_kv.RaftNode.State.{RaftNode}
use eya_kv.RaftNode.Vote.{
  VoteReply, self_address, become_candidate, step_down, answer_vote, handle_request_vote, Answer,
  handle_answer, count_vote, handle_request_vote_response, become_follower, handle_new_master,
  restart_node,
}
use eya_kv.RaftNode.Append.{
  Disk, append_in_term, commit_and_reply, node_after, handle_append_entries,
}
use eya_kv.RaftNode.Commit.{try_commit_entries}
use Memory.{
  address_eq→≡, Ballot, Agrees, OneVotePerTerm, Remembered, Voted, Keeps, All-Remembered,
  Keeps-Voted, step_down-Keeps, count_vote-Keeps, response-Keeps, become_follower-Keeps, NotOlder,
  answer-Keeps, new_master-Keeps, commit-Keeps, restart-Keeps, Follows, commit_and_reply-Follows,
  append_in_term-Follows, append_entries-Keeps,
}
use Votes.{
  ballots, Free, Remembered-vote, All-vote, Remembered-Agrees, Voted-vote, voted_for,
  answer_vote_cases, vote-Free, answer_vote-Voted, IsNamed, request-Voted, candidate_saved,
  self_address-named, candidate-Voted,
}

-- What can happen to a node: its election timer, the messages, and a restart from the meta file.
pub data Event : Type 0 where
  timeout : Event
  vote_request : ℕ → Option RequestVoteData → Option Address → Event
  vote_response : ℕ → Option Bool → Event
  append_request : Disk → ℕ → Option AppendEntriesData → Event
  new_master : ℕ → Option Address → Option Address → Answer → Event
  join : Address → ℕ → ℕ → Answer → Event
  leader_message : Answer → Event
  commit : Event
  restart : Event

-- The node after the event, and the votes that it gave.
unfoldable pub step : RaftNode → Event → RaftNode × List Ballot
step n timeout = (
  become_candidate n,
  record { term = n.persistent.current_term + 1; candidate = self_address n } ∷ [],
)
step n (vote_request term d opposite) =
    let (m, reply) = handle_request_vote term d opposite n in (m, ballots opposite reply)
step n (vote_response term granted) = (handle_request_vote_response term granted n, [])
step n (append_request d term data_) = (node_after (handle_append_entries d term data_ n), [])
step n (new_master term a self answer) = (handle_new_master term a self answer n, [])
step n (join a term commit_index answer) = (become_follower a term commit_index answer n, [])
step n (leader_message answer) = (handle_answer answer n, [])
step n commit = ((try_commit_entries n).0, [])
step n restart = (restart_node n, [])

-- The term counter of 32 bits does not wrap, a request that comes from an address names it, and a leader
-- that takes the node into its cluster has no older term than the node then has.
abbrev pub IsAllowed : RaftNode → Event → Type 0
IsAllowed n timeout = n.persistent.current_term + 1 < 2 ^ 32
IsAllowed n (vote_request term d opposite) = IsNamed opposite
IsAllowed n (new_master term a self answer) = NotOlder (max n.persistent.current_term term) answer
IsAllowed n (join a term c answer) = NotOlder (max n.persistent.current_term term) answer
IsAllowed n (leader_message answer) = NotOlder n.persistent.current_term answer
IsAllowed n _ = Unit

step-Voted :
    (n : RaftNode) (e : Event) (given : List Ballot)
    → IsAllowed n e
    → Voted n given
    → Voted (step n e).0 ((step n e).1 ++ given)
unfolding step
step-Voted n timeout given ok v = candidate-Voted n given v ok
step-Voted n (vote_request term d opposite) given ok v = request-Voted term d opposite n given v ok
step-Voted n (vote_response term granted) given ok v = Keeps-Voted (response-Keeps v term granted) v
step-Voted n (append_request d term data_) given ok v =
    Keeps-Voted (append_entries-Keeps v d term data_) v
step-Voted n (new_master term a self answer) given ok v =
    Keeps-Voted (new_master-Keeps v term a self answer ok) v
step-Voted n (join a term c answer) given ok v =
    Keeps-Voted (become_follower-Keeps v a term c answer ok) v
step-Voted n (leader_message answer) given ok v = Keeps-Voted (answer-Keeps answer v ok) v
step-Voted n commit given ok v = Keeps-Voted (commit-Keeps v) v
step-Voted n restart given ok v = Keeps-Voted (restart-Keeps v) v

-- All votes of a history, the latest first.
unfoldable pub run : RaftNode → List Event → List Ballot → RaftNode × List Ballot
unfolding step
run n [] given = (n, given)
run n (e ∷ es) given = run (step n e).0 es ((step n e).1 ++ given)

abbrev pub AllAllowed : RaftNode → List Event → Type 0
AllAllowed n [] = Unit
AllAllowed n (e ∷ es) = IsAllowed n e × AllAllowed (step n e).0 es

run-Voted :
    (n : RaftNode) (es : List Event) (given : List Ballot)
    → AllAllowed n es
    → Voted n given
    → Voted (run n es given).0 (run n es given).1
unfolding run
run-Voted n [] given ok v = v
run-Voted n (e ∷ es) given ok v =
    run-Voted (step n e).0 es ((step n e).1 ++ given) ok.1 (step-Voted n e given ok.0 v)

-- A node whose meta file agrees with its memory gives votes for at most one candidate in each term,
-- over any history of election timeouts, requests for votes, responses, appends, new masters,
-- joins, answers of leaders, commits and restarts in which its 32-bit term does not wrap at a timeout,
-- a requester's address is not the null one, and no leader that takes the node into its cluster has an
-- older term than the node. The command that sets a new master, which sets the term to 0, is no event.
pub one_vote_per_term :
    (n : RaftNode) (es : List Event)
    → n.saved ≡ n.persistent
    → AllAllowed n es
    → OneVotePerTerm (run n es []).1
one_vote_per_term n es fresh ok = (run-Voted n es [] ok (no_votes n fresh)).one_each
  where
    no_votes : (m : RaftNode) → m.saved ≡ m.persistent → Voted m []
    no_votes m e = record {
      saved_le = ground (arith, e);
      same_vote = ap (λ (p : PersistentState). p.voted_for) e;
      remembered = tt;
      named = tt;
      one_each = tt;
    }
