-- ===== src/RaftNode/Vote.antt =====
-- Elections in src/raft/raft.cpp: becoming a candidate, giving a vote, counting votes, and meeting
-- a new leader. Timers and threads are not modelled.
use eya_kv.Prelude.{
  ℕ, ◌+◌, ◌/◌, Bool, true, false, ◌&&◌, ◌||◌, ◌==◌, ltb, leb, if◌then◌else◌, Option, none, some, [],
  ◌∷◌, length, List, ◌++◌,
}
use eya_kv.Codec.Words.{to_u32}
use eya_kv.Codec.Containers.{bytes_eq}
use eya_kv.Protocol.Messages.{
  ClusterMetadata, nodes_contain, Address, null_address, address_eq, is_null, RequestVoteData,
}
use eya_kv.RaftLog.State.{RaftLogArray, Outcome, done, relock}
use eya_kv.RaftLog.Ops.{last_info, last_index, recover, reopen}
use eya_kv.RaftNode.State.{
  Role, is_leader, RaftNode, save_persistent_state, load_persistent_state, to_follower,
  to_candidate, to_leader, set_term, set_vote, set_nodes, set_leader, set_commit,
}

-- Address("127.0.0.1", port_)
abbrev pub self_address : RaftNode → Address
self_address n = record { host = 49 ∷ 50 ∷ 55 ∷ 46 ∷ 48 ∷ 46 ∷ 48 ∷ 46 ∷ 49 ∷ []; port = n.port }

-- up to the sending of the requests
unfoldable pub become_candidate : RaftNode → RaftNode
unfolding save_persistent_state to_candidate
become_candidate n =
    let voted =
      save_persistent_state
        (set_vote (self_address n) (set_term (to_u32 (n.persistent.current_term + 1)) n)) in
    to_candidate (record voted { granted_votes = 1 })

-- The nodes are forgotten here.
unfoldable pub become_leader : RaftNode → RaftNode
unfolding save_persistent_state to_leader
become_leader n = save_persistent_state (set_nodes [] (to_leader n))

-- a term that is newer than the node's
unfoldable pub step_down : ℕ → RaftNode → RaftNode
unfolding save_persistent_state to_follower
step_down term n = to_follower (save_persistent_state (set_vote null_address (set_term term n)))

-- request_vote_response(term, granted)
pub record VoteReply : Type 0 where
  pub term : ℕ
  pub vote_granted : Bool

-- rules 3 and 4 of handle_request_vote, in the term that the node has now
unfoldable pub answer_vote : RequestVoteData → Address → RaftNode → RaftNode × Option VoteReply
unfolding save_persistent_state last_info
answer_vote d opposite n =
    let (my_last_index, my_last_term) = last_info n.log_array in
    let log_is_ok =
      ltb my_last_term d.last_log_term
      || (d.last_log_term == my_last_term && leb my_last_index d.last_log_index) in
    let can_vote = is_null n.persistent.voted_for || address_eq n.persistent.voted_for opposite in
    if can_vote && log_is_ok
    then (
      save_persistent_state (set_vote opposite n),
      some (record { term = n.persistent.current_term; vote_granted = true }),
    )
    else (n, some (record { term = n.persistent.current_term; vote_granted = false }))

-- `opposite` is the candidate's address, if its socket has one. Nothing is sent where it has none,
-- or where the message has no data. The result of the function is whether the vote was granted.
unfoldable pub handle_request_vote :
    ℕ → Option RequestVoteData → Option Address → RaftNode → RaftNode × Option VoteReply
unfolding answer_vote step_down
handle_request_vote term none opposite n = (n, none)
handle_request_vote term (some d) none n = (n, none)
handle_request_vote term (some d) (some opposite) n =
    if ltb term n.persistent.current_term
    then (n, some (record { term = n.persistent.current_term; vote_granted = false }))
    else answer_vote d opposite (if ltb n.persistent.current_term term then step_down term n else n)

-- cluster_size / 2 + 1, with the node itself
unfoldable pub majority : RaftNode → ℕ
majority n = (length n.persistent.cluster_metadata.cluster_nodes + 1) / 2 + 1

-- a vote for the candidate in its term
unfoldable pub count_vote : RaftNode → RaftNode
unfolding become_leader majority save_persistent_state
count_vote n =
    let counted = record n { granted_votes = n.granted_votes + 1 } in
    if leb (majority n) (n.granted_votes + 1)
    then save_persistent_state
        (set_nodes n.persistent.cluster_metadata.cluster_nodes (become_leader counted))
    else counted

-- `vote_granted` is absent where the message has no data
unfoldable pub handle_request_vote_response : ℕ → Option Bool → RaftNode → RaftNode
unfolding step_down count_vote
handle_request_vote_response term vote_granted n =
    if ltb term n.persistent.current_term
    then n
    else if ltb n.persistent.current_term term
    then step_down term n
    else elim n.role [
      | Role.candidate ↦ elim vote_granted [
        | none ↦ n
        | some granted ↦ if granted then count_vote n else n
      ]
      | _ ↦ n
    ]

-- What the node receives in become_follower, and from its leader later: nothing that is an answer to its
-- request to join, in time; an answer without data; that it is in the cluster, with the term and the
-- metadata of the leader and the node's own address; that it was refused; or that another node leads,
-- with its own address if the socket has one, and what it then receives from that node.
pub data Answer : Type 0 where
  unanswered : Answer
  no_data : Answer
  joined : ℕ → ClusterMetadata → Address → Answer
  refused : Answer
  redirected : Address → Option Address → Answer → Answer

-- insert and erase of cluster_nodes_
unfoldable pub insert_node : Address → List Address → List Address
insert_node a nodes = if nodes_contain a nodes then nodes else nodes ++ a ∷ []

unfoldable pub erase_node : Address → List Address → List Address
erase_node a [] = []
erase_node a (b ∷ nodes) = if address_eq b a then nodes else b ∷ erase_node a nodes

-- handle_join_cluster_response of a success: the term is assigned as it is
unfoldable pub enter_cluster : ℕ → ClusterMetadata → Address → RaftNode → RaftNode
unfolding insert_node erase_node save_persistent_state
enter_cluster term data_ self_addr n =
    let leader_addr = n.persistent.cluster_metadata.current_leader in
    save_persistent_state (record n {
      persistent = record n.persistent {
        current_term = term;
        cluster_metadata = record data_ {
          cluster_nodes = erase_node self_addr (insert_node leader_addr data_.cluster_nodes);
          current_leader = leader_addr;
        };
      };
    })

abbrev pub is_follower : Role → Bool
is_follower Role.follower = true
is_follower _ = false

-- what become_follower does on an answer, before it handles that
unfoldable pub follow_leader : Address → ℕ → ℕ → RaftNode → RaftNode
unfolding save_persistent_state to_follower
follow_leader leader_addr term commit_index n =
    let f = set_commit commit_index (set_nodes [] (set_leader leader_addr (to_follower n))) in
    let g =
      if ltb n.persistent.current_term term then set_vote null_address (set_term term f) else f in
    record (save_persistent_state g) { next_index = []; match_index = [] }

-- handle_query_leader_response, where `followed` is what become_follower makes of the node
unfoldable pub redirect : Address → Option Address → RaftNode → RaftNode → RaftNode
unfolding become_leader
redirect leader_addr local_addr n followed = elim local_addr [
  | none ↦ n
  | some a ↦
      if is_null leader_addr
      then n
      else if bytes_eq leader_addr.host a.host && leader_addr.port == n.port
      then become_leader n
      else followed
]

-- handle_leader_message of an answer, the calls of become_follower in it included
unfoldable pub handle_answer : Answer → RaftNode → RaftNode
unfolding enter_cluster become_leader follow_leader redirect
handle_answer unanswered n = n
handle_answer no_data n = n
handle_answer (joined term data_ self_addr) n =
    if is_follower n.role then enter_cluster term data_ self_addr n else n
handle_answer refused n = if is_follower n.role then become_leader n else n
handle_answer (redirected leader_addr local_addr unanswered) n = redirect leader_addr local_addr n n
handle_answer (redirected leader_addr local_addr answer) n =
    redirect leader_addr local_addr n (handle_answer answer (follow_leader leader_addr 0 0 n))

-- Nothing changes where the request to join is not answered.
unfoldable pub become_follower : Address → ℕ → ℕ → Answer → RaftNode → RaftNode
unfolding follow_leader handle_answer
become_follower leader_addr term commit_index unanswered n = n
become_follower leader_addr term commit_index answer n =
    handle_answer answer (follow_leader leader_addr term commit_index n)

-- the new leader and its term are taken and saved
unfoldable pub meet_master : ℕ → Address → RaftNode → RaftNode
unfolding save_persistent_state
meet_master term leader_addr n = save_persistent_state (
    set_leader leader_addr
      (if ltb n.persistent.current_term term then set_vote null_address (set_term term n) else n))

-- `self` is the node's own address on that connection, if it has one
unfoldable pub handle_new_master :
    ℕ → Option Address → Option Address → Answer → RaftNode → RaftNode
unfolding become_follower meet_master
handle_new_master term none self answer n = n
handle_new_master term (some leader_addr) self answer n =
    if ltb term n.persistent.current_term || (is_leader n.role && term == n.persistent.current_term)
    then n
    else elim self [
      | none ↦ n
      | some self_addr ↦
          if address_eq self_addr leader_addr
          then n
          else become_follower leader_addr term n.persistent.commit_index answer
              (meet_master term leader_addr n)
    ]

abbrev pub log_after : Outcome Bool → RaftLogArray
log_after (done _ l) = l
log_after (relock l) = l

-- The constructor of a process that starts over the files, up to init_as_follower and the other
-- ways to join, which are events of their own: the role is Leader, the meta file and the log are
-- read, and the commit index is at most the last index of the log.
unfoldable pub restart_node : RaftNode → RaftNode
unfolding load_persistent_state recover last_index
restart_node n =
    let log = log_after (recover (reopen n.log_array)) in
    let m = load_persistent_state (record n {
      log_array = log;
      role = Role.leader;
      granted_votes = 0;
      next_index = [];
      match_index = [];
    }) in
    if ltb (last_index log) m.persistent.commit_index then set_commit (last_index log) m else m
