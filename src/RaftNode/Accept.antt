-- ===== src/RaftNode/Accept.antt =====
-- `handle_append_entries` of src/raft/raft.cpp as a whole, on a message whose entries the log can
-- take.
use eya_kv.Prelude.{
  ℕ, ◌≤◌, ◌≡◌, refl, ap, sym, ◌∙◌, Bool, true, false, ltb, ◌||◌, if◌then◌else◌, min, max, some,
  List, ◌++◌, length, subst, arith, Bool-cases, inl, inr,
}
use eya_kv.Codec.RoundTrip.{All}
use eya_kv.Protocol.Messages.{LogEntry, AppendEntriesData}
use eya_kv.RaftLog.State.{RaftLogArray, done}
use eya_kv.RaftLog.Ops.{last_index}
use eya_kv.RaftLog.Recovery.Durable.{IsRestartable}
use eya_kv.RaftNode.State.{Role, RaftNode, save_persistent_state, to_follower, set_term}
use eya_kv.RaftNode.Append.{
  Disk, AppendReply, Handled, handled, prev_matches, entries_of, append_loop, commit_and_reply,
  append_in_term, save_if, handle_append_entries, node_after,
}
use eya_kv.RaftNode.Replication.{Holds, IsReliable, Continues, Extended, append_loop-Extended}

-- What a follower `n` is after it accepted entries and replied: in the leader's term, with the log
-- extended, and with a commit index that rose to what the leader committed and the log holds.
pub record Accepts (term : ℕ) (data_ : AppendEntriesData) (fresh : List LogEntry) (n m : RaftNode)
    (reply : AppendReply) (need_apply : Bool) : Type 0 where
  pub follows : m.role ≡ Role.follower
  pub in_term : m.persistent.current_term ≡ term
  pub same_vote : m.persistent.voted_for ≡ n.persistent.voted_for
  pub log_is : Extended n.log_array m.log_array fresh
  pub commit_is :
      m.persistent.commit_index
      ≡ max n.persistent.commit_index (min data_.leader_commit (last_index m.log_array))
  pub applies : need_apply ≡ ltb n.persistent.commit_index m.persistent.commit_index
  pub replies : reply ≡ record { term = term; success = true; log_index = last_index m.log_array }
  pub is_saved : n.saved ≡ n.persistent → m.saved ≡ m.persistent

pub record Accepted (term : ℕ) (data_ : AppendEntriesData) (fresh : List LogEntry) (n : RaftNode)
    (h : Handled) : Type 0 where
  pub node : RaftNode
  pub reply : AppendReply
  pub need_apply : Bool
  pub result : h ≡ handled node reply need_apply
  pub accepts : Accepts term data_ fresh n node reply need_apply

reply_committed :
    (data_ : AppendEntriesData) (fresh : List LogEntry) (n k : RaftNode) (need_save : Bool)
    → k.role ≡ Role.follower
    → k.persistent.voted_for ≡ n.persistent.voted_for
    → k.persistent.commit_index ≡ n.persistent.commit_index
    → Extended n.log_array k.log_array fresh
    → (n.saved ≡ n.persistent → need_save ≡ false → k.saved ≡ k.persistent)
    → Accepted k.persistent.current_term data_ fresh n (commit_and_reply data_ need_save k)
unfolding commit_and_reply save_if save_persistent_state
reply_committed data_ fresh n k need_save role vote commit x saved =
    let log : (node_after (commit_and_reply data_ need_save k)).log_array ≡ k.log_array =
      ground arith in
    let last = ap last_index log in
    record {
      node = node_after (commit_and_reply data_ need_save k);
      reply = _;
      need_apply = _;
      result = refl;
      accepts = record {
        follows = ground (arith, role);
        in_term = ground arith;
        same_vote = ground (arith, vote);
        log_is = subst (λ (l : RaftLogArray). Extended n.log_array l fresh) (sym log) x;
        commit_is = ground (arith, commit, last);
        applies = ground (arith, commit);
        replies =
            ap
              (λ (i : ℕ). record {
                term = k.persistent.current_term;
                success = true;
                log_index = i;
              })
              (sym last);
        is_saved = λ fresh_file. elim (Bool-cases need_save) [
          | inl e ↦ ground (arith, e)
          | inr ne ↦ (let same = saved fresh_file ne in ground (arith, ne, same))
        ];
      };
    }

in_term-replies :
    (d : Disk) (data_ : AppendEntriesData) (bumped : Bool) (k : RaftNode) (m : ℕ) (l : RaftLogArray)
    → prev_matches data_ k.log_array ≡ true
    → append_loop d 0 0 (entries_of data_) k.log_array ≡ done m l
    → append_in_term d (some data_) bumped k
      ≡ commit_and_reply data_ (bumped || ltb 0 m) (record k { log_array = l })
unfolding append_in_term
in_term-replies d data_ bumped k m l h runs = rw (h, runs)

newer_term :
    (d : Disk) (term : ℕ) (data_ : AppendEntriesData) (n : RaftNode)
    → ltb n.persistent.current_term term ≡ true
    → handle_append_entries d term (some data_) n
      ≡ append_in_term d (some data_) true (set_term term (to_follower n))
unfolding handle_append_entries
newer_term d term data_ n e =
    let stale : ltb term n.persistent.current_term ≡ false = ground (arith, e) in
    rw (stale) (
      ap
        (λ (b : Bool).
          append_in_term d (some data_) b
            (if b then set_term term (to_follower n) else to_follower n))
        e)

same_term :
    (d : Disk) (term : ℕ) (data_ : AppendEntriesData) (n : RaftNode)
    → n.persistent.current_term ≡ term
    → handle_append_entries d term (some data_) n
      ≡ append_in_term d (some data_) false (to_follower n)
unfolding handle_append_entries
same_term d term data_ n h =
    let stale : ltb term n.persistent.current_term ≡ false = ground (arith, h) in
    let e : ltb n.persistent.current_term term ≡ false = ground (arith, h) in
    rw (stale) (
      ap
        (λ (b : Bool).
          append_in_term d (some data_) b
            (if b then set_term term (to_follower n) else to_follower n))
        e)

-- A follower with a restartable log and a reliable disk gets an AppendEntries of its term or a
-- later one, whose previous entry it has, with entries that it has already followed by entries that
-- go on where its log ends and that fit. Then the handler returns, and the node accepts: it is a
-- follower in that term with the same vote, its log has the new entries after the old, its commit
-- index is the greater of the old one and the leader's, the latter at most the last index, it is to
-- apply exactly if that rose, it replies success with its last index, and its meta file is up to
-- date if it was.
pub handle_append_entries-Accepted :
    (d : Disk) (term : ℕ) (data_ : AppendEntriesData) (present fresh : List LogEntry) (n : RaftNode)
    (s : IsRestartable n.log_array)
    → n.persistent.current_term ≤ term
    → prev_matches data_ n.log_array ≡ true
    → entries_of data_ ≡ present ++ fresh
    → IsReliable d
    → All (Holds n.log_array) present
    → Continues n.log_array s fresh
    → Accepted term data_ fresh n (handle_append_entries d term (some data_) n)
unfolding handle_append_entries to_follower
handle_append_entries-Accepted d term data_ present fresh n s newer prev es r held c =
    let (l', runs, x) = append_loop-Extended d present fresh n.log_array s r held c in
    let runs' = ap (λ (es : List LogEntry). append_loop d 0 0 es n.log_array) es ∙ runs in
    elim (Bool-cases (ltb n.persistent.current_term term)) [
      | inl e ↦
          (let k = set_term term (to_follower n) in
            subst (Accepted term data_ fresh n)
              (sym (
                newer_term d term data_ n e
                ∙ in_term-replies d data_ true k (length fresh) l' prev runs'))
              (reply_committed data_ fresh n (record k { log_array = l' }) true refl refl refl x
                (λ _ no. absurd cc)))
      | inr e ↦
          (let k = to_follower n in
            let same : n.persistent.current_term ≡ term = ground (arith, newer, e) in
            subst (Accepted term data_ fresh n)
              (sym (
                same_term d term data_ n same
                ∙ in_term-replies d data_ false k (length fresh) l' prev runs'))
              (subst
                (λ (t : ℕ).
                  Accepted t data_ fresh n
                    (commit_and_reply data_ (ltb 0 (length fresh)) (record k { log_array = l' })))
                same
                (reply_committed data_ fresh n (record k { log_array = l' }) (ltb 0 (length fresh))
                  refl refl refl x (λ fresh_file _. fresh_file))))
    ]
