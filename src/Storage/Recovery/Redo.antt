-- ===== src/Storage/Recovery/Redo.antt =====
-- src/storage/storage.cpp and src/storage/processors.cpp: the replay of a record repeats its command.
use eya_kv.Prelude.{
  ℕ, ◌^◌, ◌<◌, ◌≡◌, refl, ap, sym, ◌∙◌, Bool, true, false, some, List, [], append-nil, length,
  arith,
}
use eya_kv.Effects.{returned, M, ◌>>=◌, ◌>>◌, pure}
use eya_kv.Codec.Words.{Bytes, Reader}
use eya_kv.Codec.Containers.{
  serialize_string, serialize_vector, serialize_pair, put_all, deserialize_string,
  deserialize_vector,
}
use eya_kv.Codec.RoundTrip.{All, FitsString, Trips, string-Trips}
use eya_kv.Codec.Collections.{FitsPair, vector_trips}
use eya_kv.Codec.Decimal.{to_string, to_size, stoll-to_string, length-to_string}
use eya_kv.Storage.Wal.{WalRecord}
use eya_kv.Storage.MemTable.{Platform}
use eya_kv.Storage.Engine.{Env, Storage, append_log, log_command}
use eya_kv.Storage.OperationType.{
  k_s_add, k_s_rem, k_l_push, k_l_pop, k_r_push, k_r_pop, k_l_pop_n, k_r_pop_n, k_h_set, k_h_del,
}
use eya_kv.Storage.Processors.Deque.{l_push, r_push, l_pop, r_pop, l_pop_n, r_pop_n}
use eya_kv.Storage.Processors.Sets.{s_add, s_rem}
use eya_kv.Storage.Processors.Hashes.{h_set, h_del}
use eya_kv.Storage.Processors.Deque.Execute as DequeProcessor
use eya_kv.Storage.Processors.Sets as SetProcessor
use eya_kv.Storage.Processors.Hashes as HashProcessor
use eya_kv.Storage.Processors.Payload.{read_strings, read_pairs}
use eya_kv.Storage.Recovery.{replay}

-- The commands that write a container, in the overloads for std::string.
pub data Write : Type 0 where
  push_left push_right : List Bytes → Write
  pop_left pop_right : Write
  pop_left_n pop_right_n : ℕ → Write
  add_to_set remove_from_set delete_fields : List Bytes → Write
  put_fields : List (Bytes × Bytes) → Write

abbrev type_of : Write → ℕ
type_of (push_left values) = k_l_push
type_of (push_right values) = k_r_push
type_of pop_left = k_l_pop
type_of pop_right = k_r_pop
type_of (pop_left_n n) = k_l_pop_n
type_of (pop_right_n n) = k_r_pop_n
type_of (add_to_set members) = k_s_add
type_of (remove_from_set members) = k_s_rem
type_of (delete_fields fields) = k_h_del
type_of (put_fields field_values) = k_h_set

abbrev payload_of : Write → Bytes
payload_of (push_left values) = serialize_vector values
payload_of (push_right values) = serialize_vector values
payload_of pop_left = []
payload_of pop_right = []
payload_of (pop_left_n n) = serialize_string (to_string n)
payload_of (pop_right_n n) = serialize_string (to_string n)
payload_of (add_to_set members) = put_all serialize_string members
payload_of (remove_from_set members) = put_all serialize_string members
payload_of (delete_fields fields) = put_all serialize_string fields
payload_of (put_fields field_values) = put_all serialize_pair field_values

abbrev pub record_of : Bytes → Write → WalRecord
record_of key w = record { type = type_of w; key = key; payload = payload_of w }

-- Sizes fit in 32 bits, and a count is read back by stoll.
abbrev pub FitsWrite : Write → Type 0
FitsWrite (push_left values) = (length values < 2 ^ 32) × All FitsString values
FitsWrite (push_right values) = (length values < 2 ^ 32) × All FitsString values
FitsWrite pop_left = Unit
FitsWrite pop_right = Unit
FitsWrite (pop_left_n n) = n < 2 ^ 63
FitsWrite (pop_right_n n) = n < 2 ^ 63
FitsWrite (add_to_set members) = All FitsString members
FitsWrite (remove_from_set members) = All FitsString members
FitsWrite (delete_fields fields) = All FitsString fields
FitsWrite (put_fields field_values) = All FitsPair field_values

-- What is written and read with nothing behind it.
exact {ℓ} :
    {A : Type ℓ} (write : A → Bytes) (read : Reader A) (a : A)
    → Trips write read a
    → read (write a) ≡ some (a, [])
exact write read a t = ap read (sym (append-nil (write a))) ∙ t []

stoll_size-to_string : (n : ℕ) → n < 2 ^ 63 → DequeProcessor.stoll_size (to_string n) ≡ returned n
unfolding DequeProcessor.stoll_size to_size
stoll_size-to_string n h = rw (stoll-to_string n h) (ap returned (omega arith))

count_read :
    (n : ℕ)
    → n < 2 ^ 63
    → deserialize_string (serialize_string (to_string n)) ≡ some (to_string n, [])
count_read n h =
    exact serialize_string deserialize_string (to_string n)
      (string-Trips (to_string n) (length-to_string n h))

module _ {Z : Type 0} (p : Platform Z) (env : Env) (is_recover : Bool) (key : Bytes) where
  -- The command, its result left out.
  unfoldable pub run : Write → M (Storage Z) Bool
  run (push_left values) = l_push p env is_recover key values >>= λ n. pure true
  run (push_right values) = r_push p env is_recover key values >>= λ n. pure true
  run pop_left = l_pop p env is_recover key >>= λ x. pure true
  run pop_right = r_pop p env is_recover key >>= λ x. pure true
  run (pop_left_n n) = l_pop_n p env is_recover key n >>= λ l. pure true
  run (pop_right_n n) = r_pop_n p env is_recover key n >>= λ l. pure true
  run (add_to_set members) = s_add p env is_recover key members >>= λ n. pure true
  run (remove_from_set members) = s_rem p env is_recover key members >>= λ n. pure true
  run (delete_fields fields) = h_del p env is_recover key fields >>= λ n. pure true
  run (put_fields field_values) = h_set p env is_recover key field_values >>= λ n. pure true

module _ {Z : Type 0} (read_zset : Reader Z) (p : Platform Z)
    (recover_zset : Env → ℕ → Bytes → Bytes → M (Storage Z) Bool) (env : Env) (key : Bytes) where
  replayed :
      (w : Write) (s : Storage Z)
      → FitsWrite w
      → replay read_zset p recover_zset env (record_of key w) s ≡ run p env true key w s
  unfolding replay run DequeProcessor.recover SetProcessor.recover HashProcessor.recover
  replayed (push_left values) s h = rw (
    DequeProcessor.recover,
    DequeProcessor.replay_push,
    exact serialize_vector deserialize_vector values (λ r. vector_trips values r h.0 h.1),
  )
  replayed (push_right values) s h = rw (
    DequeProcessor.recover,
    DequeProcessor.replay_push,
    exact serialize_vector deserialize_vector values (λ r. vector_trips values r h.0 h.1),
  )
  replayed pop_left s h = refl
  replayed pop_right s h = refl
  replayed (pop_left_n n) s h = rw (
    DequeProcessor.recover,
    DequeProcessor.replay_pop_n,
    count_read n h,
    stoll_size-to_string n h,
  )
  replayed (pop_right_n n) s h = rw (
    DequeProcessor.recover,
    DequeProcessor.replay_pop_n,
    count_read n h,
    stoll_size-to_string n h,
  )
  replayed (add_to_set members) s h =
      rw (SetProcessor.recover, SetProcessor.replay_members, read_strings members h)
  replayed (remove_from_set members) s h =
      rw (SetProcessor.recover, SetProcessor.replay_members, read_strings members h)
  replayed (delete_fields fields) s h = rw (HashProcessor.recover, read_strings fields h)
  replayed (put_fields field_values) s h = rw (HashProcessor.recover, read_pairs field_values h)

  logged :
      (w : Write) (s : Storage Z)
      → s.enable_wal ≡ true
      → run p env false key w s
        ≡ (append_log env (type_of w) key (payload_of w) >> run p env true key w) s
  unfolding run log_command append_log l_push r_push l_pop r_pop l_pop_n r_pop_n s_add s_rem h_set
      h_del
  logged (push_left values) s e = rw (e)
  logged (push_right values) s e = rw (e)
  logged pop_left s e = rw (e)
  logged pop_right s e = rw (e)
  logged (pop_left_n n) s e = rw (e)
  logged (pop_right_n n) s e = rw (e)
  logged (add_to_set members) s e = rw (e)
  logged (remove_from_set members) s e = rw (e)
  logged (delete_fields fields) s e = rw (e)
  logged (put_fields field_values) s e = rw (e)

  -- A command on a list, a set or a hash, of sizes that fit in 32 bits, that runs with the log on by its
  -- overload for std::string appends one record and then does what it does without a log, and the replay
  -- of that record at recovery, in any state, does the same.
  pub replay-run :
      (w : Write) (s : Storage Z)
      → FitsWrite w
      → s.enable_wal ≡ true
      → (run p env false key w s
          ≡ (append_log env (type_of w) key (payload_of w) >> run p env true key w) s)
        × ((s' : Storage Z)
            → replay read_zset p recover_zset env (record_of key w) s' ≡ run p env true key w s')
  replay-run w s h e = (logged w s e, λ s'. replayed w s' h)
