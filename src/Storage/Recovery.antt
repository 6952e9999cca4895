-- ===== src/Storage/Recovery.antt =====
-- `Storage::recover` of src/storage/storage.cpp: the callback on the records of the write-ahead log.
-- ZSetProcessor::recover is a parameter, with the writer and the reader of sorted sets.
pub mod Redo
pub mod Lost
use eya_kv.Prelude.{
  ℕ, Bool, true, false, ◌||◌, ◌==◌, ltb, leb, if◌then◌else◌, Option, none, some, List, [], ◌∷◌,
}
use eya_kv.Effects.{Result, returned, threw, M, ◌>>=◌, ◌>>◌, pure, from_result, try_catch}
use eya_kv.Codec.Words.{Bytes, Reader}
use eya_kv.Codec.Containers.{bytes_eq}
use eya_kv.Codec.Decimal.{stoull}
use eya_kv.Storage.Wal.{WalRecord}
use eya_kv.Storage.MemTable.{MemTable, Platform, cancel_size_limit}
use eya_kv.Storage.Engine.{
  Env, Storage, create_new_memtable, insert_sorted, remove_keys, set_key_expire,
}
use eya_kv.Storage.OperationType.{
  k_remove, k_expire, k_set, k_s_add, k_s_members, k_z_add, k_z_rem_by_score, k_l_push, k_r_pop_n,
  k_h_set, k_h_entries,
}
use eya_kv.Storage.Processors.Deque.Execute as DequeProcessor
use eya_kv.Storage.Processors.Sets as SetProcessor
use eya_kv.Storage.Processors.Hashes as HashProcessor
use eya_kv.Storage.Processors.Strings as StringProcessor

module _ {Z : Type 0} (p : Platform Z) (env : Env) where
  -- The memtable of the file before becomes immutable.
  unfoldable pub enter_file : Bytes → Storage Z → Storage Z
  unfolding create_new_memtable insert_sorted
  enter_file filename s =
      if bytes_eq filename s.current_wal_filename
      then s
      else if bytes_eq s.current_wal_filename []
      then record s { current_wal_filename = filename }
      else record s {
        immutable_memtables = insert_sorted s.current_wal_filename s.memtable s.immutable_memtables;
        memtable = cancel_size_limit (create_new_memtable p env s);
        current_wal_filename = filename;
      }

module _ {Z : Type 0} (read_zset : Reader Z) (p : Platform Z)
    (recover_zset : Env → ℕ → Bytes → Bytes → M (Storage Z) Bool) (env : Env) where
  -- processors_.find(type) and its recover; the codes of each processor follow one another
  unfoldable pub processor_recover : ℕ → Bytes → Bytes → M (Storage Z) Bool
  processor_recover type key payload =
      if type == k_set
      then StringProcessor.recover read_zset p env type key payload
      else if ltb type k_s_add
      then pure false
      else if leb type k_s_members
      then SetProcessor.recover p env type key payload
      else if leb type k_z_rem_by_score
      then recover_zset env type key payload
      else if leb type k_r_pop_n
      then DequeProcessor.recover p env type key payload
      else if leb type k_h_entries
      then HashProcessor.recover p env type key payload
      else pure false

  -- the try block of the callback
  unfoldable pub replay : WalRecord → M (Storage Z) Bool
  unfolding processor_recover
  replay r =
      if r.type == k_remove
      then (remove_keys p env (r.key ∷ []) >>= λ n. pure true)
      else if r.type == k_expire
      then (from_result (stoull r.payload) >>= λ expire_time.
          set_key_expire p env r.key expire_time >>= λ u. pure true)
      else processor_recover r.type r.key r.payload

  -- the callback: an exception is logged and left
  unfoldable pub replay_callback : Bytes → WalRecord → Storage Z → Option (Storage Z)
  unfolding replay enter_file
  replay_callback filename r s = elim (replay r (enter_file p env filename s)) [
    | none ↦ none
    | some (result, s') ↦ some s'
  ]

  -- the calls of the callback, in order
  unfoldable pub replay_all : List (Bytes × WalRecord) → Storage Z → Option (Storage Z)
  unfolding replay_callback
  replay_all [] s = some s
  replay_all ((filename, r) ∷ records) s = elim (replay_callback filename r s) [
    | none ↦ none
    | some s' ↦ replay_all records s'
  ]
