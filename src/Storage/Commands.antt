-- ===== src/Storage/Commands.antt =====
-- `Storage::execute` of src/storage/storage.cpp and the queries that it answers. What the SSTables give
-- and std::regex are parameters, with ZSetProcessor::execute; the snapshot that a write makes stale is
-- not part of the state. The overload for std::string_view differs in `push_command` of the lists.
pub mod SetGet
use Prim.Native.Nat.{Ordering}
use eya_kv.Prelude.{
  ℕ, ◌+◌, ◌%◌, ◌^◌, Bool, true, false, ◌&&◌, ◌==◌, leb, ltb, if◌then◌else◌, Option, none, some,
  List, [], ◌∷◌, ◌++◌, map, reverse,
}
use eya_kv.Effects.{
  Exception, runtime_error, overflow_error, bad_pattern, M, ◌>>=◌, ◌>>◌, pure, throw, from_result,
  try_catch,
}
use eya_kv.Codec.Words.{Bytes}
use eya_kv.Codec.Containers.{set_insert}
use eya_kv.Codec.Decimal.{to_string, stoull}
use eya_kv.Storage.Value.{EyaValue, EValue, is_dead}
use eya_kv.Storage.MemTable
use eya_kv.Storage.MemTable.{MemTable, Platform, bytes_compare}
use eya_kv.Storage.Engine
use eya_kv.Storage.Engine.{
  Env, Storage, insert_sorted, look, log_command, set_key_expire, remove_keys,
}
use eya_kv.Storage.OperationType.{
  k_keys, k_exists, k_remove, k_range, k_expire, k_get, k_set, k_s_add, k_s_members,
  k_z_rem_by_score, k_r_pop_n, k_h_entries, is_write_operation,
}
use eya_kv.Storage.Processors.{
  Reason, missing_key, read_only, storage_closed, too_many_arguments, unknown_command,
  unknown_error, thrown, monostate, text, texts, pairs, value, Response, success, error,
}
use eya_kv.Storage.Processors.Deque.Execute as DequeProcessor
use eya_kv.Storage.Processors.Sets as SetProcessor
use eya_kv.Storage.Processors.Sets.{set_erase}
use eya_kv.Storage.Processors.Hashes as HashProcessor
use eya_kv.Storage.Processors.Strings as StringProcessor

-- range_query, which gives a sorted map, the entries of for_each_oldest, std::regex, where none is a
-- pattern that it refuses, and the serializer of a ZSet
pub record Outside (Z : Type 0) : Type 0 where
  pub range_query : Bytes → Bytes → List (Bytes × EValue Z)
  pub oldest_entries : List (Bytes × EValue Z)
  pub write_zset : Z → Bytes
  pub regex : Bytes → Option (Bytes → Bool)
  pub execute_zset : Env → ℕ → List Bytes → M (Storage Z) (Response Z)

-- k >= start_key && k <= end_key
unfoldable pub is_within : Bytes → Bytes → Bytes → Bool
is_within start_key end_key k = elim (bytes_compare k start_key) [
  | Ordering.lt ↦ false
  | _ ↦ (elim (bytes_compare k end_key) [ Ordering.gt ↦ false | _ ↦ true ])
]

-- the keys of a std::set that was made of an unordered one
unfoldable pub sort_keys : List Bytes → List Bytes
unfolding insert_sorted
sort_keys l = map (λ (e : Bytes × Unit {0}). e.0) (insert_all l [])
  where
    insert_all : List Bytes → List (Bytes × Unit {0}) → List (Bytes × Unit {0})
    insert_all [] m = m
    insert_all (k ∷ l) m = insert_all l (insert_sorted k tt m)

module _ {Z : Type 0} where
  -- merged_results[k] = v; for the entries within the range
  unfoldable pub merge_within :
      Bytes → Bytes → List (Bytes × EValue Z) → List (Bytes × EValue Z) → List (Bytes × EValue Z)
  unfolding is_within insert_sorted
  merge_within start_key end_key [] merged_results = merged_results
  merge_within start_key end_key ((k, v) ∷ entries) merged_results =
      merge_within start_key end_key entries
        (if is_within start_key end_key k then insert_sorted k v merged_results else merged_results)

  -- the loop that leaves out what is deleted or expired
  unfoldable pub alive_pairs : ℕ → List (Bytes × EValue Z) → List (Bytes × EyaValue Z)
  alive_pairs now [] = []
  alive_pairs now ((k, v) ∷ merged_results) =
      let rest = alive_pairs now merged_results in
      if is_dead now v then rest else (k, v.value) ∷ rest

  -- the callbacks of keys
  unfoldable pub collect_keys :
      ℕ → (Bytes → Bool) → List (Bytes × EValue Z) → List Bytes → List Bytes
  unfolding set_erase
  collect_keys now matches [] result = result
  collect_keys now matches ((k, v) ∷ entries) result = collect_keys now matches entries (
      if is_dead now v
      then set_erase k result
      else if matches k
      then set_insert result k
      else result)

  -- for_each on memtables, one after another
  unfoldable pub each_memtable {ℓ} :
      {A : Type ℓ}
      → Platform Z
      → (List (Bytes × EValue Z) → A → A)
      → List (Bytes × MemTable Z)
      → A
      → Option A
  each_memtable p callback [] a = some a
  each_memtable p callback ((name, t) ∷ tables) a = elim (MemTable.get_all_entries p t) [
    | none ↦ none
    | some entries ↦ each_memtable p callback tables (callback entries a)
  ]

module _ {Z : Type 0} (p : Platform Z) (env : Env) (outside : Outside Z) where
  -- the immutable memtables from the newest, then the memtable
  unfoldable pub each_entries {ℓ} :
      {A : Type ℓ} → (List (Bytes × EValue Z) → A → A) → A → Storage Z → Option A
  unfolding each_memtable
  each_entries callback a s =
      each_memtable p callback (reverse s.immutable_memtables ++ ([], s.memtable) ∷ []) a

  unfoldable pub range : Bytes → Bytes → Storage Z → Option (List (Bytes × EyaValue Z))
  unfolding each_entries merge_within alive_pairs
  range start_key end_key s =
      elim (each_entries (merge_within start_key end_key) (outside.range_query start_key end_key)
        s) [ none ↦ none | some merged_results ↦ some (alive_pairs env.now merged_results) ]

  unfoldable pub keys : Bytes → M (Storage Z) (List Bytes)
  unfolding each_entries collect_keys sort_keys look
  keys pattern = elim (outside.regex pattern) [
    | none ↦ throw (runtime_error bad_pattern)
    | some matches ↦
        look (
          each_entries (collect_keys env.now matches)
            (collect_keys env.now matches outside.oldest_entries []))
        >>= λ result. pure (sort_keys result)
  ]

  unfoldable pub contains : Bytes → Storage Z → Option Bool
  contains key s = elim (Engine.get p env key s) [
    | none ↦ none
    | some none ↦ some false
    | some (some v) ↦ some true
  ]

  unfoldable pub set_expire : Bytes → ℕ → M (Storage Z) (Unit {0})
  unfolding log_command set_key_expire
  set_expire key alive_time =
      let expire_time = if alive_time == 0 then 0 else (env.now + alive_time) % 2 ^ 64 in
      log_command env false k_expire key (to_string expire_time)
      >> set_key_expire p env key expire_time

  -- get_processor(type)->execute, with the catch around it
  unfoldable pub execute_processor : ℕ → List Bytes → M (Storage Z) (Response Z)
  execute_processor type args =
      let caught : M (Storage Z) (Response Z) → M (Storage Z) (Response Z) =
        λ m. try_catch m (λ e. pure (error (thrown e))) in
      if type == k_set
      then caught (StringProcessor.execute outside.write_zset p env type args)
      else if ltb type k_s_add
      then pure (error unknown_command)
      else if leb type k_s_members
      then caught (SetProcessor.execute p env type args)
      else if leb type k_z_rem_by_score
      then caught (outside.execute_zset env type args)
      else if leb type k_r_pop_n
      then caught (DequeProcessor.execute p env type args)
      else if leb type k_h_entries
      then caught (HashProcessor.execute p env type args)
      else pure (error unknown_command)

  unfoldable pub keys_command : List Bytes → M (Storage Z) (Response Z)
  unfolding keys
  keys_command [] = keys (94 ∷ 46 ∷ 42 ∷ 36 ∷ []) >>= λ l. pure (success (texts l))
  keys_command (pattern ∷ []) = keys pattern >>= λ l. pure (success (texts l))
  keys_command _ = pure (error too_many_arguments)

  unfoldable pub remove_command : List Bytes → M (Storage Z) (Response Z)
  unfolding remove_keys
  remove_command [] = pure (error missing_key)
  remove_command (key ∷ args) =
      remove_keys p env (key ∷ args) >>= λ n. pure (success (text (to_string n)))

  unfoldable pub exists_command : List Bytes → M (Storage Z) (Response Z)
  unfolding contains look
  exists_command [] = pure (error missing_key)
  exists_command (key ∷ []) =
      look (contains key) >>= λ b. pure (success (text (if b then 49 ∷ [] else 48 ∷ [])))
  exists_command _ = pure (error too_many_arguments)

  unfoldable pub range_command : List Bytes → M (Storage Z) (Response Z)
  unfolding range look
  range_command (start_key ∷ end_key ∷ []) =
      look (range start_key end_key) >>= λ l. pure (success (pairs l))
  range_command (start_key ∷ end_key ∷ a ∷ args) = pure (error too_many_arguments)
  range_command _ = pure (error missing_key)

  unfoldable pub expire_command : List Bytes → M (Storage Z) (Response Z)
  unfolding set_expire
  expire_command (key ∷ alive_time ∷ []) =
      from_result (stoull alive_time) >>= λ n. set_expire key n >> pure (success (text (49 ∷ [])))
  expire_command (key ∷ alive_time ∷ a ∷ args) = pure (error too_many_arguments)
  expire_command _ = pure (error missing_key)

  unfoldable pub get_command : List Bytes → M (Storage Z) (Response Z)
  unfolding Engine.get look
  get_command [] = pure (error missing_key)
  get_command (key ∷ []) = look (Engine.get p env key) >>= λ v. elim v [
    | none ↦ pure (success monostate)
    | some val ↦ pure (success (value val))
  ]
  get_command _ = pure (error too_many_arguments)

  -- the chain of tests on the type
  unfoldable pub dispatch : ℕ → List Bytes → M (Storage Z) (Response Z)
  unfolding execute_processor keys_command remove_command exists_command range_command
      expire_command get_command
  dispatch type args =
      if type == k_keys
      then keys_command args
      else if type == k_remove
      then remove_command args
      else if type == k_exists
      then exists_command args
      else if type == k_range
      then range_command args
      else if type == k_expire
      then expire_command args
      else if type == k_get
      then get_command args
      else execute_processor type args

  -- what() of a runtime_error or of a class derived from it
  unfoldable pub answer_exception : Exception → Reason
  answer_exception (runtime_error w) = thrown (runtime_error w)
  answer_exception overflow_error = thrown overflow_error
  answer_exception _ = unknown_error

  -- `is_read_only` is read_only_, and `closed` closed_.
  unfoldable pub execute : Bool → Bool → ℕ → List Bytes → M (Storage Z) (Response Z)
  unfolding dispatch answer_exception is_write_operation
  execute is_read_only closed type args =
      if is_write_operation type && is_read_only
      then pure (error read_only)
      else if closed
      then pure (error storage_closed)
      else try_catch (dispatch type args) (λ e. pure (error (answer_exception e)))
