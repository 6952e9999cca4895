-- ===== src/Storage/Processors/Strings.antt =====
-- `StringProcessor` of src/storage/processors.cpp. The overloads for std::string_view are the same
-- functions. The writer and the reader of sorted sets are parameters.
use eya_kv.Prelude.{
  ℕ, ◌+◌, ◌%◌, ◌^◌, Bool, true, false, ◌==◌, if◌then◌else◌, none, some, List, [], ◌∷◌,
}
use eya_kv.Effects.{M, ◌>>=◌, ◌>>◌, pure, from_result, undefined}
use eya_kv.Codec.Words.{Bytes, Reader}
use eya_kv.Storage.OperationType.{k_set}
use eya_kv.Storage.Value.{EValue, string, serialize_value, deserialize_value}
use eya_kv.Storage.MemTable.{Platform}
use eya_kv.Storage.Engine.{Env, Storage, log_command, write_memtable}
use eya_kv.Storage.Processors.{missing_arguments, unsupported_type, text, Response, success, error}
use eya_kv.Storage.Processors.Deque.Execute.{stoll_size}

module _ {Z : Type 0} (write_zset : Z → Bytes) (p : Platform Z) (env : Env) where
  -- the value of `set`, with the 32 bits of the second at which it expires
  unfoldable pub string_value : Bytes → ℕ → EValue Z
  string_value value ttl = record {
    value = string value;
    deleted = false;
    expire_time = if ttl == 0 then 0 else (env.now + ttl) % 2 ^ 32;
  }

  unfoldable pub set : Bytes → Bytes → ℕ → M (Storage Z) Bool
  unfolding string_value
  set key value ttl =
      let val = string_value value ttl in
      log_command env false k_set key (serialize_value write_zset val)
      >> write_memtable p env key val
      >> pure true

  -- `set` with a ttl, if there is one
  unfoldable pub set_command : List Bytes → M (Storage Z) (Response Z)
  unfolding set
  set_command (key ∷ value ∷ []) =
      set key value 0 >>= λ ok. pure (success (text ((if ok then 49 else 48) ∷ [])))
  set_command (key ∷ value ∷ ttl ∷ args) = from_result (stoll_size ttl) >>= λ n.
      set key value n >>= λ ok. pure (success (text ((if ok then 49 else 48) ∷ [])))
  set_command _ = pure (error missing_arguments)

  unfoldable pub execute : ℕ → List Bytes → M (Storage Z) (Response Z)
  unfolding set_command
  execute type args = if type == k_set then set_command args else pure (error unsupported_type)

module _ {Z : Type 0} (read_zset : Reader Z) (p : Platform Z) (env : Env) where
  unfoldable pub recover : ℕ → Bytes → Bytes → M (Storage Z) Bool
  recover type key payload =
      if type == k_set
      then (elim (deserialize_value read_zset payload) [
        | none ↦ undefined
        | some (val, rest) ↦ write_memtable p env key val >> pure true
      ])
      else pure false
