-- ===== src/Storage/Processors.antt =====
-- What the processors of src/storage/processors.cpp share: the form of their operations, and the
-- `Response` of include/network/protocol/protocol.h that they give.
pub mod Payload
pub mod Deque
pub mod Sets
pub mod Hashes
pub mod Strings
use eya_kv.Prelude.{
  ℕ, zero, suc, Bool, true, false, if◌then◌else◌, Option, none, some, List, [], ◌∷◌, ◌++◌,
}
use eya_kv.Effects.{
  Exception, out_of_range, plain_exception, Result, returned, threw, M, ◌>>=◌, ◌>>◌, pure, throw,
  from_result, try_catch,
}
use eya_kv.Codec.Words.{Bytes, Reader}
use eya_kv.Storage.Value.{EyaValue, EValue, is_dead, new_value}
use eya_kv.Storage.MemTable
use eya_kv.Storage.MemTable.{Platform}
use eya_kv.Storage.Engine.{Env, Storage, with_memtable, look, get_from_old, write_memtable}

-- The texts of Response::error.
pub data Reason : Type 0 where
  missing_arguments missing_key missing_member missing_value missing_field missing_range : Reason
  missing_index missing_count wrong_arguments is_empty not_found unsupported_type : Reason
  read_only storage_closed too_many_arguments unknown_command unknown_error : Reason
  thrown : Exception → Reason

-- The loops `while (offset < payload.size())` of `recover`, that read one thing after another. A thing
-- has a byte at least, so that as many turns as there are bytes are enough.
unfoldable pub read_all {ℓ} : {A : Type ℓ} → Reader A → ℕ → Bytes → Option (List A)
read_all read fuel [] = some []
read_all read zero (b ∷ payload) = none
read_all read (suc fuel) (b ∷ payload) = elim (read (b ∷ payload)) [
  | none ↦ none
  | some (a, rest) ↦ (elim (read_all read fuel rest) [ none ↦ none | some l ↦ some (a ∷ l) ])
]

module _ (Z : Type 0) where
  pub data ResponseData : Type 0 where
    monostate : ResponseData
    text : Bytes → ResponseData
    texts : List Bytes → ResponseData
    pairs : List (Bytes × EyaValue Z) → ResponseData
    value : EyaValue Z → ResponseData

  -- Response::success and Response::error
  pub data Response : Type 0 where
    success : ResponseData → Response
    error : Reason → Response

module _ {Z : Type 0} where
  -- The clauses that end each operation: a key that the memtable has not is looked for elsewhere, and
  -- `throw e;` throws a copy of the base class.
  unfoldable pub on_out_of_range : {A : Type 0} → M (Storage Z) A → Exception → M (Storage Z) A
  on_out_of_range m out_of_range = m
  on_out_of_range m _ = throw plain_exception

  -- The try block of an operation: `fast` is the callback on the value that the memtable has, `slow`
  -- what is done with an older value or none, and which value is written then.
  unfoldable pub edit :
      {A : Type 0}
      → Platform Z
      → Env
      → Bytes
      → (EValue Z → Result (A × EValue Z))
      → (Option (EValue Z) → Result (A × Option (EValue Z)))
      → M (Storage Z) A
  unfolding on_out_of_range
  edit p env key fast slow =
      try_catch (with_memtable (MemTable.handle_value p key fast) >>= λ (a, old). pure a) (
        on_out_of_range (
          look (get_from_old p env key) >>= λ v. from_result (slow v) >>= λ (a, new). elim new [
            | none ↦ pure a
            | some v' ↦ write_memtable p env key v' >> pure a
          ]))

  -- A value that is deleted or expired is brought back empty by a command that adds to it.
  unfoldable pub revive : ℕ → EValue Z → EValue Z
  revive now v = if is_dead now v then record v { deleted = false; expire_time = 0 } else v

  -- Where a command that takes away finds a value that is deleted or expired, it leaves it.
  unfoldable pub unless_dead :
      {A : Type 0} → ℕ → A → (EValue Z → Result (A × EValue Z)) → EValue Z → Result (A × EValue Z)
  unless_dead now a f v = if is_dead now v then returned (a, v) else f v
