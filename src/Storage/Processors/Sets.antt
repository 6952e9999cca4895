-- ===== src/Storage/Processors/Sets.antt =====
-- `SetProcessor` of src/storage/processors.cpp. The overloads for std::string_view are the same
-- functions.
use eya_kv.Prelude.{
  ℕ, ◌+◌, Bool, true, false, ◌==◌, if◌then◌else◌, Option, none, some, List, [], ◌∷◌, length,
}
use eya_kv.Effects.{
  runtime_error, not_a_set, Result, returned, threw, bind_result, M, ◌>>=◌, ◌>>◌, pure, throw,
  undefined,
}
use eya_kv.Codec.Words.{Bytes}
use eya_kv.Codec.Containers.{
  bytes_eq, serialize_string, deserialize_string, put_all, set_contains, set_insert,
}
use eya_kv.Codec.Decimal.{to_string}
use eya_kv.Storage.OperationType.{k_s_add, k_s_rem, k_s_members}
use eya_kv.Storage.Value.{EyaValue, EValue, is_dead, new_value}
use eya_kv.Storage.MemTable.{Platform}
use eya_kv.Storage.Engine.{Env, Storage, log_command, look, get}
use eya_kv.Storage.Processors.{
  read_all, edit, revive, unless_dead, missing_key, missing_member, unsupported_type, text, texts,
  Response, success, error,
}

-- if(set.insert(m).second) added++, for each member
unfoldable pub add_members : List Bytes → List Bytes → ℕ × List Bytes
add_members [] set = (0, set)
add_members (m ∷ members) set =
    let (added, set') = add_members members (set_insert set m) in
    (if set_contains m set then added else added + 1, set')

-- erase of an unordered_set
unfoldable pub set_erase : Bytes → List Bytes → List Bytes
set_erase m [] = []
set_erase m (a ∷ set) = let rest = set_erase m set in if bytes_eq a m then set else a ∷ rest

-- if(set.erase(m)) removed++, for each member
unfoldable pub remove_members : List Bytes → List Bytes → ℕ × List Bytes
unfolding set_erase
remove_members [] set = (0, set)
remove_members (m ∷ members) set =
    let (removed, set') = remove_members members (set_erase m set) in
    (if set_contains m set then removed + 1 else removed, set')

module _ {Z : Type 0} where
  unfoldable pub as_set : EyaValue Z → Result (List Bytes)
  as_set (EyaValue.set l) = returned l
  as_set _ = threw (runtime_error not_a_set)

  unfoldable pub add_handler : ℕ → List Bytes → EValue Z → Result (ℕ × EValue Z)
  unfolding as_set revive add_members
  add_handler now members v = bind_result (as_set v.value) λ set.
      let (added, set') = add_members members (if is_dead now v then [] else set) in
      returned (added, record (revive now v) { value = EyaValue.set set' })

  unfoldable pub add_older : List Bytes → Option (EValue Z) → Result (ℕ × Option (EValue Z))
  unfolding as_set add_members
  add_older members none =
      let (added, set) = add_members members [] in
      returned (added, some (new_value (EyaValue.set set)))
  add_older members (some v) = bind_result (as_set v.value) λ set.
      let (added, set') = add_members members set in
      returned (added, some (record v { value = EyaValue.set set' }))

  unfoldable pub remove_handler : ℕ → List Bytes → EValue Z → Result (ℕ × EValue Z)
  unfolding as_set unless_dead remove_members
  remove_handler now members = unless_dead now 0 λ v. bind_result (as_set v.value) λ set.
      let (removed, set') = remove_members members set in
      returned (removed, record v { value = EyaValue.set set' })

  unfoldable pub remove_older : List Bytes → Option (EValue Z) → Result (ℕ × Option (EValue Z))
  unfolding as_set remove_members
  remove_older members none = returned (0, none)
  remove_older members (some v) = bind_result (as_set v.value) λ set.
      let (removed, set') = remove_members members set in
      returned (removed, some (record v { value = EyaValue.set set' }))

module _ {Z : Type 0} (p : Platform Z) (env : Env) where
  unfoldable pub s_add : Bool → Bytes → List Bytes → M (Storage Z) ℕ
  unfolding log_command edit add_handler add_older
  s_add is_recover key members =
      log_command env is_recover k_s_add key (put_all serialize_string members)
      >> edit p env key (add_handler env.now members) (add_older members)

  unfoldable pub s_rem : Bool → Bytes → List Bytes → M (Storage Z) ℕ
  unfolding log_command edit remove_handler remove_older
  s_rem is_recover key members =
      log_command env is_recover k_s_rem key (put_all serialize_string members)
      >> edit p env key (remove_handler env.now members) (remove_older members)

  unfoldable pub s_members : Bytes → M (Storage Z) (List Bytes)
  unfolding as_set
  s_members key = look (get p env key) >>= λ v. elim v [
    | none ↦ pure []
    | some val ↦ (elim (as_set val) [ threw e ↦ throw e | returned set ↦ pure set ])
  ]

  -- a command with at least one member
  unfoldable pub members_command :
      (List Bytes → M (Storage Z) ℕ) → List Bytes → M (Storage Z) (Response Z)
  members_command command [] = pure (error missing_member)
  members_command command (m ∷ members) =
      command (m ∷ members) >>= λ n. pure (success (text (to_string n)))

  unfoldable pub execute : ℕ → List Bytes → M (Storage Z) (Response Z)
  unfolding members_command
  execute type [] = pure (error missing_key)
  execute type (key ∷ args) =
      if type == k_s_add
      then members_command (s_add false key) args
      else if type == k_s_rem
      then members_command (s_rem false key) args
      else if type == k_s_members
      then (s_members key >>= λ l. pure (success (texts l)))
      else pure (error unsupported_type)

  -- A string has at least the four bytes of its length, so that as many turns as bytes are enough.
  unfoldable pub replay_members : (List Bytes → M (Storage Z) ℕ) → Bytes → M (Storage Z) Bool
  unfolding read_all
  replay_members command payload = elim (read_all deserialize_string (length payload) payload) [
    | none ↦ undefined
    | some members ↦ command members >>= λ n. pure true
  ]

  unfoldable pub recover : ℕ → Bytes → Bytes → M (Storage Z) Bool
  unfolding replay_members
  recover type key payload =
      if type == k_s_add
      then replay_members (s_add true key) payload
      else if type == k_s_rem
      then replay_members (s_rem true key) payload
      else pure false
