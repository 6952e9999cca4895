-- ===== src/Storage/Processors/Hashes.antt =====
-- `HashProcessor` of src/storage/processors.cpp. The overloads for std::string_view are the same
-- functions.
use eya_kv.Prelude.{
  ℕ, ◌+◌, Bool, true, false, ◌==◌, if◌then◌else◌, Option, none, some, List, [], ◌∷◌, map, length,
}
use eya_kv.Effects.{
  runtime_error, not_a_hash, Result, returned, threw, bind_result, M, ◌>>=◌, ◌>>◌, pure, throw,
  undefined,
}
use eya_kv.Codec.Words.{Bytes}
use eya_kv.Codec.Containers.{
  serialize_string, serialize_pair, deserialize_pair, deserialize_string, put_all, map_find,
}
use eya_kv.Codec.Decimal.{to_string}
use eya_kv.Structures.Lru.{map_erase, map_put}
use eya_kv.Storage.OperationType.{k_h_set, k_h_get, k_h_del, k_h_keys, k_h_values, k_h_entries}
use eya_kv.Storage.Value.{EyaValue, EValue, string, hash, is_dead, new_value}
use eya_kv.Storage.MemTable.{Platform}
use eya_kv.Storage.Engine.{Env, Storage, log_command, look, get}
use eya_kv.Storage.Processors.{
  read_all, edit, revive, unless_dead, missing_key, missing_field, wrong_arguments, not_found,
  unsupported_type, text, texts, pairs, Response, success, error,
}

-- if (map.find(field) == map.end()) new_fields++; map[field] = value; for each pair
unfoldable pub set_fields : List (Bytes × Bytes) → List (Bytes × Bytes) → ℕ × List (Bytes × Bytes)
unfolding map_put
set_fields [] m = (0, m)
set_fields ((field, value) ∷ field_values) m =
    let (new_fields, m') = set_fields field_values (map_put field value m) in
    (elim (map_find field m) [ none ↦ new_fields + 1 | some old ↦ new_fields ], m')

-- map[field] = value; new_fields++; for each pair
unfoldable pub set_all_fields :
    List (Bytes × Bytes) → List (Bytes × Bytes) → ℕ × List (Bytes × Bytes)
unfolding map_put
set_all_fields [] m = (0, m)
set_all_fields ((field, value) ∷ field_values) m =
    let (new_fields, m') = set_all_fields field_values (map_put field value m) in
    (new_fields + 1, m')

-- if (map.erase(field)) deleted_count++, for each field
unfoldable pub erase_fields : List Bytes → List (Bytes × Bytes) → ℕ × List (Bytes × Bytes)
unfolding map_erase
erase_fields [] m = (0, m)
erase_fields (field ∷ fields) m =
    let (deleted, m') = erase_fields fields (map_erase field m) in
    (elim (map_find field m) [ none ↦ deleted | some old ↦ deleted + 1 ], m')

-- The arguments two by two.
unfoldable pub pair_up : List Bytes → List (Bytes × Bytes)
pair_up (field ∷ value ∷ args) = (field, value) ∷ pair_up args
pair_up _ = []

-- whether the number of arguments after the key is odd
unfoldable pub is_odd : List Bytes → Bool
is_odd [] = false
is_odd (a ∷ []) = true
is_odd (a ∷ b ∷ args) = is_odd args

module _ {Z : Type 0} where
  unfoldable pub as_hash : EyaValue Z → Result (List (Bytes × Bytes))
  as_hash (hash m) = returned m
  as_hash _ = threw (runtime_error not_a_hash)

  unfoldable pub set_handler : ℕ → List (Bytes × Bytes) → EValue Z → Result (ℕ × EValue Z)
  unfolding as_hash revive set_fields
  set_handler now field_values v = bind_result (as_hash v.value) λ m.
      let (new_fields, m') = set_fields field_values (if is_dead now v then [] else m) in
      returned (new_fields, record (revive now v) { value = hash m' })

  unfoldable pub set_older :
      List (Bytes × Bytes) → Option (EValue Z) → Result (ℕ × Option (EValue Z))
  unfolding as_hash set_fields set_all_fields
  set_older field_values none =
      let (new_fields, m) = set_all_fields field_values [] in
      returned (new_fields, some (new_value (hash m)))
  set_older field_values (some v) = bind_result (as_hash v.value) λ m.
      let (new_fields, m') = set_fields field_values m in
      returned (new_fields, some (record v { value = hash m' }))

  unfoldable pub del_handler : ℕ → List Bytes → EValue Z → Result (ℕ × EValue Z)
  unfolding as_hash unless_dead erase_fields
  del_handler now fields = unless_dead now 0 λ v. bind_result (as_hash v.value) λ m.
      let (deleted, m') = erase_fields fields m in returned (deleted, record v { value = hash m' })

  unfoldable pub del_older : List Bytes → Option (EValue Z) → Result (ℕ × Option (EValue Z))
  unfolding as_hash erase_fields
  del_older fields none = returned (0, none)
  del_older fields (some v) = bind_result (as_hash v.value) λ m.
      let (deleted, m') = erase_fields fields m in
      returned (deleted, some (record v { value = hash m' }))

module _ {Z : Type 0} (p : Platform Z) (env : Env) where
  unfoldable pub h_set : Bool → Bytes → List (Bytes × Bytes) → M (Storage Z) ℕ
  unfolding log_command edit set_handler set_older
  h_set is_recover key field_values =
      log_command env is_recover k_h_set key (put_all serialize_pair field_values)
      >> edit p env key (set_handler env.now field_values) (set_older field_values)

  unfoldable pub h_del : Bool → Bytes → List Bytes → M (Storage Z) ℕ
  unfolding log_command edit del_handler del_older
  h_del is_recover key fields =
      log_command env is_recover k_h_del key (put_all serialize_string fields)
      >> edit p env key (del_handler env.now fields) (del_older fields)

  -- the map that a read command finds, or an empty one
  unfoldable pub h_entries : Bytes → M (Storage Z) (List (Bytes × Bytes))
  unfolding as_hash
  h_entries key = look (get p env key) >>= λ v. elim v [
    | none ↦ pure []
    | some val ↦ (elim (as_hash val) [ threw e ↦ throw e | returned m ↦ pure m ])
  ]

  unfoldable pub h_get : Bytes → Bytes → M (Storage Z) (Option Bytes)
  unfolding as_hash
  h_get key field = look (get p env key) >>= λ v. elim v [
    | none ↦ pure none
    | some val ↦ (elim (as_hash val) [ threw e ↦ throw e | returned m ↦ pure (map_find field m) ])
  ]

  unfoldable pub h_keys : Bytes → M (Storage Z) (List Bytes)
  unfolding as_hash
  h_keys key = look (get p env key) >>= λ v. elim v [
    | none ↦ pure []
    | some val ↦ (elim (as_hash val) [
      | threw e ↦ throw e
      | returned m ↦ pure (map (λ (e : Bytes × Bytes). e.0) m)
    ])
  ]

  unfoldable pub h_values : Bytes → M (Storage Z) (List Bytes)
  unfolding as_hash
  h_values key = look (get p env key) >>= λ v. elim v [
    | none ↦ pure []
    | some val ↦ (elim (as_hash val) [
      | threw e ↦ throw e
      | returned m ↦ pure (map (λ (e : Bytes × Bytes). e.1) m)
    ])
  ]

  unfoldable pub set_command : Bytes → List Bytes → M (Storage Z) (Response Z)
  unfolding pair_up is_odd
  set_command key [] = pure (error wrong_arguments)
  set_command key (a ∷ args) =
      if is_odd (a ∷ args)
      then pure (error wrong_arguments)
      else (h_set false key (pair_up (a ∷ args)) >>= λ n. pure (success (text (to_string n))))

  unfoldable pub get_command : Bytes → List Bytes → M (Storage Z) (Response Z)
  get_command key [] = pure (error missing_field)
  get_command key (field ∷ args) = h_get key field >>= λ v. elim v [
    | none ↦ pure (error not_found)
    | some x ↦ pure (success (text x))
  ]

  unfoldable pub del_command : Bytes → List Bytes → M (Storage Z) (Response Z)
  del_command key [] = pure (error missing_field)
  del_command key (field ∷ fields) =
      h_del false key (field ∷ fields) >>= λ n. pure (success (text (to_string n)))

  unfoldable pub execute : ℕ → List Bytes → M (Storage Z) (Response Z)
  unfolding set_command get_command del_command
  execute type [] = pure (error missing_key)
  execute type (key ∷ args) =
      if type == k_h_set
      then set_command key args
      else if type == k_h_get
      then get_command key args
      else if type == k_h_del
      then del_command key args
      else if type == k_h_keys
      then (h_keys key >>= λ l. pure (success (texts l)))
      else if type == k_h_values
      then (h_values key >>= λ l. pure (success (texts l)))
      else if type == k_h_entries
      then (h_entries key >>= λ m.
          pure (success (pairs (map (λ (e : Bytes × Bytes). (e.0, string e.1)) m))))
      else pure (error unsupported_type)

  unfoldable pub recover : ℕ → Bytes → Bytes → M (Storage Z) Bool
  unfolding read_all
  recover type key payload =
      if type == k_h_set
      then (elim (read_all deserialize_pair (length payload) payload) [
        | none ↦ undefined
        | some field_values ↦ h_set true key field_values >>= λ n. pure true
      ])
      else if type == k_h_del
      then (elim (read_all deserialize_string (length payload) payload) [
        | none ↦ undefined
        | some fields ↦ h_del true key fields >>= λ n. pure true
      ])
      else pure false
