-- ===== src/Storage/Processors/Deque/Execute.antt =====
-- `DequeProcessor::execute`, both overloads, and `DequeProcessor::recover`.
use eya_kv.Prelude.{ℕ, Bool, true, false, ◌==◌, if◌then◌else◌, Option, none, some, List, [], ◌∷◌}
use eya_kv.Effects.{Result, returned, bind_result, M, ◌>>=◌, pure, from_result, undefined}
use eya_kv.Codec.Words.{Bytes}
use eya_kv.Codec.Containers.{deserialize_string, deserialize_vector}
use eya_kv.Codec.Decimal.{to_string, stoll, stoull, to_size}
use eya_kv.Storage.OperationType.{
  k_l_push, k_l_pop, k_r_push, k_r_pop, k_l_range, k_l_get, k_l_size, k_l_pop_n, k_r_pop_n,
}
use eya_kv.Storage.MemTable.{Platform}
use eya_kv.Storage.Engine.{Env, Storage}
use eya_kv.Storage.Processors.{
  Reason, missing_key, missing_value, missing_range, missing_index, missing_count, is_empty,
  not_found, unsupported_type, text, texts, Response, success, error,
}
use eya_kv.Storage.Processors.Deque.{
  l_push, r_push, l_push_view, r_push_view, l_pop, r_pop, l_pop_n, r_pop_n, l_range, l_get, l_size,
}

module _ {Z : Type 0} where
  unfoldable pub size_reply : ℕ → M (Storage Z) (Response Z)
  size_reply n = pure (success (text (to_string n)))

  unfoldable pub element_reply : Reason → Option Bytes → M (Storage Z) (Response Z)
  element_reply reason none = pure (error reason)
  element_reply reason (some x) = pure (success (text x))

  unfoldable pub list_reply : List Bytes → M (Storage Z) (Response Z)
  list_reply l = pure (success (texts l))

  -- a pop with no count, or with one
  unfoldable pub pop_command :
      M (Storage Z) (Option Bytes)
      → (ℕ → M (Storage Z) (List Bytes))
      → List Bytes
      → M (Storage Z) (Response Z)
  unfolding element_reply list_reply
  pop_command pop pop_n [] = pop >>= element_reply is_empty
  pop_command pop pop_n (count ∷ args) = from_result (stoull count) >>= λ n. pop_n n >>= list_reply

  unfoldable pub push_command :
      (List Bytes → M (Storage Z) ℕ) → List Bytes → M (Storage Z) (Response Z)
  unfolding size_reply
  push_command push [] = pure (error missing_value)
  push_command push (value ∷ values) = push (value ∷ values) >>= size_reply

  -- a pop that must have a count
  unfoldable pub pop_n_command :
      (Bytes → Result ℕ)
      → (ℕ → M (Storage Z) (List Bytes))
      → List Bytes
      → M (Storage Z) (Response Z)
  unfolding list_reply
  pop_n_command read_count pop_n [] = pure (error missing_count)
  pop_n_command read_count pop_n (count ∷ args) =
      from_result (read_count count) >>= λ n. pop_n n >>= list_reply

-- the conversion of stoll to size_t
unfoldable pub stoll_size : Bytes → Result ℕ
stoll_size s = bind_result (stoll s) λ n. returned (to_size n)

module _ {Z : Type 0} (p : Platform Z) (env : Env) where
  unfoldable pub range_command : Bytes → List Bytes → M (Storage Z) (Response Z)
  unfolding list_reply
  range_command key (start ∷ end ∷ args) = from_result (stoll start) >>= λ i.
      from_result (stoll end) >>= λ j. l_range p env key i j >>= list_reply
  range_command key _ = pure (error missing_range)

  unfoldable pub get_command : Bytes → List Bytes → M (Storage Z) (Response Z)
  unfolding element_reply
  get_command key [] = pure (error missing_index)
  get_command key (index ∷ args) =
      from_result (stoll index) >>= λ i. l_get p env key i >>= element_reply not_found

  -- The switch of both overloads: they differ in the two pushes and in the reading of a count.
  unfoldable pub switch :
      (Bytes → List Bytes → M (Storage Z) ℕ)
      → (Bytes → List Bytes → M (Storage Z) ℕ)
      → (Bytes → Result ℕ)
      → ℕ
      → List Bytes
      → M (Storage Z) (Response Z)
  unfolding push_command pop_command size_reply range_command get_command pop_n_command
  switch push_left push_right read_count type [] = pure (error missing_key)
  switch push_left push_right read_count type (key ∷ args) =
      if type == k_l_push
      then push_command (push_left key) args
      else if type == k_r_push
      then push_command (push_right key) args
      else if type == k_l_pop
      then pop_command (l_pop p env false key) (l_pop_n p env false key) args
      else if type == k_r_pop
      then pop_command (r_pop p env false key) (r_pop_n p env false key) args
      else if type == k_l_size
      then (l_size p env key >>= size_reply)
      else if type == k_l_range
      then range_command key args
      else if type == k_l_get
      then get_command key args
      else if type == k_l_pop_n
      then pop_n_command read_count (l_pop_n p env false key) args
      else if type == k_r_pop_n
      then pop_n_command read_count (r_pop_n p env false key) args
      else pure (error unsupported_type)

  unfoldable pub execute : ℕ → List Bytes → M (Storage Z) (Response Z)
  unfolding switch stoll_size
  execute = switch (l_push p env false) (r_push p env false) stoll_size

  unfoldable pub execute_view : ℕ → List Bytes → M (Storage Z) (Response Z)
  unfolding switch
  execute_view = switch (l_push_view p env false) (r_push_view p env false) stoull

  -- the values of a push, from its record
  unfoldable pub replay_push : (List Bytes → M (Storage Z) ℕ) → Bytes → M (Storage Z) Bool
  replay_push push payload = elim (deserialize_vector payload) [
    | none ↦ undefined
    | some (values, rest) ↦ push values >>= λ n. pure true
  ]

  -- the count of a pop, from its record
  unfoldable pub replay_pop_n : (ℕ → M (Storage Z) (List Bytes)) → Bytes → M (Storage Z) Bool
  unfolding stoll_size
  replay_pop_n pop_n payload = elim (deserialize_string payload) [
    | none ↦ undefined
    | some (count, rest) ↦ from_result (stoll_size count) >>= λ n. pop_n n >>= λ l. pure true
  ]

  unfoldable pub recover : ℕ → Bytes → Bytes → M (Storage Z) Bool
  unfolding replay_push replay_pop_n
  recover type key payload =
      if type == k_l_push
      then replay_push (l_push p env true key) payload
      else if type == k_r_push
      then replay_push (r_push p env true key) payload
      else if type == k_l_pop
      then (l_pop p env true key >>= λ x. pure true)
      else if type == k_r_pop
      then (r_pop p env true key >>= λ x. pure true)
      else if type == k_l_pop_n
      then replay_pop_n (l_pop_n p env true key) payload
      else if type == k_r_pop_n
      then replay_pop_n (r_pop_n p env true key) payload
      else pure false
