-- ===== src/Storage/Processors/Deque.antt =====
-- `DequeProcessor` of src/storage/processors.cpp. The overloads for std::string_view are the same
-- functions but for the log of the two pushes, and for a conversion in `execute`.
pub mod Execute
pub mod Range
pub mod Ends
use eya_kv.Prelude.{
  ℕ, zero, suc, ◌+◌, ◌-◌, Bool, true, false, ◌==◌, leb, ltb, if◌then◌else◌, Option, none, some,
  List, [], ◌∷◌, ◌++◌, length, get_elem?, get_last?, ℤ, pos, negsuc, add_size,
}
use eya_kv.Effects.{
  Exception, runtime_error, not_a_list, Result, returned, threw, bind_result, M, ◌>>=◌, ◌>>◌, pure,
  throw, from_option,
}
use eya_kv.Codec.Words.{Bytes}
use eya_kv.Codec.Containers.{serialize_string, serialize_vector, put_all}
use eya_kv.Codec.Decimal.{to_string}
use eya_kv.Structures.Lru.{pop_back}
use eya_kv.Storage.OperationType.{k_l_push, k_l_pop, k_r_push, k_r_pop, k_l_pop_n, k_r_pop_n}
use eya_kv.Storage.Value.{EyaValue, EValue, deque, is_dead, new_value}
use eya_kv.Storage.MemTable.{Platform}
use eya_kv.Storage.Engine.{Env, Storage, log_command, look, get}
use eya_kv.Storage.Processors.{edit, revive, unless_dead}

-- dq.push_front of each value
unfoldable pub push_fronts : List Bytes → List Bytes → List Bytes
push_fronts [] dq = dq
push_fronts (value ∷ values) dq = push_fronts values (value ∷ dq)

-- dq.push_back of each value
unfoldable pub push_backs : List Bytes → List Bytes → List Bytes
push_backs [] dq = dq
push_backs (value ∷ values) dq = push_backs values (dq ++ value ∷ [])

-- the loops `for (size_t i = 0; i < n && !dq.empty(); ++i)`: what is popped and what is left
unfoldable pub pop_fronts : ℕ → List Bytes → List Bytes × List Bytes
pop_fronts zero dq = ([], dq)
pop_fronts (suc n) [] = ([], [])
pop_fronts (suc n) (front ∷ dq) = let (popped, rest) = pop_fronts n dq in (front ∷ popped, rest)

unfoldable pub pop_backs : ℕ → List Bytes → List Bytes × List Bytes
unfolding pop_back
pop_backs zero dq = ([], dq)
pop_backs (suc n) dq = elim (get_last? dq) [
  | none ↦ ([], dq)
  | some back ↦ (let (popped, rest) = pop_backs n (pop_back dq) in (back ∷ popped, rest))
]

-- an index from the end
unfoldable pub wrap_index : ℤ → ℕ → ℤ
wrap_index (pos i) size = pos i
wrap_index (negsuc i) size = add_size (negsuc i) size

-- if (start < 0) start = 0;
unfoldable pub clamp_start : ℤ → ℕ
clamp_start (pos i) = i
clamp_start (negsuc i) = 0

-- if (end >= (long long)dq.size()) end = dq.size() - 1;
unfoldable pub clamp_end : ℤ → ℕ → ℤ
clamp_end (pos i) size =
    if leb size i then (if size == 0 then negsuc 0 else pos (size - 1)) else pos i
clamp_end (negsuc i) size = negsuc i

-- dq[i] for `count` indexes from `i` on; `none` is a read past the end
unfoldable pub elements : ℕ → ℕ → List Bytes → Option (List Bytes)
elements zero i dq = some []
elements (suc count) i dq = elim (get_elem? dq i) [
  | none ↦ none
  | some x ↦ (elim (elements count (i + 1) dq) [ none ↦ none | some xs ↦ some (x ∷ xs) ])
]

-- the end of l_range
unfoldable pub elements_between : ℕ → ℤ → List Bytes → Option (List Bytes)
unfolding elements
elements_between start (negsuc end) dq = some []
elements_between start (pos end) dq =
    if ltb end start then some [] else elements (end + 1 - start) start dq

unfoldable pub range_of : ℤ → ℤ → List Bytes → Option (List Bytes)
unfolding wrap_index clamp_start clamp_end elements_between
range_of start end dq =
    let size = length dq in
    elements_between (clamp_start (wrap_index start size)) (clamp_end (wrap_index end size) size) dq

-- the end of l_get
unfoldable pub element_of : ℤ → List Bytes → Option (Option Bytes)
unfolding wrap_index
element_of index dq = elim (wrap_index index (length dq)) [
  | negsuc i ↦ some none
  | pos i ↦
      if leb (length dq) i
      then some none
      else elim (get_elem? dq i) [ none ↦ none | some x ↦ some (some x) ]
]

module _ {Z : Type 0} where
  unfoldable pub as_deque : EyaValue Z → Result (List Bytes)
  as_deque (deque dq) = returned dq
  as_deque _ = threw (runtime_error not_a_list)

  -- the callbacks of l_push and r_push
  unfoldable pub push_handler :
      (List Bytes → List Bytes → List Bytes) → ℕ → List Bytes → EValue Z → Result (ℕ × EValue Z)
  unfolding as_deque revive
  push_handler push now values v = bind_result (as_deque v.value) λ dq.
      let dq' = push values (if is_dead now v then [] else dq) in
      returned (length dq', record (revive now v) { value = deque dq' })

  -- l_push and r_push on an older value, or on none
  unfoldable pub push_older :
      (List Bytes → List Bytes → List Bytes)
      → List Bytes
      → Option (EValue Z)
      → Result (ℕ × Option (EValue Z))
  unfolding as_deque
  push_older push values none =
      let dq' = push values [] in returned (length dq', some (new_value (deque dq')))
  push_older push values (some v) =
      bind_result (as_deque v.value) λ dq.
        let dq' = push values dq in returned (length dq', some (record v { value = deque dq' }))

  -- the callbacks of l_pop and r_pop, with what is taken and left
  unfoldable pub pop_handler :
      (List Bytes → Option (Bytes × List Bytes)) → ℕ → EValue Z → Result (Option Bytes × EValue Z)
  unfolding as_deque unless_dead
  pop_handler pop now = unless_dead now none λ v. bind_result (as_deque v.value) λ dq.
      elim (pop dq) [
        | none ↦ returned (none, v)
        | some (x, rest) ↦ returned (some x, record v { value = deque rest })
      ]

  unfoldable pub pop_older :
      (List Bytes → Option (Bytes × List Bytes))
      → Option (EValue Z)
      → Result (Option Bytes × Option (EValue Z))
  unfolding as_deque
  pop_older pop none = returned (none, none)
  pop_older pop (some v) = bind_result (as_deque v.value) λ dq. elim (pop dq) [
    | none ↦ returned (none, none)
    | some (x, rest) ↦ returned (some x, some (record v { value = deque rest }))
  ]

  -- the callbacks of l_pop_n and r_pop_n
  unfoldable pub pop_n_handler :
      (List Bytes → List Bytes × List Bytes) → ℕ → EValue Z → Result (List Bytes × EValue Z)
  unfolding as_deque unless_dead
  pop_n_handler pop now = unless_dead now [] λ v.
      bind_result (as_deque v.value)
        λ dq. let (popped, rest) = pop dq in returned (popped, record v { value = deque rest })

  unfoldable pub pop_n_older :
      (List Bytes → List Bytes × List Bytes)
      → Option (EValue Z)
      → Result (List Bytes × Option (EValue Z))
  unfolding as_deque
  pop_n_older pop none = returned ([], none)
  pop_n_older pop (some v) =
      bind_result (as_deque v.value) λ dq.
        let (popped, rest) = pop dq in returned (popped, some (record v { value = deque rest }))

-- front and pop_front
unfoldable pub take_front : List Bytes → Option (Bytes × List Bytes)
take_front [] = none
take_front (x ∷ dq) = some (x, dq)

-- back and pop_back
unfoldable pub take_back : List Bytes → Option (Bytes × List Bytes)
unfolding pop_back
take_back dq = elim (get_last? dq) [ none ↦ none | some x ↦ some (x, pop_back dq) ]

module _ {Z : Type 0} (p : Platform Z) (env : Env) (is_recover : Bool) (key : Bytes) where
  unfoldable pub l_push : List Bytes → M (Storage Z) ℕ
  unfolding log_command edit push_handler push_older push_fronts
  l_push values =
      log_command env is_recover k_l_push key (serialize_vector values)
      >> edit p env key (push_handler push_fronts env.now values) (push_older push_fronts values)

  unfoldable pub r_push : List Bytes → M (Storage Z) ℕ
  unfolding log_command edit push_handler push_older push_backs
  r_push values =
      log_command env is_recover k_r_push key (serialize_vector values)
      >> edit p env key (push_handler push_backs env.now values) (push_older push_backs values)

  unfoldable pub l_push_view : List Bytes → M (Storage Z) ℕ
  unfolding log_command edit push_handler push_older push_fronts
  l_push_view values =
      log_command env is_recover k_l_push key (put_all serialize_string values)
      >> edit p env key (push_handler push_fronts env.now values) (push_older push_fronts values)

  unfoldable pub r_push_view : List Bytes → M (Storage Z) ℕ
  unfolding log_command edit push_handler push_older push_backs
  r_push_view values =
      log_command env is_recover k_r_push key (put_all serialize_string values)
      >> edit p env key (push_handler push_backs env.now values) (push_older push_backs values)

  unfoldable pub l_pop : M (Storage Z) (Option Bytes)
  unfolding log_command edit pop_handler pop_older take_front
  l_pop =
      log_command env is_recover k_l_pop key []
      >> edit p env key (pop_handler take_front env.now) (pop_older take_front)

  unfoldable pub r_pop : M (Storage Z) (Option Bytes)
  unfolding log_command edit pop_handler pop_older take_back
  r_pop =
      log_command env is_recover k_r_pop key []
      >> edit p env key (pop_handler take_back env.now) (pop_older take_back)

  unfoldable pub l_pop_n : ℕ → M (Storage Z) (List Bytes)
  unfolding log_command edit pop_n_handler pop_n_older pop_fronts
  l_pop_n n =
      log_command env is_recover k_l_pop_n key (serialize_string (to_string n))
      >> edit p env key (pop_n_handler (pop_fronts n) env.now) (pop_n_older (pop_fronts n))

  unfoldable pub r_pop_n : ℕ → M (Storage Z) (List Bytes)
  unfolding log_command edit pop_n_handler pop_n_older pop_backs
  r_pop_n n =
      log_command env is_recover k_r_pop_n key (serialize_string (to_string n))
      >> edit p env key (pop_n_handler (pop_backs n) env.now) (pop_n_older (pop_backs n))

module _ {Z : Type 0} (p : Platform Z) (env : Env) (key : Bytes) where
  -- the deque that a read command finds, if there is a value
  unfoldable pub read_deque : M (Storage Z) (Option (List Bytes))
  unfolding as_deque
  read_deque = look (get p env key) >>= λ v. elim v [
    | none ↦ pure none
    | some val ↦ (elim (as_deque val) [ threw e ↦ throw e | returned dq ↦ pure (some dq) ])
  ]

  unfoldable pub l_range : ℤ → ℤ → M (Storage Z) (List Bytes)
  unfolding read_deque range_of
  l_range start end =
      read_deque >>= λ v. elim v [ none ↦ pure [] | some dq ↦ from_option (range_of start end dq) ]

  unfoldable pub l_get : ℤ → M (Storage Z) (Option Bytes)
  unfolding read_deque element_of
  l_get index =
      read_deque >>= λ v. elim v [ none ↦ pure none | some dq ↦ from_option (element_of index dq) ]

  unfoldable pub l_size : M (Storage Z) ℕ
  unfolding read_deque
  l_size = read_deque >>= λ v. elim v [ none ↦ pure 0 | some dq ↦ pure (length dq) ]
