-- ===== src/Examples/Processors.antt =====
-- The storage engine, its commands and its recovery at concrete inputs.
use eya_kv.Prelude.{
  ◌≢◌, ℕ, ◌≡◌, ◌⊎◌, refl, Bool, true, false, Option, none, some, List, [], ◌∷◌, ◌++◌, replicate,
  length, pos, negsuc, arith,
}
use eya_kv.Effects.{Result, returned, M, ◌>>◌, ◌>>=◌, pure}
use eya_kv.Codec.Words.{Bytes, put_u8, get_u8}
use eya_kv.Codec.Containers.{put_all, serialize_string, serialize_vector}
use eya_kv.Structures.Bloom
use eya_kv.Structures.Bloom.{may_contain}
use eya_kv.Structures.SkipList
use eya_kv.Structures.SkipList.{new_skip_list}
use eya_kv.Storage.Value.{EyaValue, EValue, new_value, serialize_value, deserialize_value, is_dead}
use eya_kv.Storage.Value.RoundTrip.{deserialize_value-serialize_value}
use eya_kv.Storage.MemTable
use eya_kv.Storage.MemTable.{MemTable, Platform, functions}
use eya_kv.Storage.Engine
use eya_kv.Storage.Engine.{Env, Storage, append_log, rotate_memtable, remove_keys}
use eya_kv.Storage.OperationType.{k_l_push}
use eya_kv.Storage.Processors.Deque.{
  l_push, r_push, l_range, l_push_view, push_handler, pop_n_handler, push_fronts, push_backs,
  pop_fronts, pop_backs,
}
use eya_kv.Storage.Processors.Deque.Range.{l_range-slice}
use eya_kv.Storage.Processors.Deque.Ends.{pop_n-push}
use eya_kv.Storage.Processors.Sets.{s_add}
use eya_kv.Storage.OperationType.Partition.{kinds, kinds-eq-one}
use eya_kv.Storage.Recovery.{replay}
use eya_kv.Storage.Recovery.Redo.{Write, run, record_of, replay-run}
use eya_kv.Storage.Recovery.Lost.{replay-push_view}

-- A sorted set is a byte here.
abbrev pub platform : Platform ℕ
platform = record {
  sizeof_string = 32;
  sizeof_deque = 80;
  sizeof_set = 56;
  sizeof_map = 56;
  sizeof_value = 96;
  sizeof_node = 152;
  sizeof_pointer = 8;
  sizeof_memtable = 400;
  zset_usage = λ z. 1;
  scaled = λ n. n;
}

abbrev pub env : Env
env = record {
  level = 1;
  now = 100;
  device = record { written = 1000; spilled = 0; flushed = true; synced = true };
  filename = 8 ∷ [];
}

-- A memtable whose Bloom filters have one byte.
abbrev pub memtable : MemTable ℕ
memtable = record {
  memtable_size = 0;
  tables = replicate 16 (new_skip_list (functions platform) 2);
  bloom_filters = replicate 16 (record { bits = 0 ∷ []; num_hash_functions = 1 });
  size = 0;
}

abbrev pub storage : Storage ℕ
storage = record {
  memtable = memtable;
  immutable_memtables = [];
  current_wal_filename = 7 ∷ [];
  wal = record {
    files = (7 ∷ [], []) ∷ [];
    wal_file = some (7 ∷ []);
    sync_on_write = true;
    buffered = [];
    modified = false;
  };
  enable_wal = true;
  memtable_size = 1024;
  skiplist_max_level = 2;
  sstable_get = λ key. none;
}

-- no file is open while the records are replayed
abbrev recovering : Storage ℕ
recovering = record storage {
  wal = record {
    files = (7 ∷ [], []) ∷ [];
    wal_file = none;
    sync_on_write = true;
    buffered = [];
    modified = false;
  };
}

abbrev no_zset : Env → ℕ → Bytes → Bytes → M (Storage ℕ) Bool
no_zset e type key payload = pure false

abbrev letters : List Bytes
letters = (97 ∷ []) ∷ (98 ∷ []) ∷ (99 ∷ []) ∷ []

abbrev after {ℓ} : {A : Type ℓ} → Option (Result A × Storage ℕ) → Storage ℕ
after none = storage
after (some (r, s)) = s

-- the list a, b, c at the key k
abbrev stored : Storage ℕ
stored = after (r_push platform env false (107 ∷ []) letters storage)

deserialize_value-serialize_value_example :
    deserialize_value get_u8 (
      serialize_value put_u8
        (record { value = EyaValue.deque letters; deleted = true; expire_time = 9 })
      ++ 5 ∷ [])
    ≡ some (record { value = EyaValue.deque letters; deleted = true; expire_time = 9 }, 5 ∷ [])
deserialize_value-serialize_value_example =
    deserialize_value-serialize_value put_u8 get_u8
      (record { value = EyaValue.deque letters; deleted = true; expire_time = 9 }) (5 ∷ [])
      (omega arith) (omega arith, (omega arith, (omega arith, (omega arith, tt))))

kinds-eq-one_example : kinds 5 ≡ 1
kinds-eq-one_example = kinds-eq-one 5

pop_n-push_example :
    ((v' : EValue ℕ) × (push_handler push_fronts 100 letters (new_value (EyaValue.deque ([] ∷ [])))
        ≡ returned (4, v'))
      × (pop_n_handler (pop_fronts 3) 100 v'
          ≡ returned
              ((99 ∷ []) ∷ (98 ∷ []) ∷ (97 ∷ []) ∷ [], new_value (EyaValue.deque ([] ∷ [])))))
    × ((v' : EValue ℕ) × (push_handler push_backs 100 letters (new_value (EyaValue.deque ([] ∷ [])))
          ≡ returned (4, v'))
        × (pop_n_handler (pop_backs 3) 100 v'
            ≡ returned
                ((99 ∷ []) ∷ (98 ∷ []) ∷ (97 ∷ []) ∷ [], new_value (EyaValue.deque ([] ∷ [])))))
unfolding new_value is_dead
pop_n-push_example =
    pop_n-push 100 letters (new_value (EyaValue.deque ([] ∷ []))) ([] ∷ []) refl refl

stored-get : Engine.get platform env (107 ∷ []) stored ≡ some (some (EyaValue.deque letters))
unfolding r_push Engine.get Engine.write_memtable Engine.append_log MemTable.get
    MemTable.handle_value may_contain Engine.look MemTable.put SkipList.insert new_skip_list
    Bloom.add SkipList.get SkipList.handle_value is_dead new_value
stored-get = refl

-- The last two of three, where the end is cut off.
l_range-slice_example :
    l_range platform env (107 ∷ []) (negsuc 1) (pos 9) stored
    ≡ some (returned ((98 ∷ []) ∷ (99 ∷ []) ∷ []), stored)
l_range-slice_example =
    l_range-slice platform env (107 ∷ []) (negsuc 1) (pos 9) letters stored stored-get

-- A set command on a list throws, and the list then reads as an empty string.
wrong_type_test :
    Engine.get platform env (107 ∷ []) (after (s_add platform env false (107 ∷ []) letters stored))
    ≡ some (some (EyaValue.string []))
unfolding r_push s_add Engine.get Engine.write_memtable Engine.append_log MemTable.get
    MemTable.handle_value may_contain Engine.look MemTable.put SkipList.insert new_skip_list
    Bloom.add SkipList.get SkipList.handle_value is_dead new_value
wrong_type_test = refl

replay-run_example :
    (run platform env false (107 ∷ []) (Write.push_left letters) storage
      ≡ (append_log env k_l_push (107 ∷ []) (serialize_vector letters)
            >> run platform env true (107 ∷ []) (Write.push_left letters))
          storage)
    × ((s' : Storage ℕ)
        → replay get_u8 platform no_zset env (record_of (107 ∷ []) (Write.push_left letters)) s'
          ≡ run platform env true (107 ∷ []) (Write.push_left letters) s')
replay-run_example =
    replay-run get_u8 platform no_zset env (107 ∷ []) (Write.push_left letters) storage
      (omega arith, (omega arith, (omega arith, (omega arith, tt)))) refl

replay-push_view_example :
    (l_push_view platform env false (107 ∷ []) letters storage
      ≡ (append_log env k_l_push (107 ∷ []) (put_all serialize_string letters)
            >> l_push_view platform env true (107 ∷ []) letters)
          storage)
    × ((s' : Storage ℕ)
        → (replay get_u8 platform no_zset env
              (record {
                type = k_l_push;
                key = 107 ∷ [];
                payload = put_all serialize_string letters;
              })
              s'
            ≡ none)
          ⊎ ((values : List Bytes) × (length values ≡ 1)
              × (values ≢ letters)
              × (replay get_u8 platform no_zset env
                    (record {
                      type = k_l_push;
                      key = 107 ∷ [];
                      payload = put_all serialize_string letters;
                    })
                    s'
                  ≡ (l_push platform env true (107 ∷ []) values >>= λ n. pure true) s')))
replay-push_view_example =
    replay-push_view get_u8 platform no_zset env (107 ∷ []) (97 ∷ []) ((98 ∷ []) ∷ (99 ∷ []) ∷ [])
      storage (omega arith) refl
