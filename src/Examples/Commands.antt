-- ===== src/Examples/Commands.antt =====
-- src/storage/storage.cpp: `Storage::execute` on a small storage.
use eya_kv.Prelude.{ℕ, ◌≡◌, ◌≢◌, refl, true, false, none, some, List, [], ◌∷◌, arith}
use eya_kv.Effects.{returned}
use eya_kv.Structures.Bloom
use eya_kv.Structures.Bloom.{may_contain}
use eya_kv.Structures.SkipList
use eya_kv.Structures.SkipList.{new_skip_list}
use eya_kv.Storage.Value.{EyaValue, is_dead}
use eya_kv.Storage.MemTable
use eya_kv.Storage.MemTable.{MemTable, should_flush}
use eya_kv.Storage.MemTable.Contents.{IsMemTable}
use eya_kv.Storage.Engine
use eya_kv.Storage.Engine.{Storage}
use eya_kv.Storage.OperationType.{k_set, k_get}
use eya_kv.Storage.Processors.{read_only, unknown_error, text, value, success, error}
use eya_kv.Storage.Processors.Strings.{string_value}
use eya_kv.Storage.Commands.{Outside, range, execute}
use eya_kv.Storage.Commands.SetGet.{execute-set_get}
use eya_kv.Examples.Processors.{platform, env, memtable, storage}
use eya_kv.Examples.SkipList.{memtable-IsMemTable}

-- no SSTable, and patterns that every key matches
abbrev outside : Outside ℕ
outside = record {
  range_query = λ a b. [];
  oldest_entries = [];
  write_zset = λ z. z ∷ [];
  regex = λ pattern. some (λ key. true);
  execute_zset = λ e type args s. some (returned (error unknown_error), s);
}

-- the memtable after SET a v
abbrev after : List ℕ → MemTable ℕ
after v =
    elim (MemTable.put platform 1 (97 ∷ []) (string_value outside.write_zset platform env v 0)
      memtable) [ none ↦ memtable | some (r, t) ↦ t ]

-- Two immutable memtables hold a: the older one 1, the newer one 2.
abbrev rotated : Storage ℕ
rotated = record storage {
  immutable_memtables = (1 ∷ [], after (49 ∷ [])) ∷ (2 ∷ [], after (50 ∷ [])) ∷ [];
}

get_newest : Engine.get platform env (97 ∷ []) rotated ≡ some (some (EyaValue.string (50 ∷ [])))
unfolding Engine.get MemTable.put string_value SkipList.insert new_skip_list MemTable.get
    may_contain Bloom.add SkipList.get is_dead
get_newest = refl

-- range answers the older one.
range_oldest :
    range platform env outside (97 ∷ []) (98 ∷ []) rotated
    ≡ some ((97 ∷ [], EyaValue.string (49 ∷ [])) ∷ [])
unfolding range MemTable.put string_value SkipList.insert new_skip_list MemTable.get_all_entries
    SkipList.get_all_entries is_dead
range_oldest = refl

execute-set_get_example :
    (s' : Storage ℕ) × (execute platform env outside false false k_set
        ((97 ∷ []) ∷ (49 ∷ []) ∷ [])
        storage
      ≡ some (returned (success (text (49 ∷ []))), s'))
    × (execute platform env outside false false k_get ((97 ∷ []) ∷ []) s'
        ≡ some (returned (success (value (EyaValue.string (49 ∷ [])))), s'))
    × ((k : List ℕ)
        → 97 ∷ [] ≢ k
        → Engine.get platform env k s' ≡ Engine.get platform env k storage)
    × IsMemTable platform 2 s'.memtable
unfolding should_flush MemTable.put string_value SkipList.insert new_skip_list
execute-set_get_example =
    execute-set_get platform env outside 2 (97 ∷ []) (49 ∷ []) storage (after (49 ∷ []))
      memtable-IsMemTable (omega arith) (omega arith) refl refl refl

set_read_only :
    execute platform env outside true false k_set ((97 ∷ []) ∷ (49 ∷ []) ∷ []) storage
    ≡ some (returned (error read_only), storage)
unfolding execute
set_read_only = refl
