-- ===== src/Storage/MemTable.antt =====
-- `MemTable` of include/storage/memtable.h and src/storage/memtable.cpp: sixteen skip lists by the
-- first byte of the key, each with a Bloom filter. One thread runs at a time. What the platform
-- fixes, sizes of types and floating point, is a parameter.
pub mod Order
pub mod Contents
pub mod Puts
pub mod Initial
use Prim.Native.Nat.{compare, Ordering}
use eya_kv.Prelude.{
  ℕ, ◌+◌, ◌*◌, ◌/◌, Bool, true, false, not, ◌&&◌, ◌==◌, leb, if◌then◌else◌, min, Option, none, some,
  List, [], ◌∷◌, ◌++◌, length, get_elem?, set, replicate,
}
use eya_kv.Effects.{
  out_of_range, overflow_error, Result, returned, threw, M, ◌>>=◌, pure, try_catch,
}
use eya_kv.Codec.Words.{Bytes}
use eya_kv.Structures.Bloom
use eya_kv.Structures.Bloom.{BloomFilter, new_filter, may_contain}
use eya_kv.Structures.SkipList
use eya_kv.Structures.SkipList.{SkipList, Functions, new_skip_list}
use eya_kv.Storage.Value.{EyaValue, EValue, string, deque, hash, zset}

-- operator< of std::string
unfoldable pub bytes_compare : Bytes → Bytes → Ordering
bytes_compare [] [] = Ordering.eq
bytes_compare [] (b ∷ y) = Ordering.lt
bytes_compare (a ∷ x) [] = Ordering.gt
bytes_compare (a ∷ x) (b ∷ y) = elim (compare a b) [
  | Ordering.lt ↦ Ordering.lt
  | Ordering.gt ↦ Ordering.gt
  | Ordering.eq ↦ bytes_compare x y
]

module _ (Z : Type 0) where
  -- sizeof of each type, memory_usage() of a sorted set, and the hash count of a Bloom filter
  pub record Platform : Type 0 where
    pub sizeof_string : ℕ
    pub sizeof_deque : ℕ
    pub sizeof_set : ℕ
    pub sizeof_map : ℕ
    pub sizeof_value : ℕ
    pub sizeof_node : ℕ
    pub sizeof_pointer : ℕ
    pub sizeof_memtable : ℕ
    pub zset_usage : Z → ℕ
    pub scaled : ℕ → ℕ

  pub record MemTable : Type 0 where
    pub memtable_size : ℕ
    pub tables : List (SkipList Bytes (EValue Z))
    pub bloom_filters : List BloomFilter
    pub size : ℕ

module _ {Z : Type 0} where
  unfoldable pub cancel_size_limit : MemTable Z → MemTable Z
  cancel_size_limit t = record t { memtable_size = 0 }

  unfoldable pub set_size_limit : ℕ → MemTable Z → MemTable Z
  set_size_limit size t = record t { memtable_size = size }

unfoldable pub get_shard_index : Bytes → ℕ
get_shard_index [] = 0
get_shard_index (first_byte ∷ key) = min (first_byte / 16) 15

module _ {Z : Type 0} (p : Platform Z) where
  -- the loops over a set and over a map
  unfoldable pub set_size : List Bytes → ℕ
  set_size [] = 0
  set_size (s ∷ l) = length s + p.sizeof_string + 32 + set_size l

  unfoldable pub map_size : List (Bytes × Bytes) → ℕ
  map_size [] = 0
  map_size ((k, v) ∷ m) = length k + length v + p.sizeof_string * 2 + 32 + map_size m

  -- A deque is none of the cases that the source names, so that it counts as an empty one.
  unfoldable pub estimate_eya_value_size : EyaValue Z → ℕ
  unfolding set_size map_size
  estimate_eya_value_size (string s) = length s + p.sizeof_string
  estimate_eya_value_size (deque l) = p.sizeof_deque
  estimate_eya_value_size (EyaValue.set l) = p.sizeof_set + set_size l
  estimate_eya_value_size (hash m) = p.sizeof_map + map_size m
  estimate_eya_value_size (zset z) = p.zset_usage z

  -- estimateEValueSize, calculateStringSize and the constructors of a key and a value
  unfoldable pub functions : Functions Bytes (EValue Z)
  unfolding bytes_compare estimate_eya_value_size
  functions = record {
    compare_func = bytes_compare;
    key_size = λ key. length key + p.sizeof_string;
    value_size = λ v. p.sizeof_value + estimate_eya_value_size v.value;
    no_key = [];
    no_value = record { value = string []; deleted = false; expire_time = 0 };
    sizeof_node = p.sizeof_node;
    sizeof_pointer = p.sizeof_pointer;
  }

  unfoldable pub new_shard_filter : BloomFilter
  new_shard_filter = new_filter p.scaled 62500 10

  unfoldable pub new_memtable : ℕ → ℕ → MemTable Z
  unfolding new_shard_filter functions
  new_memtable memtable_size max_level = record {
    memtable_size = memtable_size * 1024;
    tables = replicate 16 (new_skip_list functions max_level);
    bloom_filters = replicate 16 new_shard_filter;
    size = 0;
  }

  unfoldable pub tables_usage : List (SkipList Bytes (EValue Z)) → ℕ
  tables_usage [] = 0
  tables_usage (t ∷ ts) = t.current_size + tables_usage ts

  unfoldable pub filters_usage : List BloomFilter → ℕ
  filters_usage [] = 0
  filters_usage (f ∷ fs) = length f.bits + filters_usage fs

  unfoldable pub memory_usage : MemTable Z → ℕ
  unfolding tables_usage filters_usage
  memory_usage t = p.sizeof_memtable + tables_usage t.tables + filters_usage t.bloom_filters

  unfoldable pub should_flush : MemTable Z → Bool
  unfolding memory_usage
  should_flush t = not (t.memtable_size == 0) && leb t.memtable_size (memory_usage t)

  -- size_ is raised, and the Bloom filter of the shard takes the key.
  unfoldable pub note_key : ℕ → Bytes → MemTable Z → Option (MemTable Z)
  note_key idx key t = elim (get_elem? t.bloom_filters idx) [
    | none ↦ none
    | some f ↦
        some (record t {
          size = t.size + 1;
          bloom_filters = set t.bloom_filters idx (Bloom.add key f);
        })
  ]

  -- `level` is what random_level draws.
  unfoldable pub insert_shard : ℕ → Bytes → EValue Z → MemTable Z → Option (Bool × MemTable Z)
  unfolding functions get_shard_index
  insert_shard level key value t =
      let idx = get_shard_index key in
      elim (get_elem? t.tables idx) [
        | none ↦ none
        | some table ↦ (elim (SkipList.insert functions level key value table) [
          | none ↦ none
          | some table' ↦
              some (not (leb table'.size table.size), record t { tables = set t.tables idx table' })
        ])
      ]

  unfoldable pub put : ℕ → Bytes → EValue Z → M (MemTable Z) (Unit {0})
  unfolding should_flush insert_shard note_key
  put level key value t =
      if should_flush t
      then some (threw overflow_error, t)
      else elim (insert_shard level key value t) [
        | none ↦ none
        | some (grown, t') ↦
            if grown
            then elim (note_key (get_shard_index key) key t') [
              | none ↦ none
              | some t'' ↦ some (returned tt, t'')
            ]
            else some (returned tt, t')
      ]

  unfoldable pub get : Bytes → MemTable Z → Option (Option (EValue Z))
  unfolding functions get_shard_index
  get key t =
      let idx = get_shard_index key in
      elim (get_elem? t.bloom_filters idx) [
        | none ↦ none
        | some f ↦
            if may_contain key f
            then elim (get_elem? t.tables idx) [
              | none ↦ none
              | some table ↦ (elim (SkipList.get functions key table) [
                | none ↦ none
                | some (threw e) ↦ some none
                | some (returned v) ↦ some (some v)
              ])
            ]
            else some none
      ]

  -- handle_value of the table at `idx`
  unfoldable pub handle_shard {ℓ} :
      {A : Type ℓ} → ℕ → Bytes → (EValue Z → Result (A × EValue Z)) → M (MemTable Z) (A × EValue Z)
  unfolding functions
  handle_shard idx key value_handle t = elim (get_elem? t.tables idx) [
    | none ↦ none
    | some table ↦ (elim (SkipList.handle_value functions key value_handle table) [
      | none ↦ none
      | some (r, table') ↦ some (r, record t { tables = set t.tables idx table' })
    ])
  ]

  unfoldable pub handle_value {ℓ} :
      {A : Type ℓ} → Bytes → (EValue Z → Result (A × EValue Z)) → M (MemTable Z) (A × EValue Z)
  unfolding handle_shard get_shard_index
  handle_value key value_handle t =
      let idx = get_shard_index key in
      elim (get_elem? t.bloom_filters idx) [
        | none ↦ none
        | some f ↦
            if may_contain key f
            then handle_shard idx key value_handle t
            else some (threw out_of_range, t)
      ]

  -- The deletion marks the value of the key, or adds a value that is marked.
  unfoldable pub remove : ℕ → Bytes → M (MemTable Z) Bool
  unfolding handle_shard insert_shard note_key get_shard_index functions
  remove level key =
      let idx = get_shard_index key in
      try_catch
        (handle_shard {0} {A = Unit {0}} idx key (λ v. returned (tt, record v { deleted = true }))
          >>= λ old. pure true)
        (λ e t. elim (insert_shard level key (record functions.no_value { deleted = true }) t) [
          | none ↦ none
          | some (grown, t') ↦ (elim (note_key idx key t') [
            | none ↦ none
            | some t'' ↦ some (returned false, t'')
          ])
        ])

  -- the loop over the shards
  unfoldable pub shards_entries :
      List (SkipList Bytes (EValue Z)) → Option (List (Bytes × EValue Z))
  unfolding functions
  shards_entries [] = some []
  shards_entries (t ∷ ts) = elim (SkipList.get_all_entries functions t) [
    | none ↦ none
    | some entries ↦ (elim (shards_entries ts) [ none ↦ none | some rest ↦ some (entries ++ rest) ])
  ]

  unfoldable pub get_all_entries : MemTable Z → Option (List (Bytes × EValue Z))
  unfolding shards_entries
  get_all_entries t = shards_entries t.tables
