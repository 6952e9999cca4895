-- ===== src/Examples/Structures.antt =====
-- The data structures at concrete inputs.
use eya_kv.Prelude.{ℕ, ◌*◌, ◌/◌, ◌≡◌, refl, true, false, some, [], ◌∷◌, ◌++◌, arith}
use eya_kv.Codec.Words.{put_u32, get_u32, get_u32-put_u32}
use eya_kv.Codec.Containers.{bytes_eq, map_find, serialize_string, deserialize_string}
use eya_kv.Codec.RoundTrip.{string-Trips}
use eya_kv.Structures.Lru.{Item, LruCache, get, put, map_erase, pop_back}
use eya_kv.Structures.Lru.Items.{recent}
use eya_kv.Structures.Lru.Room.{IsCache}
use eya_kv.Structures.Lru.Recency.{get-touches, put-stores}
use eya_kv.Structures.Lru.Stored.{
  serialize_cache, deserialize_cache, deserialize_cache-serialize_cache,
}
use eya_kv.Structures.Bloom.{
  BloomFilter, may_contain, serialize_filter, deserialize_filter, add, new_filter,
}
use eya_kv.Structures.Bloom.Members.{add_all, no_false_negatives, filter_round_trip}

abbrev filter : BloomFilter
filter = record { bits = 0 ∷ 0 ∷ 0 ∷ []; num_hash_functions = 2 }

filter_test : (new_filter (λ n. n * 69 / 100) 3 7).num_hash_functions ≡ 4
unfolding new_filter
filter_test = refl

absent_test : may_contain (99 ∷ []) (add (97 ∷ []) filter) ≡ false
unfolding may_contain add
absent_test = refl

no_false_negatives_example :
    may_contain (98 ∷ []) (add_all ((97 ∷ []) ∷ (98 ∷ []) ∷ (99 ∷ []) ∷ []) filter) ≡ true
no_false_negatives_example =
    no_false_negatives ((97 ∷ []) ∷ []) ((99 ∷ []) ∷ []) (98 ∷ []) filter
      (omega arith, (omega arith, (omega arith, tt)))

filter_round_trip_example :
    deserialize_filter (serialize_filter filter ++ 5 ∷ []) ≡ some (filter, 5 ∷ [])
filter_round_trip_example = filter_round_trip filter (5 ∷ []) (omega arith) (omega arith)

abbrev item_of : ℕ → ℕ → ℕ → Item ℕ
item_of iterator letter value = record { iterator = iterator; key = letter ∷ []; value = value }

-- A full cache with b used last.
abbrev cache : LruCache ℕ
cache = record {
  capacity = 2;
  items = item_of 1 98 20 ∷ item_of 0 97 10 ∷ [];
  index = (98 ∷ [], 1) ∷ (97 ∷ [], 0) ∷ [];
  next = 2;
}

cache-IsCache : IsCache cache
unfolding bytes_eq
cache-IsCache = record {
  indexed = λ k. refl;
  distinct = (((refl, refl), tt), (tt, tt));
  fresh = (omega arith, (omega arith, tt));
  bounded = omega arith;
}

get-touches_example :
    (c' : LruCache ℕ) × (get (97 ∷ []) cache ≡ some (some 10, c'))
    × (recent c'.items ≡ (97 ∷ [], 10) ∷ (98 ∷ [], 20) ∷ [])
    × (c'.capacity ≡ 2)
    × IsCache c'
unfolding map_find map_erase bytes_eq
get-touches_example = get-touches (97 ∷ []) cache cache-IsCache

put-stores_example :
    (c' : LruCache ℕ) × (put (99 ∷ []) 30 cache ≡ some c')
    × (recent c'.items ≡ (99 ∷ [], 30) ∷ (98 ∷ [], 20) ∷ [])
    × (c'.capacity ≡ 2)
    × IsCache c'
unfolding map_find pop_back bytes_eq
put-stores_example = put-stores (99 ∷ []) 30 cache cache-IsCache (omega arith)

-- A cache with another node, of the same capacity.
abbrev other_cache : LruCache ℕ
other_cache = record {
  capacity = 2;
  items = item_of 4 99 30 ∷ [];
  index = (99 ∷ [], 4) ∷ [];
  next = 5;
}

deserialize_cache-serialize_cache_example :
    (c' : LruCache ℕ) × (deserialize_cache deserialize_string get_u32 other_cache
        (serialize_cache serialize_string put_u32 cache ++ 7 ∷ [])
      ≡ some (c', 7 ∷ []))
    × (recent c'.items ≡ recent cache.items)
    × (c'.capacity ≡ 2)
    × IsCache c'
deserialize_cache-serialize_cache_example =
    deserialize_cache-serialize_cache serialize_string put_u32 deserialize_string get_u32 cache
      other_cache (7 ∷ []) cache-IsCache (omega arith) (omega arith)
      (
        (string-Trips (98 ∷ []) (omega arith), λ r. get_u32-put_u32 20 r (omega arith)),
        ((string-Trips (97 ∷ []) (omega arith), λ r. get_u32-put_u32 10 r (omega arith)), tt),
      )
