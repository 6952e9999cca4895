-- ===== src/Storage/MemTable/Initial.antt =====
-- src/storage/memtable.cpp: the constructor gives sixteen empty shards.
use eya_kv.Prelude.{
  ℕ, zero, suc, ◌+◌, ◌*◌, ◌/◌, ◌<◌, ◌≡◌, refl, some, [], get_elem?, replicate, arith,
}
use eya_kv.Codec.RoundTrip.{All}
use eya_kv.Structures.Bloom.{BloomFilter, new_filter}
use eya_kv.Structures.Bloom.Bits.{IsByte}
use eya_kv.Structures.SkipList.{new_skip_list}
use eya_kv.Structures.SkipList.Reads.{new_skip_list-IsSkipList}
use eya_kv.Storage.MemTable.{Platform, functions, new_shard_filter, new_memtable}
use eya_kv.Storage.MemTable.Contents.{IsMemTable}

get_elem-replicate {ℓ} :
    {A : Type ℓ} (n i : ℕ) (a : A) → i < n → get_elem? (replicate n a) i ≡ some a
get_elem-replicate zero i a h = absurd (omega arith)
get_elem-replicate (suc n) zero a h = refl
get_elem-replicate (suc n) (suc i) a h = get_elem-replicate n i a (omega arith)

zero_bytes : (n : ℕ) → All IsByte (replicate n 0)
zero_bytes zero = tt
zero_bytes (suc n) = (omega arith, zero_bytes n)

module _ {Z : Type 0} (p : Platform Z) (level_limit : ℕ) where
  pub empty-IsMemTable :
      (filter : BloomFilter) (memtable_size : ℕ)
      → All IsByte filter.bits
      → 0 < level_limit
      → IsMemTable p level_limit (record {
        memtable_size = memtable_size;
        tables = replicate 16 (new_skip_list (functions p) level_limit);
        bloom_filters = replicate 16 filter;
        size = 0;
      })
  unfolding new_skip_list
  empty-IsMemTable filter memtable_size bytes h i fits = record {
    head = _;
    items = [];
    table = new_skip_list (functions p) level_limit;
    filter = filter;
    at_tables = get_elem-replicate 16 i (new_skip_list (functions p) level_limit) fits;
    at_filters = get_elem-replicate 16 i filter fits;
    is_shard = record {
      listed = new_skip_list-IsSkipList (functions p) level_limit h;
      limit = refl;
      even = λ k x e. cc e;
      known = λ k x e. cc e;
      bytes = bytes;
    };
  }

  pub new_memtable-IsMemTable :
      (memtable_size : ℕ)
      → 0 < level_limit
      → IsMemTable p level_limit (new_memtable p memtable_size level_limit)
  unfolding new_memtable new_shard_filter new_filter
  new_memtable-IsMemTable memtable_size h =
      empty-IsMemTable (new_shard_filter p) (memtable_size * 1024)
        (zero_bytes ((62500 * 10 + 7) / 8)) h
