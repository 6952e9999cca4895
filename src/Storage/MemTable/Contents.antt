-- ===== src/Storage/MemTable/Contents.antt =====
-- src/storage/memtable.cpp: a memtable holds what was put.
use Prim.Native.Nat.{Ordering}
use eya_kv.Prelude.{
  ℕ, ◌%◌, ◌<◌, ◌≡◌, ◌≢◌, ◌⊎◌, sym, ap, ◌∙◌, ◌==◌, Bool-cases, true, false, inl, inr, Option,
  Option-cases, none, some, List, [], ◌∷◌, get_elem?, arith,
}
use eya_kv.Effects.{returned}
use eya_kv.Codec.Words.{Bytes}
use eya_kv.Codec.RoundTrip.{All}
use eya_kv.Structures.Bloom.{BloomFilter, may_contain}
use eya_kv.Structures.Bloom.Bits.{IsByte}
use eya_kv.Structures.SkipList
use eya_kv.Structures.SkipList.{SkipList}
use eya_kv.Structures.SkipList.Items.{Item}
use eya_kv.Structures.SkipList.Search.{Ordering-cases}
use eya_kv.Structures.SkipList.Lookup.{IsOrder, IsSkipList, find, answer, get-answer}
use eya_kv.Storage.Value.{EValue}
use eya_kv.Storage.MemTable
use eya_kv.Storage.MemTable.{
  Platform, MemTable, bytes_compare, functions, get_shard_index, should_flush, insert_shard,
  note_key,
}
use eya_kv.Storage.MemTable.Order.{bytes_compare-IsOrder}

same_key : (a b : Bytes) → a ≡ b → bytes_compare a b ≡ Ordering.eq
same_key a b e = ap (bytes_compare a) (sym e) ∙ bytes_compare-IsOrder.eq_refl a

pub key_cases : (a b : Bytes) → (a ≡ b) ⊎ (a ≢ b)
key_cases a b = elim (Ordering-cases (bytes_compare a b)) [
  | inl lt ↦ inr (λ e. let same = same_key a b e in cc (lt, same))
  | inr (inl eq) ↦ inl (bytes_compare-IsOrder.eq_sound a b eq)
  | inr (inr gt) ↦ inr (λ e. let same = same_key a b e in cc (gt, same))
]

not_odd : (n : ℕ) → n % 2 ≡ 0 → (n % 2 == 1) ≡ false
not_odd n h = ground arith

module _ {Z : Type 0} (p : Platform Z) (level_limit : ℕ) where
  -- A shard: the nodes of its table are `items`, each with an even sequence number, and its filter
  -- knows their keys.
  pub record IsShard (head : Item Bytes (EValue Z)) (items : List (Item Bytes (EValue Z)))
      (table : SkipList Bytes (EValue Z)) (filter : BloomFilter) : Type 0 where
    pub listed : IsSkipList (functions p) head items table
    pub limit : table.max_level ≡ level_limit
    pub even :
        (k : Bytes) (x : Item Bytes (EValue Z))
        → find (functions p) k items ≡ some x
        → x.seq % 2 ≡ 0
    pub known :
        (k : Bytes) (x : Item Bytes (EValue Z))
        → find (functions p) k items ≡ some x
        → may_contain k filter ≡ true
    pub bytes : All IsByte filter.bits

  pub record Shard (i : ℕ) (t : MemTable Z) : Type 0 where
    pub head : Item Bytes (EValue Z)
    pub items : List (Item Bytes (EValue Z))
    pub table : SkipList Bytes (EValue Z)
    pub filter : BloomFilter
    pub at_tables : get_elem? t.tables i ≡ some table
    pub at_filters : get_elem? t.bloom_filters i ≡ some filter
    pub is_shard : IsShard head items table filter

  abbrev pub IsMemTable : MemTable Z → Type 0
  IsMemTable t = (i : ℕ) → i < 16 → Shard i t

  pub shard_fits : (key : Bytes) → get_shard_index key < 16
  unfolding get_shard_index
  shard_fits [] = omega arith
  shard_fits (b ∷ key) = omega arith

  -- what a key has
  abbrev pub value_of : Option (Item Bytes (EValue Z)) → Option (EValue Z)
  value_of none = none
  value_of (some x) = some x.value

  pub order : IsOrder (functions p).compare_func
  unfolding functions
  order = bytes_compare-IsOrder

  pub answer-value_of :
      (key : Bytes) (head : Item Bytes (EValue Z)) (items : List (Item Bytes (EValue Z)))
      (table : SkipList Bytes (EValue Z)) (filter : BloomFilter) (x : Item Bytes (EValue Z))
      → IsShard head items table filter
      → find (functions p) key items ≡ some x
      → SkipList.get (functions p) key table ≡ some (returned x.value)
  answer-value_of key head items table filter x s e =
      get-answer (functions p) order key head items table s.listed
      ∙ ap (λ (o : Option (Item Bytes (EValue Z))). some (answer (functions p) o)) e
      ∙ rw (not_odd x.seq (s.even key x e))

  pub get-value_of :
      (key : Bytes) (t : MemTable Z) (s : Shard (get_shard_index key) t)
      → MemTable.get p key t ≡ some (value_of (find (functions p) key s.items))
  unfolding MemTable.get functions
  get-value_of key t s = elim (Option-cases (find (functions p) key s.items)) [
    | inl e ↦
        (let g =
            get-answer (functions p) order key s.head s.items s.table s.is_shard.listed
            ∙ ap (λ (o : Option (Item Bytes (EValue Z))). some (answer (functions p) o)) e in
          elim (Bool-cases (may_contain key s.filter)) [
            | inl m ↦
                rw (MemTable.get, s.at_filters, m, s.at_tables, g)
                  (ap (λ (o : Option (Item Bytes (EValue Z))). some (value_of o)) (sym e))
            | inr m ↦
                rw (MemTable.get, s.at_filters, m)
                  (ap (λ (o : Option (Item Bytes (EValue Z))). some (value_of o)) (sym e))
          ])
    | inr (x, e) ↦
        (let g = answer-value_of key s.head s.items s.table s.filter x s.is_shard e in
          rw (MemTable.get, s.at_filters, s.is_shard.known key x e, s.at_tables, g)
            (ap (λ (o : Option (Item Bytes (EValue Z))). some (value_of o)) (sym e)))
  ]
