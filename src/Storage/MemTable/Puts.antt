-- ===== src/Storage/MemTable/Puts.antt =====
-- src/storage/memtable.cpp: a memtable gives what was put.
use eya_kv.Prelude.{
  ℕ, zero, suc, ◌+◌, ◌%◌, ◌<◌, ◌≤◌, ◌≡◌, ◌≢◌, ◌⊎◌, refl, sym, ap, subst, ◌∙◌, leb, ◌==◌, ==→≡,
  Bool-cases, true, false, inl, inr, Option, some, List, [], ◌∷◌, set, get_elem?, arith,
}
use eya_kv.Effects.{returned}
use eya_kv.Codec.Words.{Bytes}
use eya_kv.Structures.Bloom
use eya_kv.Structures.Bloom.{BloomFilter, may_contain}
use eya_kv.Structures.Bloom.Members.{add-bytes, add_has, add_keeps}
use eya_kv.Structures.SkipList
use eya_kv.Structures.SkipList.{SkipList}
use eya_kv.Structures.SkipList.Items.{Item}
use eya_kv.Structures.SkipList.Lookup.{find}
use eya_kv.Structures.SkipList.Refinement.{inserted, insert-IsSkipList}
use eya_kv.Structures.SkipList.Reads.{find-inserted, find-inserted_other, length-inserted}
use eya_kv.Storage.Value.{EValue}
use eya_kv.Storage.MemTable
use eya_kv.Storage.MemTable.{
  Platform, MemTable, bytes_compare, functions, get_shard_index, should_flush, insert_shard,
  note_key,
}
use eya_kv.Storage.MemTable.Contents.{
  key_cases, IsShard, Shard, IsMemTable, shard_fits, value_of, order, get-value_of,
}

module _ {Z : Type 0} (p : Platform Z) (level_limit : ℕ) where
  -- What insert makes of a shard: the key is added to the filter where it is new.
  record Put (key : Bytes) (value : EValue Z) (level : ℕ) (items : List (Item Bytes (EValue Z)))
      (table : SkipList Bytes (EValue Z)) (filter : BloomFilter) : Type 0 where
    head : Item Bytes (EValue Z)
    items' : List (Item Bytes (EValue Z))
    table' : SkipList Bytes (EValue Z)
    filter' : BloomFilter
    inserted_table : SkipList.insert (functions p) level key value table ≡ some table'
    is_shard' : IsShard p level_limit head items' table' filter'
    found :
        (x : Item Bytes (EValue Z)) × (find (functions p) key items' ≡ some x) × (x.value ≡ value)
    others : (k : Bytes) → key ≢ k → find (functions p) k items' ≡ find (functions p) k items
    grows :
        ((leb table'.size table.size ≡ false) × (filter' ≡ Bloom.add key filter))
        ⊎ ((leb table'.size table.size ≡ true) × (filter' ≡ filter))

  -- A property of the keys that are held, from the new key and the others.
  everywhere :
      (P : Bytes → Item Bytes (EValue Z) → Type 0) (key : Bytes) (x : Item Bytes (EValue Z))
      (items items' : List (Item Bytes (EValue Z)))
      → find (functions p) key items' ≡ some x
      → ((k : Bytes) → key ≢ k → find (functions p) k items' ≡ find (functions p) k items)
      → P key x
      → ((k : Bytes) (z : Item Bytes (EValue Z)) → find (functions p) k items ≡ some z → P k z)
      → (k : Bytes) (z : Item Bytes (EValue Z)) → find (functions p) k items' ≡ some z
      → P k z
  everywhere P key x items items' found others new old k z h = elim (key_cases key k) [
    | inl same ↦
        (let e : find (functions p) key items' ≡ some z =
            ap (λ (j : Bytes). find (functions p) j items') same ∙ h in
          let xz : x ≡ z = cc (found, e) in
          subst (λ (j : Bytes). P j z) same (subst (P key) xz new))
    | inr n ↦ old k z (sym (others k n) ∙ h)
  ]

  Put-shard :
      (key : Bytes) (value : EValue Z) (level : ℕ) (head : Item Bytes (EValue Z))
      (items : List (Item Bytes (EValue Z))) (table : SkipList Bytes (EValue Z))
      (filter : BloomFilter)
      → 0 < level
      → level ≤ level_limit
      → IsShard p level_limit head items table filter
      → Put key value level items table filter
  Put-shard key value level head items table filter pos_level fits s =
      let f = functions p in
      let (table', done, listed) =
        insert-IsSkipList f (order p level_limit) key value level head items table s.listed
          pos_level (omega (arith, fits, s.limit)) in
      let (x, found, same, even) =
        find-inserted f (order p level_limit) key value level head items table s.listed
          (s.even key) in
      let others = λ (k : Bytes) (n : key ≢ k).
        find-inserted_other f (order p level_limit) key k value level head items table s.listed n in
      let items' = inserted f (order p level_limit) key value level head items table s.listed in
      elim (length-inserted f (order p level_limit) key value level head items table s.listed) [
        | inl (none_found, longer) ↦ record {
          head = head;
          items' = items';
          table' = table';
          filter' = Bloom.add key filter;
          inserted_table = done;
          is_shard' = record {
            listed = listed;
            limit = sym listed.top ∙ s.listed.top ∙ s.limit;
            even =
                everywhere (λ k (z : Item Bytes (EValue Z)). z.seq % 2 ≡ 0) key x items items' found
                  others even s.even;
            known =
                everywhere (λ k z. may_contain k (Bloom.add key filter) ≡ true) key x items items'
                  found others (add_has key filter s.bytes)
                  (λ k z h. add_keeps k key filter s.bytes (s.known k z h));
            bytes = add-bytes key filter s.bytes;
          };
          found = (x, found, same);
          others = others;
          grows = inl (ground (arith, longer, listed.count, s.listed.count), refl);
        }
        | inr (y, y_found, as_long) ↦ record {
          head = head;
          items' = items';
          table' = table';
          filter' = filter;
          inserted_table = done;
          is_shard' = record {
            listed = listed;
            limit = sym listed.top ∙ s.listed.top ∙ s.limit;
            even =
                everywhere (λ k (z : Item Bytes (EValue Z)). z.seq % 2 ≡ 0) key x items items' found
                  others even s.even;
            known =
                everywhere (λ k z. may_contain k filter ≡ true) key x items items' found others
                  (s.known key y y_found) s.known;
            bytes = s.bytes;
          };
          found = (x, found, same);
          others = others;
          grows = inr (ground (arith, as_long, listed.count, s.listed.count), refl);
        }
      ]

  get_elem-set_same {ℓ} :
      {A : Type ℓ} (l : List A) (i : ℕ) (a b : A)
      → get_elem? l i ≡ some a
      → get_elem? (set l i b) i ≡ some b
  get_elem-set_same [] i a b h = cc h
  get_elem-set_same (x ∷ l) zero a b h = refl
  get_elem-set_same (x ∷ l) (suc i) a b h = get_elem-set_same l i a b h

  get_elem-set_other {ℓ} :
      {A : Type ℓ} (l : List A) (i j : ℕ) (b : A) → i ≢ j → get_elem? (set l i b) j ≡ get_elem? l j
  get_elem-set_other [] i j b n = refl
  get_elem-set_other (x ∷ l) zero zero b n = absurd (n refl)
  get_elem-set_other (x ∷ l) zero (suc j) b n = refl
  get_elem-set_other (x ∷ l) (suc i) zero b n = refl
  get_elem-set_other (x ∷ l) (suc i) (suc j) b n = get_elem-set_other l i j b (λ e. n (ap suc e))

  set-same {ℓ} : {A : Type ℓ} (l : List A) (i : ℕ) (a : A) → get_elem? l i ≡ some a → set l i a ≡ l
  set-same [] i a h = refl
  set-same (x ∷ l) zero a h = (let same : x ≡ a = cc h in ap (λ y. y ∷ l) (sym same))
  set-same (x ∷ l) (suc i) a h = ap (◌∷◌ x) (set-same l i a h)

  -- What a put leaves: the tables and the filters with those of one shard in their places.
  put-eq :
      (key : Bytes) (value : EValue Z) (level : ℕ) (t : MemTable Z)
      (s : Shard p level_limit (get_shard_index key) t)
      (q : Put key value level s.items s.table s.filter)
      → should_flush p t ≡ false
      → (size : ℕ) × (MemTable.put p level key value t
          ≡ some (
            returned tt,
            record t {
              tables = set t.tables (get_shard_index key) q.table';
              bloom_filters = set t.bloom_filters (get_shard_index key) q.filter';
              size = size;
            },
          ))
  unfolding MemTable.put insert_shard note_key
  put-eq key value level t s q e = elim q.grows [
    | inl (g, same) ↦ (
      t.size + 1,
      rw (
        MemTable.put, e, insert_shard, s.at_tables, q.inserted_table, g, note_key, s.at_filters,
        same,
      ),
    )
    | inr (g, same) ↦ (
      t.size,
      rw (
        MemTable.put,
        e,
        insert_shard,
        s.at_tables,
        q.inserted_table,
        g,
        same,
        set-same t.bloom_filters (get_shard_index key) s.filter s.at_filters,
      ),
    )
  ]

  get-value_at :
      (key : Bytes) (t : MemTable Z) (i : ℕ)
      → get_shard_index key ≡ i
      → (s : Shard p level_limit i t)
      → MemTable.get p key t ≡ some (value_of p level_limit (find (functions p) key s.items))
  get-value_at key t i e =
      subst
        (λ (j : ℕ).
          (s : Shard p level_limit j t)
          → MemTable.get p key t ≡ some (value_of p level_limit (find (functions p) key s.items)))
        e (get-value_of p level_limit key t)

  module _ (key : Bytes) (value : EValue Z) (level : ℕ) (t : MemTable Z) (size : ℕ)
      (s : Shard p level_limit (get_shard_index key) t)
      (q : Put key value level s.items s.table s.filter) where
    after : MemTable Z
    after = record t {
      tables = set t.tables (get_shard_index key) q.table';
      bloom_filters = set t.bloom_filters (get_shard_index key) q.filter';
      size = size;
    }

    changed_shard : Shard p level_limit (get_shard_index key) after
    unfolding after
    changed_shard = record {
      head = q.head;
      items = q.items';
      table = q.table';
      filter = q.filter';
      at_tables = get_elem-set_same t.tables (get_shard_index key) s.table q.table' s.at_tables;
      at_filters =
          get_elem-set_same t.bloom_filters (get_shard_index key) s.filter q.filter' s.at_filters;
      is_shard = q.is_shard';
    }

    kept_shard :
        (i : ℕ) → get_shard_index key ≢ i → Shard p level_limit i t → Shard p level_limit i after
    unfolding after
    kept_shard i n r = record {
      head = r.head;
      items = r.items;
      table = r.table;
      filter = r.filter;
      at_tables = get_elem-set_other t.tables (get_shard_index key) i q.table' n ∙ r.at_tables;
      at_filters =
          get_elem-set_other t.bloom_filters (get_shard_index key) i q.filter' n ∙ r.at_filters;
      is_shard = r.is_shard;
    }

    after-IsMemTable : IsMemTable p level_limit t → IsMemTable p level_limit after
    after-IsMemTable valid i h = elim (Bool-cases (get_shard_index key == i)) [
      | inl same ↦
          subst (λ (j : ℕ). Shard p level_limit j after) (==→≡ (get_shard_index key) i same)
            changed_shard
      | inr other ↦ kept_shard i (ground (arith, other)) (valid i h)
    ]

    get_other :
        IsMemTable p level_limit t
        → (k : Bytes) → key ≢ k
        → MemTable.get p k after ≡ MemTable.get p k t
    unfolding changed_shard kept_shard
    get_other valid k n = elim (Bool-cases (get_shard_index key == get_shard_index k)) [
      | inl same ↦
          (let e = sym (==→≡ (get_shard_index key) (get_shard_index k) same) in
            get-value_at k after (get_shard_index key) e changed_shard
            ∙ ap (λ (o : Option (Item Bytes (EValue Z))). some (value_of p level_limit o))
                (q.others k n)
            ∙ sym (get-value_at k t (get_shard_index key) e s))
      | inr other ↦
          (let r = valid (get_shard_index k) (shard_fits p level_limit k) in
            get-value_of p level_limit k after
              (kept_shard (get_shard_index k) (ground (arith, other)) r)
            ∙ sym (get-value_of p level_limit k t r))
    ]

  -- A put into a memtable that is not full, with a level that its skip lists have, returns, and then the
  -- key has the value that was put, every other key has what it had, and the memtable is again one
  -- whose shards are skip lists in order with Bloom filters that know their keys.
  pub get-put :
      (key : Bytes) (value : EValue Z) (level : ℕ) (t : MemTable Z)
      → IsMemTable p level_limit t
      → should_flush p t ≡ false
      → 0 < level
      → level ≤ level_limit
      → (t' : MemTable Z) × (MemTable.put p level key value t ≡ some (returned tt, t'))
        × (MemTable.get p key t' ≡ some (some value))
        × ((k : Bytes) → key ≢ k → MemTable.get p k t' ≡ MemTable.get p k t)
        × IsMemTable p level_limit t'
  unfolding after changed_shard
  get-put key value level t valid e pos_level fits =
      let s = valid (get_shard_index key) (shard_fits p level_limit key) in
      let q = Put-shard key value level s.head s.items s.table s.filter pos_level fits s.is_shard in
      let (size, done) = put-eq key value level t s q e in
      (
        after key value level t size s q,
        done,
        get-value_of p level_limit key (after key value level t size s q)
              (changed_shard key value level t size s q)
            ∙ ap (λ (o : Option (Item Bytes (EValue Z))). some (value_of p level_limit o)) q.found.1
            ∙ ap (λ v. some (some v)) q.found.2,
        get_other key value level t size s q valid,
        after-IsMemTable key value level t size s q valid,
      )
