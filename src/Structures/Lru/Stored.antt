-- ===== src/Structures/Lru/Stored.antt =====
-- include/common/ds/lru_cache.h: `serialize` and `deserialize`, for the result cache of a snapshot.
-- The two SerializeCommands are parameters, as writers and readers of keys and values; both are set
-- before, so that the std::runtime_error of a missing one does not arise.
use mathlib.Core.List.{foldl}
use eya_kv.Prelude.{
  ℕ, ◌+◌, ◌^◌, ◌<◌, ◌≤◌, ◌≡◌, refl, ap, sym, ◌∙◌, subst, Bool-cases, Option, none, some, List, [],
  ◌∷◌, ◌++◌, append_assoc, append-nil, length, inl, inr, arith,
}
use eya_kv.Codec.Words.{
  Bytes, Reader, ◌>>=◌, pure, to_u32, put_u32, get_u32, bind_some, get_u32-put_u32,
}
use eya_kv.Codec.Containers.{bytes_eq, map_find, put_all, get_loop}
use eya_kv.Codec.Equality.{bytes_eq→≡}
use eya_kv.Codec.RoundTrip.{All, AllTrip, Trips, read_field, to_u32_id, get_loop-put_all}
use eya_kv.Structures.Lru.{Item, LruCache, map_put}
use eya_kv.Structures.Lru.Items.{named, recent, Apart, Distinct, Apart-find, find-put}
use eya_kv.Structures.Lru.Room.{IsCache, length-recent}

-- the first of two that is there
abbrev first : Option ℕ → Option ℕ → Option ℕ
first (some it) other = some it
first none other = other

first-none : (o : Option ℕ) → first o none ≡ o
first-none (some it) = refl
first-none none = refl

module _ {ℓ} {V : Type ℓ} where
  unfoldable pub write_entry : (Bytes → Bytes) → (V → Bytes) → Bytes × V → Bytes
  write_entry write_key write_value (key, value) = write_key key ++ write_value value

  unfoldable pub read_entry : Reader Bytes → Reader V → Reader (Bytes × V)
  read_entry read_key read_value = read_key >>= λ key. read_value >>= λ value. pure (key, value)

  unfoldable pub serialize_cache : (Bytes → Bytes) → (V → Bytes) → LruCache V → Bytes
  unfolding write_entry
  serialize_cache write_key write_value c =
      put_u32 (to_u32 (length c.items))
      ++ put_all (write_entry write_key write_value) (recent c.items)

  -- items_.push_back({key, val})
  unfoldable pub push_item : LruCache V → Bytes × V → LruCache V
  push_item c (key, value) = record c {
    items = c.items ++ record { iterator = c.next; key = key; value = value } ∷ [];
    next = c.next + 1;
  }

  -- the loop that rebuilds `index_`
  unfoldable pub index_all : List (Item V) → List (Bytes × ℕ) → List (Bytes × ℕ)
  unfolding map_put
  index_all [] m = m
  index_all (x ∷ xs) m = index_all xs (map_put x.key x.iterator m)

  unfoldable pub rebuild_index : LruCache V → LruCache V
  unfolding index_all
  rebuild_index c = record c { index = index_all c.items c.index }

  unfoldable pub deserialize_cache : Reader Bytes → Reader V → LruCache V → Reader (LruCache V)
  unfolding read_entry push_item rebuild_index
  deserialize_cache read_key read_value c = get_u32 >>= λ size.
      get_loop (read_entry read_key read_value) push_item size (record c { items = []; index = [] })
      >>= λ c'. pure (rebuild_index c')

  -- The nodes that a list becomes, with names from `n` on.
  nodes : ℕ → List (Bytes × V) → List (Item V)
  nodes n [] = []
  nodes n ((key, value) ∷ l) = record { iterator = n; key = key; value = value } ∷ nodes (n + 1) l

  recent-nodes : (n : ℕ) (l : List (Bytes × V)) → recent (nodes n l) ≡ l
  unfolding nodes
  recent-nodes n [] = refl
  recent-nodes n (e ∷ l) = ap (e ∷◌) (recent-nodes (n + 1) l)

  pushed :
      (l : List (Bytes × V)) (c : LruCache V)
      → foldl push_item c l
        ≡ record c { items = c.items ++ nodes c.next l; next = c.next + length l }
  unfolding push_item nodes
  pushed [] c =
      ap (λ (xs : List (Item V)). record c { items = xs }) (sym (append-nil c.items))
      ∙ ap (λ (n : ℕ). record c { items = c.items ++ []; next = n }) (omega arith)
  pushed (e ∷ l) c =
      pushed l (push_item c e)
      ∙ ap (λ (xs : List (Item V)). record c { items = xs; next = c.next + 1 + length l })
          (append_assoc c.items _ (nodes (c.next + 1) l))
      ∙ ap (λ (n : ℕ). record c { items = c.items ++ nodes c.next (e ∷ l); next = n }) (omega arith)

  nodes-fresh :
      (n m : ℕ) (l : List (Bytes × V))
      → n + length l ≤ m
      → All (λ (x : Item V). x.iterator < m) (nodes n l)
  unfolding nodes
  nodes-fresh n m [] h = tt
  nodes-fresh n m (e ∷ l) h = (omega arith, nodes-fresh (n + 1) m l (omega arith))

  nodes-Apart :
      (x y : Item V) (m : ℕ) (xs : List (Item V))
      → y.key ≡ x.key
      → y.iterator < m
      → All (Apart x) xs
      → All (Apart y) (nodes m (recent xs))
  unfolding nodes
  nodes-Apart x y m [] e h a = tt
  nodes-Apart x y m (z ∷ xs) e h a =
      ((rw (e) a.0.0, ground arith), nodes-Apart x y (m + 1) xs e (omega arith) a.1)

  nodes-Distinct : (n : ℕ) (xs : List (Item V)) → Distinct xs → Distinct (nodes n (recent xs))
  unfolding nodes
  nodes-Distinct n [] d = tt
  nodes-Distinct n (x ∷ xs) d = (
    nodes-Apart x (record x { iterator = n }) (n + 1) xs refl (omega arith) d.0,
    nodes-Distinct (n + 1) xs d.1,
  )

  find-index_all :
      (xs : List (Item V)) (m : List (Bytes × ℕ)) (k : Bytes)
      → Distinct xs
      → map_find k (index_all xs m) ≡ first (map_find k (named xs)) (map_find k m)
  unfolding index_all map_find
  find-index_all [] m k d = refl
  find-index_all (x ∷ xs) m k d =
      let ih = find-index_all xs (map_put x.key x.iterator m) k d.1 in
      elim (Bool-cases (bytes_eq x.key k)) [
        | inl e ↦
            (let out =
                subst (λ (j : Bytes). map_find j (named xs) ≡ none) (bytes_eq→≡ x.key k e)
                  (Apart-find (λ (y : Item V). y.iterator) x xs d.0) in
              ih ∙ rw (out, e, find-put x.key k x.iterator m, e))
        | inr ne ↦ ih ∙ rw (ne, find-put x.key k x.iterator m, ne)
      ]

  -- A cache whose nodes are those of a list and whose index is rebuilt is well-formed.
  rebuilt-IsCache :
      (c d : LruCache V)
      → IsCache c
      → length c.items ≤ d.capacity
      → IsCache (
          rebuild_index (record d {
            items = nodes d.next (recent c.items);
            index = [];
            next = d.next + length (recent c.items);
          }))
  unfolding rebuild_index map_find
  rebuilt-IsCache c d w room =
      let xs = nodes d.next (recent c.items) in
      let apart = nodes-Distinct d.next c.items w.distinct in
      let holds = recent-nodes d.next (recent c.items) in
      record {
        indexed = λ k. find-index_all xs [] k apart ∙ first-none (map_find k (named xs));
        distinct = apart;
        fresh = nodes-fresh d.next _ (recent c.items) (omega arith);
        bounded = omega (
          arith,
          room,
          length-recent c.items,
          length-recent xs,
          ap (λ (l : List (Bytes × V)). length l) holds,
        );
      }

  module _ (write_key : Bytes → Bytes) (write_value : V → Bytes) (read_key : Reader Bytes)
      (read_value : Reader V) where
    -- Each key and each value comes back from its own command.
    abbrev pub PartsTrip : List (Bytes × V) → Type ℓ
    PartsTrip [] = Unit
    PartsTrip ((key, value) ∷ l) =
        (Trips write_key read_key key × Trips write_value read_value value) × PartsTrip l

    entries_trip :
        (l : List (Bytes × V))
        → PartsTrip l
        → AllTrip (write_entry write_key write_value) (read_entry read_key read_value) push_item l
    unfolding write_entry read_entry
    entries_trip [] h = tt
    entries_trip ((key, value) ∷ l) h = (
      λ rest.
          read_field write_key read_key _ key (write_value value) rest h.0.0
          ∙ bind_some read_value (λ v. pure (key, v)) (h.0.1 rest),
      entries_trip l h.1,
    )

    -- A well-formed cache of fewer than 2^32 nodes, written and read back into a cache whose capacity
    -- is not below their number, gives the same keys and values by recency and leaves the bytes
    -- behind it, when each key and value comes back from its own command. The cache that was read
    -- into keeps its capacity, loses what it held, and is well-formed: its index leads to the new
    -- nodes.
    pub deserialize_cache-serialize_cache :
        (c d : LruCache V) (rest : Bytes)
        → IsCache c
        → length c.items < 2 ^ 32
        → length c.items ≤ d.capacity
        → PartsTrip (recent c.items)
        → (d' : LruCache V) × (deserialize_cache read_key read_value d
              (serialize_cache write_key write_value c ++ rest)
            ≡ some (d', rest))
          × (recent d'.items ≡ recent c.items)
          × (d'.capacity ≡ d.capacity)
          × IsCache d'
    unfolding serialize_cache deserialize_cache rebuild_index
    deserialize_cache-serialize_cache c d rest w small room t =
        let l = recent c.items in
        let empty : LruCache V = record d { items = []; index = [] } in
        let read = read_entry read_key read_value in
        let entries = put_all (write_entry write_key write_value) l in
        let loop =
          get_loop-put_all (write_entry write_key write_value) read push_item l empty rest
            (entries_trip l t) in
        (
          rebuild_index (record d { items = nodes d.next l; index = []; next = d.next + length l }),
          rw (to_u32_id (length c.items) small) (
              read_field put_u32 get_u32 _ (length c.items) entries rest
                (λ r. get_u32-put_u32 (length c.items) r small)
              ∙ bind_some (get_loop read push_item (length c.items) empty) _ (
                  ap (λ (n : ℕ). get_loop read push_item n empty (entries ++ rest))
                    (sym (length-recent c.items))
                  ∙ loop)
              ∙ ap (λ c'. some (rebuild_index c', rest)) (pushed l empty)),
          recent-nodes d.next l,
          refl,
          rebuilt-IsCache c d w room,
        )
