-- ===== src/Structures/Lru.antt =====
-- `LRUCache` of include/common/ds/lru_cache.h with keys of strings, as RaftNode's result cache. An
-- iterator is the name of a list node, and `index_` goes from keys to names. `none` is undefined
-- behaviour: the use of an iterator whose node is gone, or of the last node of an empty list.
pub mod Items
pub mod Room
pub mod Recency
pub mod Stored
use eya_kv.Prelude.{
  ℕ, ◌+◌, Bool, true, false, ◌==◌, leb, if◌then◌else◌, Option, none, some, List, [], ◌∷◌, length,
  get_last?,
}
use eya_kv.Codec.Words.{Bytes}
use eya_kv.Codec.Containers.{bytes_eq, map_find}

-- index_.erase(key), of the elements with that key
unfoldable pub map_erase {ℓ} : {A : Type ℓ} → Bytes → List (Bytes × A) → List (Bytes × A)
map_erase k [] = []
map_erase k ((a, v) ∷ l) = let rest = map_erase k l in if bytes_eq a k then rest else (a, v) ∷ rest

-- index_[key] = v
unfoldable pub map_put {ℓ} : {A : Type ℓ} → Bytes → A → List (Bytes × A) → List (Bytes × A)
map_put k v [] = (k, v) ∷ []
map_put k v ((a, w) ∷ l) =
    let rest = map_put k v l in if bytes_eq a k then (a, v) ∷ l else (a, w) ∷ rest

unfoldable pub pop_back {ℓ} : {A : Type ℓ} → List A → List A
pop_back [] = []
pop_back (x ∷ []) = []
pop_back (x ∷ y ∷ xs) = x ∷ pop_back (y ∷ xs)

module _ {ℓ} (V : Type ℓ) where
  pub record Item : Type ℓ where
    pub iterator : ℕ
    pub key : Bytes
    pub value : V

  -- `next` is a name that no node has had.
  pub record LruCache : Type ℓ where
    pub capacity : ℕ
    pub items : List Item
    pub index : List (Bytes × ℕ)
    pub next : ℕ

module _ {ℓ} {V : Type ℓ} where
  unfoldable pub item_at : ℕ → List (Item V) → Option (Item V)
  item_at it [] = none
  item_at it (x ∷ xs) = if x.iterator == it then some x else item_at it xs

  unfoldable pub unlink : ℕ → List (Item V) → List (Item V)
  unlink it [] = []
  unlink it (x ∷ xs) = if x.iterator == it then xs else x ∷ unlink it xs

  -- the splice of `x` to the front
  unfoldable pub splice : Item V → List (Item V) → List (Item V)
  unfolding unlink
  splice x xs = x ∷ unlink x.iterator xs

  unfoldable pub get : Bytes → LruCache V → Option (Option V × LruCache V)
  unfolding item_at splice
  get key c = elim (map_find key c.index) [
    | none ↦ some (none, c)
    | some it ↦ elim (item_at it c.items) [
      | none ↦ none
      | some x ↦ some (some x.value, record c { items = splice x c.items })
    ]
  ]

  -- the eviction of the last item, if the list is full
  unfoldable pub make_room : LruCache V → Option (LruCache V)
  unfolding pop_back map_erase
  make_room c =
      if leb c.capacity (length c.items)
      then elim (get_last? c.items) [
        | none ↦ none
        | some last ↦
            some (record c { items = pop_back c.items; index = map_erase last.key c.index })
      ]
      else some c

  unfoldable pub push_front : Bytes → V → LruCache V → LruCache V
  unfolding map_put
  push_front key value c = record c {
    items = record { iterator = c.next; key = key; value = value } ∷ c.items;
    index = map_put key c.next c.index;
    next = c.next + 1;
  }

  unfoldable pub put : Bytes → V → LruCache V → Option (LruCache V)
  unfolding item_at unlink make_room push_front
  put key value c = elim (map_find key c.index) [
    | some it ↦ elim (item_at it c.items) [
      | none ↦ none
      | some x ↦ some (record c { items = record x { value = value } ∷ unlink it c.items })
    ]
    | none ↦ elim (make_room c) [ none ↦ none | some c' ↦ some (push_front key value c') ]
  ]

  unfoldable pub exists : Bytes → LruCache V → Bool
  exists key c = elim (map_find key c.index) [ none ↦ false | some it ↦ true ]

  unfoldable pub clear : LruCache V → LruCache V
  clear c = record c { items = []; index = [] }
