-- ===== src/Structures/Lru/Recency.antt =====
-- include/common/ds/lru_cache.h: the cache refines a list of keys and values by recency.
use eya_kv.Prelude.{
  ℕ, ◌<◌, ◌≡◌, refl, sym, ◌∙◌, leb, Option-cases, if◌then◌else◌, Option, none, some, List, [], ◌∷◌,
  length, inl, inr, arith,
}
use eya_kv.Codec.Words.{Bytes}
use eya_kv.Codec.Containers.{map_find}
use eya_kv.Structures.Lru.{
  Item, LruCache, get, put, push_front, unlink, splice, map_erase, pop_back,
}
use eya_kv.Structures.Lru.Items.{named, recent, found, Found, find-front}
use eya_kv.Structures.Lru.Room.{IsCache, make_room-Room, pushed-IsCache}

module _ {ℓ} {V : Type ℓ} where
  -- What a get does to a list by recency: the key that it finds goes to the front.
  abbrev pub touch : Bytes → List (Bytes × V) → Option V × List (Bytes × V)
  touch key l = elim (map_find key l) [
    | none ↦ (none, l)
    | some value ↦ (some value, (key, value) ∷ map_erase key l)
  ]

  -- What a put does to it: the key goes to the front, and a new key pushes the last one out of a
  -- full list.
  abbrev pub store : ℕ → Bytes → V → List (Bytes × V) → List (Bytes × V)
  store capacity key value l = elim (map_find key l) [
    | some old ↦ (key, value) ∷ map_erase key l
    | none ↦ (key, value) ∷ (if leb capacity (length l) then pop_back l else l)
  ]

  absent_in :
      (k : Bytes) (items : List (Item V))
      → map_find k (named items) ≡ none
      → map_find k (recent items) ≡ none
  unfolding map_find
  absent_in k [] h = refl
  absent_in k (x ∷ xs) h = ground (arith, absent_in k xs)

  -- The node that a key was found at, moved to the front with any value, keeps the cache well-formed.
  moved-IsCache :
      (c : LruCache V) (k : Bytes) (it : ℕ) (v : V)
      → IsCache c
      → map_find k c.index ≡ some it
      → (f : Found k it c.items)
      → IsCache (record c { items = record f.item { value = v } ∷ unlink it c.items })
  moved-IsCache c k it v w h f = record {
    indexed = λ j.
        w.indexed j
        ∙ sym (
            rw (f.key_is, f.name_is, f.named_is)
              (find-front k j it (named c.items) (sym (w.indexed k) ∙ h)));
    distinct = (f.apart, f.distinct);
    fresh = f.others (λ x. x.iterator < c.next) w.fresh;
    bounded = omega (arith, w.bounded, f.length_is);
  }

  -- A get of a well-formed cache is a touch of its list by recency: it returns the value under the
  -- key if there is one and moves it to the front, never uses a dangling iterator, and keeps the
  -- cache well-formed with the same capacity.
  pub get-touches :
      (key : Bytes) (c : LruCache V)
      → IsCache c
      → (c' : LruCache V) × (get key c ≡ some ((touch key (recent c.items)).0, c'))
        × (recent c'.items ≡ (touch key (recent c.items)).1)
        × (c'.capacity ≡ c.capacity)
        × IsCache c'
  unfolding get splice
  get-touches key c w = elim (Option-cases (map_find key c.index)) [
    | inl e ↦
        (let out = absent_in key c.items (sym (w.indexed key) ∙ e) in
          (c, rw (get, touch, e, out), rw (touch, out), refl, w))
    | inr (it, e) ↦
        (let f = found key it c.items w.distinct (sym (w.indexed key) ∙ e) in
          (
            record c { items = f.item ∷ unlink it c.items },
            rw (get, touch, e, f.at_name, f.value_is, f.name_is),
            rw (touch, f.key_is, f.value_is, f.recent_is),
            refl,
            moved-IsCache c key it f.item.value w e f,
          ))
  ]

  -- A put into a well-formed cache with a capacity stores the value at the front of its list by
  -- recency, drops the last key of a full list for a new one, never uses a dangling iterator, and
  -- keeps the cache well-formed with the same capacity.
  pub put-stores :
      (key : Bytes) (value : V) (c : LruCache V)
      → IsCache c
      → 0 < c.capacity
      → (c' : LruCache V) × (put key value c ≡ some c')
        × (recent c'.items ≡ store c.capacity key value (recent c.items))
        × (c'.capacity ≡ c.capacity)
        × IsCache c'
  unfolding put push_front
  put-stores key value c w pos = elim (Option-cases (map_find key c.index)) [
    | inl e ↦
        (let out = absent_in key c.items (sym (w.indexed key) ∙ e) in
          let (c', made, r) = make_room-Room c w pos in
          (
            push_front key value c',
            rw (put, e, made),
            rw (store, out, r.holds),
            r.same_capacity,
            pushed-IsCache key value c' r.well_formed r.room (r.still_absent key e),
          ))
    | inr (it, e) ↦
        (let f = found key it c.items w.distinct (sym (w.indexed key) ∙ e) in
          (
            record c { items = record f.item { value = value } ∷ unlink it c.items },
            rw (put, e, f.at_name),
            rw (store, f.key_is, f.value_is, f.recent_is),
            refl,
            moved-IsCache c key it value w e f,
          ))
  ]
