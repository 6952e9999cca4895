-- ===== src/Structures/Lru/Room.antt =====
-- include/common/ds/lru_cache.h: a well-formed cache, and the eviction and the push of a put.
use eya_kv.Prelude.{
  suc, ◌+◌, ◌<◌, ◌≤◌, ◌≡◌, refl, ap, sym, ◌∙◌, true, leb, Bool-cases, Option-cases, if◌then◌else◌,
  none, some, List, [], ◌∷◌, length, get_last?, inl, inr, arith,
}
use eya_kv.Codec.Words.{Bytes}
use eya_kv.Codec.Containers.{map_find}
use eya_kv.Codec.RoundTrip.{All}
use eya_kv.Structures.Lru.{Item, LruCache, make_room, push_front, map_erase, pop_back}
use eya_kv.Structures.Lru.Items.{
  named, recent, Distinct, Apart, evicted, find-put, find-erase, bytes_eq_sym,
}

module _ {ℓ} {V : Type ℓ} where
  -- The index leads each key to its node, nodes have different keys and names, and there is room.
  pub record IsCache (c : LruCache V) : Type ℓ where
    pub indexed : (k : Bytes) → map_find k c.index ≡ map_find k (named c.items)
    pub distinct : Distinct c.items
    pub fresh : All (λ x. x.iterator < c.next) c.items
    pub bounded : length c.items ≤ c.capacity

  -- A cache with room for one more, and what it holds.
  pub record Room (c c' : LruCache V) : Type ℓ where
    pub well_formed : IsCache c'
    pub room : length c'.items < c'.capacity
    pub same_capacity : c'.capacity ≡ c.capacity
    pub holds : recent c'.items ≡ (
        if leb c.capacity (length (recent c.items))
        then pop_back (recent c.items)
        else recent c.items)
    pub still_absent : (k : Bytes) → map_find k c.index ≡ none → map_find k c'.index ≡ none

  pub length-recent : (items : List (Item V)) → length (recent items) ≡ length items
  length-recent [] = refl
  length-recent (x ∷ xs) = ap suc (length-recent xs)

  last_none : (items : List (Item V)) → get_last? items ≡ none → length items ≡ 0
  last_none [] h = refl
  last_none (x ∷ []) h = absurd cc
  last_none (x ∷ y ∷ xs) h = absurd (omega (arith, last_none (y ∷ xs) h))

  evicted-Room :
      (c : LruCache V) (last : Item V)
      → IsCache c
      → 0 < c.capacity
      → leb c.capacity (length c.items) ≡ true
      → get_last? c.items ≡ some last
      → Room c (record c { items = pop_back c.items; index = map_erase last.key c.index })
  evicted-Room c last w pos full h =
      let e = evicted c.items last w.distinct h in
      record {
        well_formed = record {
          indexed = λ j. find-erase last.key j c.index ∙ rw (w.indexed j) (sym (e.finds j));
          distinct = e.distinct;
          fresh = (e.keeps (λ x. x.iterator < c.next) w.fresh).1;
          bounded = omega (arith, w.bounded, e.length_is);
        };
        room = omega (arith, w.bounded, e.length_is);
        same_capacity = refl;
        holds = rw (length-recent c.items, full) e.recent_is;
        still_absent = λ k none_there. find-erase last.key k c.index ∙ ground (arith, none_there);
      }

  pub make_room-Room :
      (c : LruCache V)
      → IsCache c
      → 0 < c.capacity
      → (c' : LruCache V) × (make_room c ≡ some c') × Room c c'
  unfolding make_room
  make_room-Room c w pos = elim (Bool-cases (leb c.capacity (length c.items))) [
    | inr free ↦ (
      c,
      rw (free),
      record {
        well_formed = w;
        room = ground arith;
        same_capacity = refl;
        holds = rw (length-recent c.items, free);
        still_absent = λ k h. h;
      },
    )
    | inl full ↦ elim (Option-cases (get_last? c.items)) [
      | inl e ↦ (let z = last_none c.items e in absurd (ground (arith, z, pos, full)))
      | inr (last, e) ↦ (
        record c { items = pop_back c.items; index = map_erase last.key c.index },
        rw (full, e),
        evicted-Room c last w pos full e,
      )
    ]
  ]

  pub pushed-IsCache :
      (key : Bytes) (value : V) (c : LruCache V)
      → IsCache c
      → length c.items < c.capacity
      → map_find key c.index ≡ none
      → IsCache (push_front key value c)
  unfolding push_front map_find
  pushed-IsCache key value c w room out = record {
    indexed = λ j. find-put key j c.next c.index ∙ rw (w.indexed j);
    distinct = (new_apart c.items (sym (w.indexed key) ∙ out) w.fresh, w.distinct);
    fresh = (omega arith, rise c.items w.fresh);
    bounded = omega (arith, room);
  }
    where
      rise :
          (xs : List (Item V))
          → All (λ x. x.iterator < c.next) xs
          → All (λ x. x.iterator < c.next + 1) xs
      rise [] a = tt
      rise (x ∷ xs) a = (omega (arith, a.0), rise xs a.1)

      new_apart :
          (xs : List (Item V))
          → map_find key (named xs) ≡ none
          → All (λ x. x.iterator < c.next) xs
          → All (Apart (record { iterator = c.next; key = key; value = value })) xs
      new_apart [] h a = tt
      new_apart (x ∷ xs) h a = (
        (ground (arith, h, bytes_eq_sym key x.key), ground (arith, a.0)),
        new_apart xs (ground (arith, h)) a.1,
      )
