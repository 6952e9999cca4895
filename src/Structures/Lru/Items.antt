-- ===== src/Structures/Lru/Items.antt =====
-- include/common/ds/lru_cache.h: what erasing, assigning and unlinking leave to be found.
use eya_kv.Prelude.{
  ℕ, suc, ◌≡◌, refl, ap, sym, ◌∙◌, true, false, ◌==◌, ==-refl, Bool-cases, if◌then◌else◌, none,
  some, List, [], ◌∷◌, map, length, get_last?, inl, inr, subst, arith,
}
use eya_kv.Codec.Words.{Bytes}
use eya_kv.Codec.Containers.{bytes_eq, map_find}
use eya_kv.Codec.Equality.{bytes_eq→≡}
use eya_kv.Codec.RoundTrip.{All}
use eya_kv.Structures.Lru.{Item, item_at, unlink, map_erase, map_put, pop_back}

pub bytes_eq_sym : (a b : Bytes) → bytes_eq a b ≡ bytes_eq b a
unfolding bytes_eq
bytes_eq_sym [] [] = refl
bytes_eq_sym [] (y ∷ b) = refl
bytes_eq_sym (x ∷ a) [] = refl
bytes_eq_sym (x ∷ a) (y ∷ b) = ground (arith, bytes_eq_sym a b)

-- Keys that are equal to one key are equal.
bytes_eq-same : (a b j : Bytes) → bytes_eq a j ≡ true → bytes_eq b j ≡ true → bytes_eq a b ≡ true
bytes_eq-same a b j h k = subst (λ (x : Bytes). bytes_eq a x ≡ true) (sym (bytes_eq→≡ b j k)) h

bytes_eq-left : (a b j : Bytes) → bytes_eq a b ≡ true → bytes_eq a j ≡ bytes_eq b j
bytes_eq-left a b j h = ap (λ (x : Bytes). bytes_eq x j) (bytes_eq→≡ a b h)

module _ {ℓ} {A : Type ℓ} where
  pub find-erase :
      (k j : Bytes) (m : List (Bytes × A))
      → map_find j (map_erase k m) ≡ (if bytes_eq k j then none else map_find j m)
  unfolding map_find map_erase
  find-erase k j [] = ground arith
  find-erase k j ((a, v) ∷ m) =
      ground (arith, find-erase k j m, bytes_eq-same a k j, bytes_eq-left a k j)

  pub find-put :
      (k j : Bytes) (v : A) (m : List (Bytes × A))
      → map_find j (map_put k v m) ≡ (if bytes_eq k j then some v else map_find j m)
  unfolding map_find map_put
  find-put k j v [] = refl
  find-put k j v ((a, w) ∷ m) =
      ground (arith, find-put k j v m, bytes_eq-same a k j, bytes_eq-left a k j)

  pub erase_absent : (k : Bytes) (m : List (Bytes × A)) → map_find k m ≡ none → map_erase k m ≡ m
  unfolding map_find map_erase
  erase_absent k [] h = refl
  erase_absent k ((a, v) ∷ m) h = ground (arith, erase_absent k m)

  -- A key that is put in front of the others stands for the one that was erased there.
  pub find-front :
      (k j : Bytes) (a : A) (m : List (Bytes × A))
      → map_find k m ≡ some a
      → map_find j ((k, a) ∷ map_erase k m) ≡ map_find j m
  unfolding map_find
  find-front k j a m h = elim (Bool-cases (bytes_eq k j)) [
    | inl e ↦ rw (e) (sym (subst (λ (i : Bytes). map_find i m ≡ some a) (bytes_eq→≡ k j e) h))
    | inr ne ↦ rw (ne, find-erase k j m, ne)
  ]

module _ {ℓ} {V : Type ℓ} where
  abbrev pub named : List (Item V) → List (Bytes × ℕ)
  named items = map (λ (x : Item V). (x.key, x.iterator)) items

  abbrev pub recent : List (Item V) → List (Bytes × V)
  recent items = map (λ (x : Item V). (x.key, x.value)) items

  -- Two nodes of a list have different keys and different names.
  abbrev pub Apart : Item V → Item V → Type 0
  Apart x y = (bytes_eq x.key y.key ≡ false) × ((x.iterator == y.iterator) ≡ false)

  abbrev pub Distinct : List (Item V) → Type 0
  Distinct [] = Unit {0}
  Distinct (x ∷ xs) = All (Apart x) xs × Distinct xs

  -- A key that is absent from the nodes is absent from what they hold.
  pub Apart-find {κ} :
      {B : Type κ} (g : Item V → B) (x : Item V) (xs : List (Item V))
      → All (Apart x) xs
      → map_find x.key (map (λ (y : Item V). (y.key, g y)) xs) ≡ none
  unfolding map_find
  Apart-find g x [] a = refl
  Apart-find g x (y ∷ xs) a = ground (arith, Apart-find g x xs a.1, bytes_eq_sym x.key y.key, a.0.0)

  -- The node that the name of a key leads to, and the list without it.
  pub record Found (k : Bytes) (it : ℕ) (items : List (Item V)) : Type (1 ⊔ ℓ) where
    pub item : Item V
    pub key_is : item.key ≡ k
    pub name_is : item.iterator ≡ it
    pub at_name : item_at it items ≡ some item
    pub value_is : map_find k (recent items) ≡ some item.value
    pub recent_is : recent (unlink it items) ≡ map_erase k (recent items)
    pub named_is : named (unlink it items) ≡ map_erase k (named items)
    pub length_is : suc (length (unlink it items)) ≡ length items
    pub others : (P : Item V → Type 0) → All P items → P item × All P (unlink it items)
    pub apart : All (Apart item) (unlink it items)
    pub distinct : Distinct (unlink it items)

  Apart-sym : (x y : Item V) → Apart x y → Apart y x
  Apart-sym x y a = (bytes_eq_sym y.key x.key ∙ a.0, ground (arith, a.1))

  here-Found :
      (k : Bytes) (x : Item V) (xs : List (Item V))
      → Distinct (x ∷ xs)
      → bytes_eq x.key k ≡ true
      → Found k x.iterator (x ∷ xs)
  unfolding item_at unlink map_find map_erase
  here-Found k x xs d h =
      let same = ==-refl x.iterator in
      let e = bytes_eq→≡ x.key k h in
      let absent =
        subst (λ (i : Bytes). map_find i (recent xs) ≡ none) e
          (Apart-find (λ (y : Item V). y.value) x xs d.0) in
      let unnamed =
        subst (λ (i : Bytes). map_find i (named xs) ≡ none) e
          (Apart-find (λ (y : Item V). y.iterator) x xs d.0) in
      record {
        item = x;
        key_is = bytes_eq→≡ x.key k h;
        name_is = refl;
        at_name = rw (same);
        value_is = rw (h);
        recent_is = rw (same, h, erase_absent k (recent xs) absent);
        named_is = rw (same, h, erase_absent k (named xs) unnamed);
        length_is = rw (same);
        others = λ P p. rw (same) p;
        apart = rw (same) d.0;
        distinct = rw (same) d.1;
      }

  later-Found :
      (k : Bytes) (it : ℕ) (x : Item V) (xs : List (Item V))
      → Distinct (x ∷ xs)
      → bytes_eq x.key k ≡ false
      → Found k it xs
      → Found k it (x ∷ xs)
  unfolding item_at unlink map_find map_erase
  later-Found k it x xs d h f =
      let other = f.others (Apart x) d.0 in
      let ne : (x.iterator == it) ≡ false =
        subst (λ (i : ℕ). (x.iterator == i) ≡ false) f.name_is other.0.1 in
      record {
        item = f.item;
        key_is = f.key_is;
        name_is = f.name_is;
        at_name = rw (ne) f.at_name;
        value_is = rw (h) f.value_is;
        recent_is = rw (ne, h, f.recent_is);
        named_is = rw (ne, h, f.named_is);
        length_is = rw (ne, f.length_is);
        others = λ P p. let q = f.others P p.1 in rw (ne) (q.0, (p.0, q.1));
        apart = rw (ne) (Apart-sym x f.item other.0, f.apart);
        distinct = rw (ne) (other.1, f.distinct);
      }

  pub found :
      (k : Bytes) (it : ℕ) (items : List (Item V))
      → Distinct items
      → map_find k (named items) ≡ some it
      → Found k it items
  unfolding map_find
  found k it [] d h = absurd cc
  found k it (x ∷ xs) d h = elim (Bool-cases (bytes_eq x.key k)) [
    | inl e ↦ subst (λ (i : ℕ). Found k i (x ∷ xs)) (ground (arith, h, e)) (here-Found k x xs d e)
    | inr ne ↦ later-Found k it x xs d ne (found k it xs d.1 (ground (arith, h, ne)))
  ]

  -- What the eviction of the last node leaves.
  pub record Evicted (items : List (Item V)) (last : Item V) : Type (1 ⊔ ℓ) where
    pub finds :
        (j : Bytes)
        → map_find j (named (pop_back items))
          ≡ (if bytes_eq last.key j then none else map_find j (named items))
    pub recent_is : recent (pop_back items) ≡ pop_back (recent items)
    pub length_is : suc (length (pop_back items)) ≡ length items
    pub keeps : (P : Item V → Type 0) → All P items → P last × All P (pop_back items)
    pub distinct : Distinct (pop_back items)

  pub evicted :
      (items : List (Item V)) (last : Item V)
      → Distinct items
      → get_last? items ≡ some last
      → Evicted items last
  unfolding map_find pop_back
  evicted [] last d h = absurd cc
  evicted (x ∷ []) last d h =
      subst (λ (l : Item V). Evicted (x ∷ []) l) (ground (arith, h))
        (record {
          finds = λ j. ground arith;
          recent_is = refl;
          length_is = refl;
          keeps = λ P p. p;
          distinct = tt;
        })
  evicted (x ∷ y ∷ xs) last d h =
      let e = evicted (y ∷ xs) last d.1 h in
      let rest = e.keeps (Apart x) d.0 in
      record {
        finds = λ j. ground (arith, e.finds j, bytes_eq-same x.key last.key j, rest.0.0);
        recent_is = rw (e.recent_is);
        length_is = ap suc e.length_is;
        keeps = λ P p. let q = e.keeps P p.1 in (q.0, (p.0, q.1));
        distinct = (rest.1, e.distinct);
      }
