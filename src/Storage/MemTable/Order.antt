-- ===== src/Storage/MemTable/Order.antt =====
-- src/storage/memtable.cpp: the keys of a shard are in the order of operator< of std::string.
use Prim.Native.Nat.{compare, Ordering}
use eya_kv.Prelude.{ℕ, ◌<◌, ◌≡◌, ◌⊎◌, inl, inr, refl, sym, ap, ◌∙◌, [], ◌∷◌, arith}
use eya_kv.Codec.Words.{Bytes}
use eya_kv.Storage.MemTable.{bytes_compare}
use eya_kv.Structures.SkipList.Search.{Ordering-cases}
use eya_kv.Structures.SkipList.Lookup.{IsOrder}

compare_lt : (a b : ℕ) → compare a b ≡ Ordering.lt → a < b
compare_lt a b h = ground arith

lt_compare : (a b : ℕ) → a < b → compare a b ≡ Ordering.lt
lt_compare a b h = ground arith

compare_eq : (a b : ℕ) → compare a b ≡ Ordering.eq → a ≡ b
compare_eq a b h = ground arith

compare_refl : (a : ℕ) → compare a a ≡ Ordering.eq
compare_refl a = ground arith

compare_gt : (a b : ℕ) → compare a b ≡ Ordering.gt → b < a
compare_gt a b h = ground arith

module _ (a b : ℕ) (x y : Bytes) where
  lt_byte : compare a b ≡ Ordering.lt → bytes_compare (a ∷ x) (b ∷ y) ≡ Ordering.lt
  unfolding bytes_compare
  lt_byte e = rw (bytes_compare, e)

  eq_byte : compare a b ≡ Ordering.eq → bytes_compare (a ∷ x) (b ∷ y) ≡ bytes_compare x y
  unfolding bytes_compare
  eq_byte e = rw (bytes_compare, e)

  gt_byte : compare a b ≡ Ordering.gt → bytes_compare (a ∷ x) (b ∷ y) ≡ Ordering.gt
  unfolding bytes_compare
  gt_byte e = rw (bytes_compare, e)

  -- What a string is that is smaller.
  lt-bytes :
      bytes_compare (a ∷ x) (b ∷ y) ≡ Ordering.lt
      → (a < b) ⊎ ((a ≡ b) × (bytes_compare x y ≡ Ordering.lt))
  lt-bytes h = elim (Ordering-cases (compare a b)) [
    | inl lt ↦ inl (compare_lt a b lt)
    | inr (inl eq) ↦ inr (compare_eq a b eq, sym (eq_byte eq) ∙ h)
    | inr (inr gt) ↦ (let e = gt_byte gt in cc (e, h))
  ]

  bytes-lt :
      (a < b) ⊎ ((a ≡ b) × (bytes_compare x y ≡ Ordering.lt))
      → bytes_compare (a ∷ x) (b ∷ y) ≡ Ordering.lt
  bytes-lt (inl lt) = lt_byte (lt_compare a b lt)
  bytes-lt (inr (e, h)) = eq_byte (ap (compare a) (sym e) ∙ compare_refl a) ∙ h

bytes_trans :
    (a b c : Bytes)
    → bytes_compare a b ≡ Ordering.lt
    → bytes_compare b c ≡ Ordering.lt
    → bytes_compare a c ≡ Ordering.lt
unfolding bytes_compare
bytes_trans [] [] c h k = k
bytes_trans [] (b ∷ y) [] h k = cc k
bytes_trans [] (b ∷ y) (c ∷ z) h k = refl
bytes_trans (a ∷ x) [] c h k = cc h
bytes_trans (a ∷ x) (b ∷ y) [] h k = cc k
bytes_trans (a ∷ x) (b ∷ y) (c ∷ z) h k = bytes-lt a c x z (elim (lt-bytes a b x y h) [
  | inl lt ↦ (elim (lt-bytes b c y z k) [
    | inl lt' ↦ inl (omega (arith, lt, lt'))
    | inr (e, k') ↦ inl (omega (arith, lt, e))
  ])
  | inr (e, h') ↦ (elim (lt-bytes b c y z k) [
    | inl lt' ↦ inl (omega (arith, lt', e))
    | inr (e', k') ↦ inr (e ∙ e', bytes_trans x y z h' k')
  ])
])

bytes_sound : (a b : Bytes) → bytes_compare a b ≡ Ordering.eq → a ≡ b
unfolding bytes_compare
bytes_sound [] [] h = refl
bytes_sound [] (b ∷ y) h = cc h
bytes_sound (a ∷ x) [] h = cc h
bytes_sound (a ∷ x) (b ∷ y) h = elim (Ordering-cases (compare a b)) [
  | inl lt ↦ (let e = lt_byte a b x y lt in cc (e, h))
  | inr (inl eq) ↦
      ap (λ (d : ℕ). d ∷ x) (compare_eq a b eq)
      ∙ ap (◌∷◌ b) (bytes_sound x y (sym (eq_byte a b x y eq) ∙ h))
  | inr (inr gt) ↦ (let e = gt_byte a b x y gt in cc (e, h))
]

bytes_refl : (a : Bytes) → bytes_compare a a ≡ Ordering.eq
unfolding bytes_compare
bytes_refl [] = refl
bytes_refl (a ∷ x) = eq_byte a a x x (compare_refl a) ∙ bytes_refl x

bytes_flip : (a b : Bytes) → bytes_compare a b ≡ Ordering.gt → bytes_compare b a ≡ Ordering.lt
unfolding bytes_compare
bytes_flip [] [] h = cc h
bytes_flip [] (b ∷ y) h = cc h
bytes_flip (a ∷ x) [] h = refl
bytes_flip (a ∷ x) (b ∷ y) h = elim (Ordering-cases (compare a b)) [
  | inl lt ↦ (let e = lt_byte a b x y lt in cc (e, h))
  | inr (inl eq) ↦
      bytes-lt b a y x
        (inr (sym (compare_eq a b eq), bytes_flip x y (sym (eq_byte a b x y eq) ∙ h)))
  | inr (inr gt) ↦ bytes-lt b a y x (inl (compare_gt a b gt))
]

pub bytes_compare-IsOrder : IsOrder bytes_compare
bytes_compare-IsOrder = record {
  lt_trans = bytes_trans;
  eq_sound = bytes_sound;
  eq_refl = bytes_refl;
  gt_flip = bytes_flip;
}
