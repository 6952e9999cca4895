-- ===== src/Structures/Bloom/Members.antt =====
-- src/common/ds/bloom_filter.cpp: a filter has no false negatives, and comes back from its bytes.
use eya_kv.Prelude.{
  ◌^◌, ◌*◌, ◌<◌, ◌≡◌, ◌∙◌, true, ◌==◌, Bool-cases, inl, inr, List, [], ◌∷◌, ◌++◌, length, arith,
  some,
}
use eya_kv.Codec.Words.{Bytes, put_u32, get_u32, get_u32-put_u32, bind_some}
use eya_kv.Codec.RoundTrip.{All, read_field, to_u32_id, get_bytes-append}
use eya_kv.Codec.Containers.{get_bytes}
use eya_kv.Structures.Bloom.{
  BloomFilter, get_hashes, add, may_contain, serialize_filter, deserialize_filter,
}
use eya_kv.Structures.Bloom.Bits.{IsByte, set_all-Grows, has_all-set_all, has_all-Grows}

-- A filter that the keys were added to, in this order.
abbrev pub add_all : List Bytes → BloomFilter → BloomFilter
add_all [] f = f
add_all (key ∷ keys) f = add_all keys (add key f)

pub add-bytes : (key : Bytes) (f : BloomFilter) → All IsByte f.bits → All IsByte (add key f).bits
unfolding add
add-bytes key f a = elim (Bool-cases (length f.bits == 0)) [
  | inl e ↦ rw (e) a
  | inr ne ↦ rw (ne) (set_all-Grows (get_hashes key f) f.bits (ground arith) a).stay_bytes
]

pub add_has :
    (key : Bytes) (f : BloomFilter) → All IsByte f.bits → may_contain key (add key f) ≡ true
unfolding add may_contain get_hashes
add_has key f a = elim (Bool-cases (length f.bits == 0)) [
  | inl e ↦ rw (e, e)
  | inr ne ↦
      (let g = set_all-Grows (get_hashes key f) f.bits (ground arith) a in
        let has = has_all-set_all (get_hashes key f) f.bits (ground arith) a in
        rw (ne, g.same_length, ne, has))
]

pub add_keeps :
    (key k : Bytes) (f : BloomFilter)
    → All IsByte f.bits
    → may_contain key f ≡ true
    → may_contain key (add k f) ≡ true
unfolding add may_contain get_hashes
add_keeps key k f a h = elim (Bool-cases (length f.bits == 0)) [
  | inl e ↦ rw (e, e)
  | inr ne ↦
      (let g = set_all-Grows (get_hashes k f) f.bits (ground arith) a in
        let kept =
          has_all-Grows (length f.bits * 8) (get_hashes key f) f.bits _ g (ground (arith, ne, h)) in
        rw (ne, g.same_length, ne, kept))
]

add_all_keeps :
    (keys : List Bytes) (key : Bytes) (f : BloomFilter)
    → All IsByte f.bits
    → may_contain key f ≡ true
    → may_contain key (add_all keys f) ≡ true
add_all_keeps [] key f a h = h
add_all_keeps (k ∷ keys) key f a h =
    add_all_keeps keys key (add k f) (add-bytes k f a) (add_keeps key k f a h)

-- A key that was added to a filter of bytes may be in it, whatever was added before and after: the
-- filter has no false negatives, an empty table included.
pub no_false_negatives :
    (before after : List Bytes) (key : Bytes) (f : BloomFilter)
    → All IsByte f.bits
    → may_contain key (add_all (before ++ key ∷ after) f) ≡ true
no_false_negatives [] after key f a =
    add_all_keeps after key (add key f) (add-bytes key f a) (add_has key f a)
no_false_negatives (k ∷ before) after key f a =
    no_false_negatives before after key (add k f) (add-bytes k f a)

-- A filter whose two sizes fit in 32 bits comes back from its bytes.
pub filter_round_trip :
    (f : BloomFilter) (rest : Bytes)
    → f.num_hash_functions < 2 ^ 32
    → length f.bits < 2 ^ 32
    → deserialize_filter (serialize_filter f ++ rest) ≡ some (f, rest)
unfolding serialize_filter deserialize_filter
filter_round_trip f rest h k =
    rw (to_u32_id f.num_hash_functions h, to_u32_id (length f.bits) k)
      (read_field put_u32 get_u32 _ f.num_hash_functions _ rest
          (λ r. get_u32-put_u32 f.num_hash_functions r h)
        ∙ read_field put_u32 get_u32 _ (length f.bits) _ rest
            (λ r. get_u32-put_u32 (length f.bits) r k)
        ∙ bind_some (get_bytes (length f.bits)) _ (get_bytes-append f.bits rest))
