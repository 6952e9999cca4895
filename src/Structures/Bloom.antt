-- ===== src/Structures/Bloom.antt =====
-- `BloomFilter` of include/common/ds/bloom_filter.h and src/common/ds/bloom_filter.cpp.
pub mod Bits
pub mod Members
use Prim.Native.Nat.{bit_or, bit_and}
use eya_kv.Prelude.{
  ℕ, zero, suc, ◌+◌, ◌*◌, ◌/◌, ◌%◌, ◌^◌, Bool, true, not, ◌&&◌, ◌==◌, if◌then◌else◌, min, max, List,
  [], ◌∷◌, ◌++◌, length, get_or, set, replicate,
}
use eya_kv.Codec.Words.{Bytes, Reader, to_u32, put_u32, get_u32, ◌>>=◌, pure}
use eya_kv.Codec.Containers.{get_bytes}

pub record BloomFilter : Type 0 where
  pub bits : Bytes
  pub num_hash_functions : ℕ

-- The constructor. `scaled` is static_cast<size_t>(bits_per_key * 0.69), in floating point.
unfoldable pub new_filter : (ℕ → ℕ) → ℕ → ℕ → BloomFilter
new_filter scaled expected_elements bits_per_key = record {
  bits = replicate ((expected_elements * bits_per_key + 7) / 8) 0;
  num_hash_functions = min 30 (max 1 (scaled bits_per_key));
}

-- h1 and h2 of get_hashes, by their factors 31 and 37
unfoldable pub base_hash : ℕ → ℕ → Bytes → ℕ
base_hash factor h [] = h
base_hash factor h (byte ∷ key) = base_hash factor (to_u32 (h * factor + byte)) key

-- the hashes from the `i`-th on
unfoldable pub hashes_from : ℕ → ℕ → ℕ → ℕ → List ℕ
hashes_from zero i h1 h2 = []
hashes_from (suc count) i h1 h2 = to_u32 (h1 + i * h2) ∷ hashes_from count (i + 1) h1 h2

unfoldable pub get_hashes : Bytes → BloomFilter → List ℕ
unfolding base_hash hashes_from
get_hashes key f = hashes_from f.num_hash_functions 0 (base_hash 31 0 key) (base_hash 37 0 key)

-- bits_[bit_pos / 8] |= (1 << (bit_pos % 8))
unfoldable pub set_bit : Bytes → ℕ → Bytes
set_bit bits bit_pos =
    set bits (bit_pos / 8) (bit_or (get_or bits (bit_pos / 8) 0) (2 ^ (bit_pos % 8)))

-- bits_[bit_pos / 8] & (1 << (bit_pos % 8))
unfoldable pub has_bit : Bytes → ℕ → Bool
has_bit bits bit_pos = not (bit_and (get_or bits (bit_pos / 8) 0) (2 ^ (bit_pos % 8)) == 0)

unfoldable pub set_all : ℕ → List ℕ → Bytes → Bytes
unfolding set_bit
set_all num_bits [] bits = bits
set_all num_bits (hash ∷ hashes) bits = set_all num_bits hashes (set_bit bits (hash % num_bits))

unfoldable pub has_all : ℕ → List ℕ → Bytes → Bool
unfolding has_bit
has_all num_bits [] bits = true
has_all num_bits (hash ∷ hashes) bits =
    let rest = has_all num_bits hashes bits in has_bit bits (hash % num_bits) && rest

unfoldable pub add : Bytes → BloomFilter → BloomFilter
unfolding get_hashes set_all
add key f =
    if length f.bits == 0
    then f
    else record f { bits = set_all (length f.bits * 8) (get_hashes key f) f.bits }

unfoldable pub may_contain : Bytes → BloomFilter → Bool
unfolding get_hashes has_all
may_contain key f =
    if length f.bits == 0 then true else has_all (length f.bits * 8) (get_hashes key f) f.bits

unfoldable pub serialize_filter : BloomFilter → Bytes
serialize_filter f =
    put_u32 (to_u32 f.num_hash_functions) ++ (put_u32 (to_u32 (length f.bits)) ++ f.bits)

unfoldable pub deserialize_filter : Reader BloomFilter
deserialize_filter = get_u32 >>= λ num_hashes. get_u32 >>= λ bits_size.
    get_bytes bits_size >>= λ bits. pure (record { bits = bits; num_hash_functions = num_hashes })
