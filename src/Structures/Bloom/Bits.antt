-- ===== src/Structures/Bloom/Bits.antt =====
-- src/common/ds/bloom_filter.cpp: setting bits of a byte table, and the bits that stay set.
use Prim.Native.Nat.{bit_or, bit_and}
use native.Mathlib.Nat.{mod-lt}
use eya_kv.Prelude.{
  ℕ, zero, suc, ◌*◌, ◌/◌, ◌%◌, ◌^◌, ◌<◌, ◌≡◌, refl, ap, subst, ◌∙◌, Bool, true, not, ◌&&◌, ◌==◌,
  ltb, if◌then◌else◌, List, [], ◌∷◌, length, get_or, set, length-set, arith, inl, inr, Bool-cases,
  ==→≡, ==-refl,
}
use eya_kv.Codec.Words.{Bytes}
use eya_kv.Codec.RoundTrip.{All}
use eya_kv.Structures.Bloom.{set_bit, has_bit, set_all, has_all}

-- A test on all numbers below a bound.
abbrev all_below : ℕ → (ℕ → Bool) → Bool
all_below zero f = true
all_below (suc n) f = f n && all_below n f

all_below_lem : (n : ℕ) (f : ℕ → Bool) → all_below n f ≡ true → (i : ℕ) → i < n → f i ≡ true
all_below_lem zero f h i k = absurd (omega arith)
all_below_lem (suc n) f h i k = elim (Bool-cases (i == n)) [
  | inl e ↦ ap f (==→≡ i n e) ∙ ground arith
  | inr ne ↦ all_below_lem n f (ground arith) i (ground arith)
]

abbrev is_set : ℕ → ℕ → Bool
is_set x b = not (bit_and x (2 ^ b) == 0)

-- Setting bit b of a byte x: the byte stays one, has the bit, and has its other bits c still.
abbrev keeps_bit : ℕ → ℕ → ℕ → Bool
keeps_bit x b c =
    let y = bit_or x (2 ^ b) in
    ltb y 256 && (is_set y b && (if is_set x c then is_set y c else true))

table : all_below 256 (λ x. all_below 8 (λ b. all_below 8 (λ c. keeps_bit x b c))) ≡ true
table = refl

bit_set : (x b c : ℕ) → x < 256 → b < 8 → c < 8 → keeps_bit x b c ≡ true
bit_set x b c h k l =
    all_below_lem 8 (λ c. keeps_bit x b c)
      (all_below_lem 8 (λ b. all_below 8 (λ c. keeps_bit x b c))
        (all_below_lem 256 (λ x. all_below 8 (λ b. all_below 8 (λ c. keeps_bit x b c))) table x h) b
        k)
      c l

get_or-set :
    (bits : Bytes) (i j v : ℕ)
    → i < length bits
    → get_or (set bits i v) j 0 ≡ (if j == i then v else get_or bits j 0)
get_or-set [] i j v h = absurd (omega arith)
get_or-set (x ∷ xs) zero zero v h = refl
get_or-set (x ∷ xs) zero (suc j) v h = ground arith
get_or-set (x ∷ xs) (suc i) zero v h = ground arith
get_or-set (x ∷ xs) (suc i) (suc j) v h = ground (arith, get_or-set xs i j v (omega arith))

abbrev pub IsByte : ℕ → Type 0
IsByte x = x < 256

get_or-byte : (bits : Bytes) (i : ℕ) → All IsByte bits → get_or bits i 0 < 256
get_or-byte [] i a = omega arith
get_or-byte (x ∷ xs) zero a = a.0
get_or-byte (x ∷ xs) (suc i) a = get_or-byte xs i a.1

set-bytes : (bits : Bytes) (i v : ℕ) → All IsByte bits → v < 256 → All IsByte (set bits i v)
set-bytes [] i v a h = tt
set-bytes (x ∷ xs) zero v a h = (h, a.1)
set-bytes (x ∷ xs) (suc i) v a h = (a.0, set-bytes xs i v a.1 h)

set_bit-bytes : (bits : Bytes) (p : ℕ) → All IsByte bits → All IsByte (set_bit bits p)
unfolding set_bit
set_bit-bytes bits p a = set-bytes bits (p / 8) (bit_or (get_or bits (p / 8) 0) (2 ^ (p % 8))) a (
    let k =
      bit_set (get_or bits (p / 8) 0) (p % 8) 0 (get_or-byte bits (p / 8) a) (omega arith)
        (omega arith) in
    ground arith)

length-set_bit : (bits : Bytes) (p : ℕ) → length (set_bit bits p) ≡ length bits
unfolding set_bit
length-set_bit bits p = length-set bits (p / 8) (bit_or (get_or bits (p / 8) 0) (2 ^ (p % 8)))

has_bit-set_bit :
    (bits : Bytes) (p : ℕ)
    → All IsByte bits
    → p < length bits * 8
    → has_bit (set_bit bits p) p ≡ true
unfolding set_bit has_bit
has_bit-set_bit bits p a h =
    let x = get_or bits (p / 8) 0 in
    let same = get_or-set bits (p / 8) (p / 8) (bit_or x (2 ^ (p % 8))) (omega arith) in
    let k = bit_set x (p % 8) 0 (get_or-byte bits (p / 8) a) (omega arith) (omega arith) in
    rw (same, ==-refl) (ground arith)

set_bit_keeps :
    (bits : Bytes) (p q : ℕ)
    → All IsByte bits
    → p < length bits * 8
    → has_bit bits q ≡ true
    → has_bit (set_bit bits p) q ≡ true
unfolding set_bit has_bit
set_bit_keeps bits p q a h old =
    let x = get_or bits (p / 8) 0 in
    let other = get_or-set bits (p / 8) (q / 8) (bit_or x (2 ^ (p % 8))) (omega arith) in
    let k = bit_set x (p % 8) (q % 8) (get_or-byte bits (p / 8) a) (omega arith) (omega arith) in
    elim (Bool-cases (q / 8 == p / 8)) [
      | inl e ↦
          (let still : is_set x (q % 8) ≡ true =
              subst (λ (i : ℕ). is_set (get_or bits i 0) (q % 8) ≡ true) (==→≡ (q / 8) (p / 8) e)
                old in
            rw (other, e) (ground arith))
      | inr ne ↦ rw (other, ne) old
    ]

-- Setting bits keeps the length, the bytes, and what was set.
pub record Grows (old new : Bytes) : Type 0 where
  pub same_length : length new ≡ length old
  pub stay_bytes : All IsByte new
  pub still_set : (q : ℕ) → has_bit old q ≡ true → has_bit new q ≡ true

pub set_all-Grows :
    (hashes : List ℕ) (bits : Bytes)
    → 0 < length bits
    → All IsByte bits
    → Grows bits (set_all (length bits * 8) hashes bits)
unfolding set_all
set_all-Grows [] bits pos a = record { same_length = refl; stay_bytes = a; still_set = λ q h. h }
set_all-Grows (hash ∷ hashes) bits pos a =
    let p = hash % (length bits * 8) in
    let n = length-set_bit bits p in
    let g = set_all-Grows hashes (set_bit bits p) (omega (arith, n)) (set_bit-bytes bits p a) in
    subst (λ (m : ℕ). Grows bits (set_all (m * 8) hashes (set_bit bits p))) n
      (record {
        same_length = g.same_length ∙ n;
        stay_bytes = g.stay_bytes;
        still_set = λ q h. g.still_set q (set_bit_keeps bits p q a (mod-lt hash (omega arith)) h);
      })

pub has_all-set_all :
    (hashes : List ℕ) (bits : Bytes)
    → 0 < length bits
    → All IsByte bits
    → has_all (length bits * 8) hashes (set_all (length bits * 8) hashes bits) ≡ true
unfolding set_all has_all
has_all-set_all [] bits pos a = refl
has_all-set_all (hash ∷ hashes) bits pos a =
    let p = hash % (length bits * 8) in
    let n = length-set_bit bits p in
    let grown =
      subst (λ (m : ℕ). Grows (set_bit bits p) (set_all (m * 8) hashes (set_bit bits p))) n
        (set_all-Grows hashes (set_bit bits p) (omega (arith, n)) (set_bit-bytes bits p a)) in
    let first = grown.still_set p (has_bit-set_bit bits p a (mod-lt hash (omega arith))) in
    let others =
      subst (λ (m : ℕ). has_all (m * 8) hashes (set_all (m * 8) hashes (set_bit bits p)) ≡ true) n
        (has_all-set_all hashes (set_bit bits p) (omega (arith, n)) (set_bit-bytes bits p a)) in
    rw (first, others)

pub has_all-Grows :
    (num_bits : ℕ) (hashes : List ℕ) (old new : Bytes)
    → Grows old new
    → has_all num_bits hashes old ≡ true
    → has_all num_bits hashes new ≡ true
unfolding has_all
has_all-Grows num_bits [] old new g h = refl
has_all-Grows num_bits (hash ∷ hashes) old new g h =
    let first = g.still_set (hash % num_bits) (ground arith) in
    let others = has_all-Grows num_bits hashes old new g (ground arith) in rw (first, others)
