-- ===== src/Storage/Processors/Deque/Range.antt =====
-- src/storage/processors.cpp: which elements l_range reads.
use eya_kv.Prelude.{
  ℕ, zero, suc, ◌+◌, ◌-◌, ◌≤◌, ◌≡◌, refl, ap, ◌∙◌, min, leb, Bool-cases, inl, inr, some, List, [],
  ◌∷◌, length, take, drop, ℤ, pos, negsuc, add_size, ◌⊎◌, arith,
}
use eya_kv.Effects.{returned, from_option, bind_returned}
use eya_kv.Codec.Words.{Bytes}
use eya_kv.Storage.MemTable.{Platform}
use eya_kv.Storage.Value.{deque}
use eya_kv.Storage.Engine.{Env, Storage, get, look}
use eya_kv.Storage.Processors.Deque.{
  wrap_index, clamp_start, clamp_end, elements, elements_between, range_of, read_deque, as_deque,
  l_range,
}

-- the first index of a range, and the one after its last, where a negative one counts from the end
abbrev pub first_of : ℤ → ℕ → ℕ
first_of (pos i) size = i
first_of (negsuc i) size = size - suc i

abbrev pub past_of : ℤ → ℕ → ℕ
past_of (pos i) size = min (i + 1) size
past_of (negsuc i) size = size - i

abbrev pub slice : ℤ → ℤ → List Bytes → List Bytes
slice start end dq =
    take (past_of end (length dq) - first_of start (length dq))
      (drop (first_of start (length dq)) dq)

elements-shift :
    (count i : ℕ) (x : Bytes) (dq : List Bytes)
    → elements count (suc i) (x ∷ dq) ≡ elements count i dq
unfolding elements
elements-shift zero i x dq = refl
elements-shift (suc count) i x dq =
    let next : elements count (suc i + 1) (x ∷ dq) ≡ elements count (i + 1) dq =
      ap (λ (j : ℕ). elements count j (x ∷ dq)) (omega arith) ∙ elements-shift count (i + 1) x dq in
    ground (arith, next)

elements-drop :
    (count i : ℕ) (dq : List Bytes)
    → i + count ≤ length dq
    → elements count i dq ≡ some (take count (drop i dq))
unfolding elements
elements-drop zero i dq h = refl
elements-drop (suc count) i [] h = absurd (omega arith)
elements-drop (suc count) zero (x ∷ dq) h =
    let next = elements-shift count 0 x dq ∙ elements-drop count 0 dq (omega arith) in
    rw (elements, next)
elements-drop (suc count) (suc i) (x ∷ dq) h =
    elements-shift (suc count) i x dq ∙ elements-drop (suc count) i dq (omega arith)

start-first : (start : ℤ) (size : ℕ) → clamp_start (wrap_index start size) ≡ first_of start size
unfolding wrap_index clamp_start add_size
start-first (pos i) size = refl
start-first (negsuc i) size = ground arith

elements_none : (count i : ℕ) (dq : List Bytes) → count ≡ 0 → elements count i dq ≡ some []
unfolding elements
elements_none count i dq e = rw (e)

-- The end of l_range after its end is clamped.
between :
    (s n : ℕ) (end : ℤ) (dq : List Bytes)
    → elements_between s (clamp_end (wrap_index end n) n) dq ≡ elements (past_of end n - s) s dq
unfolding wrap_index clamp_end add_size elements_between
between s n (pos i) dq = ground (arith, elements_none (min (i + 1) n - s) s dq)
between s n (negsuc i) dq = ground (arith, elements_none (n - i - s) s dq)

-- Nothing is read where the count is 0.
fits :
    (count i : ℕ) (dq : List Bytes)
    → (count ≡ 0) ⊎ (i + count ≤ length dq)
    → elements count i dq ≡ some (take count (drop i dq))
fits count i dq (inl e) = elements_none count i dq e ∙ rw (e)
fits count i dq (inr h) = elements-drop count i dq h

past-le : (end : ℤ) (n : ℕ) → past_of end n ≤ n
past-le (pos i) n = omega arith
past-le (negsuc i) n = omega arith

room : (s past n : ℕ) → past ≤ n → (past - s ≡ 0) ⊎ (s + (past - s) ≤ n)
room s past n h = elim (Bool-cases (leb past s)) [
  | inl e ↦ inl (ground (arith, e))
  | inr e ↦ inr (ground (arith, e))
]

range_of-slice :
    (start end : ℤ) (dq : List Bytes) → range_of start end dq ≡ some (slice start end dq)
unfolding range_of
range_of-slice start end dq =
    let n = length dq in
    let s = first_of start n in
    ap (λ (i : ℕ). elements_between i (clamp_end (wrap_index end n) n) dq) (start-first start n)
    ∙ between s n end dq
    ∙ fits (past_of end n - s) s dq (room s (past_of end n) n (past-le end n))

pub read_deque-some :
    {Z : Type 0} (p : Platform Z) (env : Env) (key : Bytes) (dq : List Bytes) (s : Storage Z)
    → get p env key s ≡ some (some (deque dq))
    → read_deque p env key s ≡ some (returned (some dq), s)
unfolding read_deque as_deque look
read_deque-some p env key dq s h =
    bind_returned (look (get p env key)) _ {s' = s} {a = some (deque dq)} (rw (look, h))

-- l_range of a list returns the elements from its first index to its last, both included, where a
-- negative index counts from the end and an index outside the list is cut off; it reads no index
-- outside the list, whatever the two integers are, and changes nothing.
pub l_range-slice :
    {Z : Type 0} (p : Platform Z) (env : Env) (key : Bytes) (start end : ℤ) (dq : List Bytes)
    (s : Storage Z)
    → get p env key s ≡ some (some (deque dq))
    → l_range p env key start end s ≡ some (returned (slice start end dq), s)
unfolding l_range
l_range-slice p env key start end dq s h =
    bind_returned (read_deque p env key) _ (read_deque-some p env key dq s h)
    ∙ ap (λ o. from_option o s) (range_of-slice start end dq)
