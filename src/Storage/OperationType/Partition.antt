-- ===== src/Storage/OperationType/Partition.antt =====
-- include/common/types/operation_type.h: the three tables share out the codes.
use eya_kv.Prelude.{
  ℕ, zero, suc, ◌+◌, ◌<◌, ◌≡◌, refl, ap, ◌∙◌, Bool, true, false, ◌&&◌, ◌==◌, leb, ==→≡, Bool-cases,
  if◌then◌else◌, List, [], ◌∷◌, inl, inr, arith,
}
use eya_kv.Storage.OperationType.{
  k_get_status, has_type, read_types, write_types, raft_types, is_read_operation,
  is_write_operation, is_raft_operation,
}

one_of : Bool → ℕ
one_of b = if b then 1 else 0

-- of how many of the three kinds a code is
unfoldable pub kinds : ℕ → ℕ
unfolding is_read_operation is_write_operation is_raft_operation one_of
kinds op_type =
    one_of (is_read_operation op_type)
    + one_of (is_write_operation op_type)
    + one_of (is_raft_operation op_type)

all_below : ℕ → (ℕ → Bool) → Bool
all_below zero f = true
all_below (suc n) f = f n && all_below n f

all_below-lt : (n i : ℕ) (f : ℕ → Bool) → all_below n f ≡ true → i < n → f i ≡ true
unfolding all_below
all_below-lt zero i f h k = absurd (omega arith)
all_below-lt (suc n) i f h k = elim (Bool-cases (i == n)) [
  | inl e ↦ ap f (==→≡ i n e) ∙ ground (arith, h)
  | inr e ↦ all_below-lt n i f (ground (arith, h)) (ground (arith, e))
]

all_le : ℕ → List ℕ → Bool
all_le m [] = true
all_le m (t ∷ types) = leb t m && all_le m types

has_type_above :
    (m n : ℕ) (types : List ℕ) → all_le m types ≡ true → m < n → has_type n types ≡ false
unfolding all_le has_type
has_type_above m n [] h k = refl
has_type_above m n (t ∷ types) h k = ground (arith, h, has_type_above m n types)

one_kind : (op_type : ℕ) → op_type < 40 → (kinds op_type == 1) ≡ true
unfolding kinds all_below
one_kind op_type h = all_below-lt 40 op_type (λ n. kinds n == 1) refl h

-- Each code of the table is of exactly one of the three kinds, a read, a write or a Raft command, and
-- each other number of none.
pub kinds-eq-one : (op_type : ℕ) → kinds op_type ≡ (if leb op_type k_get_status then 1 else 0)
unfolding kinds read_types write_types raft_types all_le
kinds-eq-one op_type = elim (Bool-cases (leb op_type k_get_status)) [
  | inl e ↦ rw (e) (ground (arith, one_kind op_type))
  | inr e ↦ rw (
    e,
    has_type_above 39 op_type read_types refl (ground (arith, e)),
    has_type_above 39 op_type write_types refl (ground (arith, e)),
    has_type_above 39 op_type raft_types refl (ground (arith, e)),
  )
]
