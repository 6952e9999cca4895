-- ===== src/Codec/Extends.antt =====
-- Readers of include/common/serialization/serializer.h, and of the files that only grow, on more
-- bytes than they read.
use eya_kv.Prelude.{
  ℕ, zero, suc, ◌≤◌, ◌≡◌, refl, sym, ap, ◌∙◌, some, Option-cases, inl, inr, List, [], ◌∷◌, ◌++◌,
  length, take, drop, length-append, arith,
}
use eya_kv.Codec.Words.{Bytes, Reader, ◌>>=◌, get_u8, get_u32, bind_some, bind_none}
use eya_kv.Codec.Containers.{get_bytes}

-- More bytes at the end do not change what a reader has read.
abbrev pub Extends {ℓ} : {A : Type ℓ} → Reader A → Type ℓ
Extends {A} read =
    (xs rest more : Bytes) (a : A)
    → read xs ≡ some (a, rest)
    → read (xs ++ more) ≡ some (a, rest ++ more)

pub get_u32-Extends : Extends get_u32
unfolding get_u32
get_u32-Extends (a ∷ b ∷ c ∷ d ∷ xs) rest more x h = ground arith
get_u32-Extends (a ∷ b ∷ c ∷ []) rest more x h = cc
get_u32-Extends (a ∷ b ∷ []) rest more x h = cc
get_u32-Extends (a ∷ []) rest more x h = cc
get_u32-Extends [] rest more x h = cc

take-append_le {ℓ} :
    {A : Type ℓ} (n : ℕ) (xs ys : List A) → n ≤ length xs → take n (xs ++ ys) ≡ take n xs
take-append_le zero xs ys h = refl
take-append_le (suc n) [] ys h = absurd (omega arith)
take-append_le (suc n) (x ∷ xs) ys h = ap (◌∷◌ x) (take-append_le n xs ys (omega arith))

drop-append_le {ℓ} :
    {A : Type ℓ} (n : ℕ) (xs ys : List A) → n ≤ length xs → drop n (xs ++ ys) ≡ drop n xs ++ ys
drop-append_le zero xs ys h = refl
drop-append_le (suc n) [] ys h = absurd (omega arith)
drop-append_le (suc n) (x ∷ xs) ys h = drop-append_le n xs ys (omega arith)

pub get_u8-Extends : Extends get_u8
unfolding get_u8
get_u8-Extends (a ∷ xs) rest more x h = ground arith
get_u8-Extends [] rest more x h = cc

pub get_bytes-Extends : (len : ℕ) → Extends (get_bytes len)
unfolding get_bytes
get_bytes-Extends len xs rest more x h =
    ground (arith, length-append xs more, take-append_le len xs more, drop-append_le len xs more)

pub bind-Extends {ℓ κ} :
    {A : Type ℓ} {B : Type κ} (m : Reader A) (f : A → Reader B)
    → Extends m
    → ((a : A) → Extends (f a))
    → Extends (m >>= f)
bind-Extends m f hm hf xs rest more b h = elim (Option-cases (m xs)) [
  | inl e ↦ cc (bind_none m f e)
  | inr ((a, r), e) ↦
      bind_some m f (hm xs r more a e) ∙ hf a r rest more b (sym (bind_some m f e) ∙ h)
]
