-- ===== src/Codec/Equality.antt =====
-- `operator==` of std::string decides equality.
use eya_kv.Prelude.{◌≡◌, refl, true, [], ◌∷◌, arith}
use eya_kv.Codec.Words.{Bytes}
use eya_kv.Codec.Containers.{bytes_eq}

pub bytes_eq→≡ : (a b : Bytes) → bytes_eq a b ≡ true → a ≡ b
unfolding bytes_eq
bytes_eq→≡ [] [] h = refl
bytes_eq→≡ (x ∷ a) (y ∷ b) h = ground (arith, bytes_eq→≡ a b)
bytes_eq→≡ [] (y ∷ b) h = cc
bytes_eq→≡ (x ∷ a) [] h = cc

pub bytes_eq_refl : (a : Bytes) → bytes_eq a a ≡ true
unfolding bytes_eq
bytes_eq_refl [] = refl
bytes_eq_refl (x ∷ a) = ground (arith, bytes_eq_refl a)
