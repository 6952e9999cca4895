-- ===== src/Codec/Words.antt =====
-- `memcpy` of uint8_t, uint32_t and uint64_t on a little-endian host, `htonl` and `ntohl`, and the
-- monad of the deserializers (an offset that moves forward).
use eya_kv.Prelude.{
  ℕ, ◌+◌, ◌*◌, ◌/◌, ◌%◌, ◌^◌, ◌<◌, ◌≡◌, ap, ◌∙◌, Option, none, some, List, [], ◌∷◌, ◌++◌, arith,
}

abbrev pub Bytes : Type 0
Bytes = List ℕ

abbrev pub Reader {ℓ} : Type ℓ → Type ℓ
Reader A = Bytes → Option (A × Bytes)

infixl 10 ◌>>=◌
abbrev pub ◌>>=◌ {ℓ κ} : {A : Type ℓ} {B : Type κ} → Reader A → (A → Reader B) → Reader B
◌>>=◌ m f xs = elim (m xs) [ none ↦ none | some (a, rest) ↦ f a rest ]

abbrev pub pure {ℓ} : {A : Type ℓ} → A → Reader A
pure a xs = some (a, xs)

-- static_cast<uint32_t>
abbrev pub to_u32 : ℕ → ℕ
to_u32 n = n % 2 ^ 32

unfoldable pub put_u8 : ℕ → Bytes
put_u8 x = (x % 256) ∷ []

unfoldable pub get_u8 : Reader ℕ
get_u8 (a ∷ rest) = some (a, rest)
get_u8 _ = none

-- the bytes of a uint32_t, the low one first
unfoldable pub put_u32 : ℕ → Bytes
put_u32 x = (x % 256) ∷ (x / 2 ^ 8 % 256) ∷ (x / 2 ^ 16 % 256) ∷ (x / 2 ^ 24 % 256) ∷ []

unfoldable pub get_u32 : Reader ℕ
get_u32 (a ∷ b ∷ c ∷ d ∷ rest) = some (a + b * 2 ^ 8 + c * 2 ^ 16 + d * 2 ^ 24, rest)
get_u32 _ = none

-- swaps the four bytes; `ntohl` is the same function
unfoldable pub htonl : ℕ → ℕ
htonl x = x % 256 * 2 ^ 24 + x / 2 ^ 8 % 256 * 2 ^ 16 + x / 2 ^ 16 % 256 * 2 ^ 8 + x / 2 ^ 24 % 256

pub bind_some {ℓ κ} :
    {A : Type ℓ} {B : Type κ} (m : Reader A) (f : A → Reader B) {xs rest : Bytes} {a : A}
    → m xs ≡ some (a, rest)
    → (m >>= f) xs ≡ f a rest
bind_some m f e = ap (λ o. elim o [ none ↦ none | some (a, rest) ↦ f a rest ]) e

pub get_u8-put_u8 : (x : ℕ) (rest : Bytes) → x < 256 → get_u8 (put_u8 x ++ rest) ≡ some (x, rest)
unfolding get_u8 put_u8
get_u8-put_u8 x rest h = ap (λ (y : ℕ). some (y, rest)) (omega arith)

pub get_u32-put_u32 :
    (x : ℕ) (rest : Bytes) → x < 2 ^ 32 → get_u32 (put_u32 x ++ rest) ≡ some (x, rest)
unfolding get_u32 put_u32
get_u32-put_u32 x rest h = ap (λ (y : ℕ). some (y, rest)) (omega arith)

pub htonl-lt : (x : ℕ) → htonl x < 2 ^ 32
unfolding htonl
htonl-lt x = omega arith

pub htonl-htonl : (x : ℕ) → x < 2 ^ 32 → htonl (htonl x) ≡ x
unfolding htonl
htonl-htonl x h = omega arith

-- a uint32_t in network order: `htonl` and append; `memcpy` and `ntohl`
unfoldable pub put_net : ℕ → Bytes
put_net x = put_u32 (htonl x)

unfoldable pub get_net : Reader ℕ
get_net = get_u32 >>= λ x. pure (htonl x)

pub get_net-put_net :
    (x : ℕ) (rest : Bytes) → x < 2 ^ 32 → get_net (put_net x ++ rest) ≡ some (x, rest)
unfolding get_net put_net
get_net-put_net x rest h =
    bind_some get_u32 (λ y. pure (htonl y)) (get_u32-put_u32 (htonl x) rest (htonl-lt x))
    ∙ ap (λ (y : ℕ). some (y, rest)) (htonl-htonl x h)

pub bind_none {ℓ κ} :
    {A : Type ℓ} {B : Type κ} (m : Reader A) (f : A → Reader B) {xs : Bytes}
    → m xs ≡ none
    → (m >>= f) xs ≡ none
bind_none {A} {B} m f e = ap (λ (o : Option (A × Bytes)). ◌>>=◌ {A = A} {B = B} (λ _. o) f []) e
