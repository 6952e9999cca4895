-- ===== src/Codec/RoundTrip.antt =====
-- What a reader of serializer.h gives back on the bytes that its writer made.
use mathlib.Core.List.{foldl}
use eya_kv.Prelude.{
  ℕ, ◌^◌, ◌<◌, ◌≡◌, refl, ap, ◌∙◌, some, List, [], ◌∷◌, ◌++◌, append_assoc, length, length-append,
  take-length-append, drop-length-append, arith,
}
use eya_kv.Codec.Words.{Bytes, Reader, ◌>>=◌, to_u32, put_net, get_net, bind_some, get_net-put_net}
use eya_kv.Codec.Containers.{serialize_string, get_bytes, deserialize_string, put_all, get_loop}

abbrev pub All {ℓ} : {A : Type ℓ} → (A → Type 0) → List A → Type 0
All P [] = Unit {0}
All P (a ∷ l) = P a × All P l

-- The reader gives back a value and the bytes behind it, whatever these are.
abbrev pub Trips {ℓ} : {A : Type ℓ} → (A → Bytes) → Reader A → A → Type ℓ
Trips write read a = (rest : Bytes) → read (write a ++ rest) ≡ some (a, rest)

-- One field, then the others.
pub read_field {ℓ κ} :
    {A : Type ℓ} {B : Type κ} (write : A → Bytes) (read : Reader A) (f : A → Reader B) (a : A)
    (more rest : Bytes)
    → Trips write read a
    → (read >>= f) ((write a ++ more) ++ rest) ≡ f a (more ++ rest)
read_field write read f a more rest t =
    ap (read >>= f) (append_assoc (write a) more rest) ∙ bind_some read f (t (more ++ rest))

pub to_u32_id : (n : ℕ) → n < 2 ^ 32 → to_u32 n ≡ n
to_u32_id n h = omega arith

-- The count in front of a container.
pub read_count {ℓ} :
    {B : Type ℓ} (f : ℕ → Reader B) (n : ℕ) (more rest : Bytes)
    → n < 2 ^ 32
    → (get_net >>= f) ((put_net (to_u32 n) ++ more) ++ rest) ≡ f n (more ++ rest)
read_count f n more rest h =
    ap (λ (m : ℕ). (get_net >>= f) ((put_net m ++ more) ++ rest)) (to_u32_id n h)
    ∙ read_field put_net get_net f n more rest (λ r. get_net-put_net n r h)

abbrev pub FitsString : Bytes → Type 0
FitsString str = length str < 2 ^ 32

pub get_bytes-append : (str rest : Bytes) → get_bytes (length str) (str ++ rest) ≡ some (str, rest)
unfolding get_bytes
get_bytes-append str rest =
    ground (arith, length-append str rest, take-length-append str rest, drop-length-append str rest)

-- A string shorter than 2^32 bytes comes back.
pub string-Trips : (str : Bytes) → FitsString str → Trips serialize_string deserialize_string str
unfolding serialize_string deserialize_string
string-Trips str h rest = read_count get_bytes (length str) str rest h ∙ get_bytes-append str rest

module _ {ℓ κ} {A : Type ℓ} {S : Type κ} (write : A → Bytes) (read : Reader A)
    (put : S → A → S) where
  abbrev pub AllTrip : List A → Type ℓ
  AllTrip [] = Unit
  AllTrip (a ∷ l) = Trips write read a × AllTrip l

  -- The loop reads back what was appended, in order.
  pub get_loop-put_all :
      (l : List A) (acc : S) (rest : Bytes)
      → AllTrip l
      → get_loop read put (length l) acc (put_all write l ++ rest) ≡ some (foldl put acc l, rest)
  unfolding get_loop put_all
  get_loop-put_all [] acc rest t = refl
  get_loop-put_all (a ∷ l) acc rest t =
      read_field write read (λ b. get_loop read put (length l) (put acc b)) a (put_all write l) rest
        t.0
      ∙ get_loop-put_all l (put acc a) rest t.1
