-- ===== src/Storage/Processors/Payload.antt =====
-- src/storage/processors.cpp: the loop of `recover` reads what the commands wrote.
use eya_kv.Prelude.{
  ℕ, zero, suc, ◌<◌, ◌≤◌, ◌≡◌, refl, some, List, [], ◌∷◌, ◌++◌, length, length-append, arith,
}
use eya_kv.Codec.Words.{Bytes, Reader, put_u32, put_net}
use eya_kv.Codec.Containers.{
  serialize_string, deserialize_string, serialize_pair, deserialize_pair, put_all,
}
use eya_kv.Codec.RoundTrip.{All, FitsString, AllTrip}
use eya_kv.Codec.Collections.{FitsPair, strings_trip, pairs_trip}
use eya_kv.Storage.Processors.{read_all}

pub serialize_string-lt : (s : Bytes) → 0 < length (serialize_string s)
unfolding serialize_string put_net put_u32
serialize_string-lt s = omega arith

serialize_pair-lt : (e : Bytes × Bytes) → 0 < length (serialize_pair e)
unfolding serialize_pair
serialize_pair-lt (k, v) =
    omega (arith, length-append (serialize_string k) (serialize_string v), serialize_string-lt k)

module _ {ℓ} {A : Type ℓ} (write : A → Bytes) (read : Reader A)
    (writes : (a : A) → 0 < length (write a)) where
  read_step :
      (fuel : ℕ) (a : A) (l : List A) (payload rest : Bytes)
      → 0 < length payload
      → read payload ≡ some (a, rest)
      → read_all read fuel rest ≡ some l
      → read_all read (suc fuel) payload ≡ some (a ∷ l)
  unfolding read_all
  read_step fuel a l [] rest h e k = absurd (omega arith)
  read_step fuel a l (b ∷ payload) rest h e k = rw (read_all, e, k)

  read_fuel :
      (put : List A → A → List A) (fuel : ℕ) (l : List A)
      → AllTrip write read put l
      → length (put_all write l) ≤ fuel
      → read_all read fuel (put_all write l) ≡ some l
  unfolding put_all read_all
  read_fuel put fuel [] t h = refl
  read_fuel put zero (a ∷ l) t h =
      absurd (omega (arith, length-append (write a) (put_all write l), writes a))
  read_fuel put (suc fuel) (a ∷ l) t h =
      let len = length-append (write a) (put_all write l) in
      read_step fuel a l (write a ++ put_all write l) (put_all write l)
        (omega (arith, len, writes a)) (t.0 (put_all write l))
        (read_fuel put fuel l t.1 (omega (arith, len, writes a)))

pub read_strings :
    (l : List Bytes)
    → All FitsString l
    → read_all deserialize_string (length (put_all serialize_string l)) (put_all serialize_string l)
      ≡ some l
read_strings l f =
    read_fuel serialize_string deserialize_string serialize_string-lt (λ a s. a) _ l
      (strings_trip (λ a s. a) l f) (omega arith)

pub read_pairs :
    (l : List (Bytes × Bytes))
    → All FitsPair l
    → read_all deserialize_pair (length (put_all serialize_pair l)) (put_all serialize_pair l)
      ≡ some l
read_pairs l f =
    read_fuel serialize_pair deserialize_pair serialize_pair-lt (λ a s. a) _ l
      (pairs_trip (λ a s. a) l f) (omega arith)
