-- ===== src/Codec/Collections.antt =====
-- The containers of serializer.h come back as they were written.
use mathlib.Core.List.{foldl}
use eya_kv.Prelude.{
  ◌^◌, ◌<◌, ◌≡◌, sym, ap, ◌∙◌, false, none, some, List, [], ◌∷◌, ◌++◌, append_assoc, append-nil,
  length,
}
use eya_kv.Codec.Words.{Bytes, Reader, ◌>>=◌, pure, to_u32, put_net, get_net, bind_some}
use eya_kv.Codec.RoundTrip.{
  All, AllTrip, Trips, FitsString, read_field, read_count, string-Trips, get_loop-put_all,
}
use eya_kv.Codec.Containers.{
  serialize_string, deserialize_string, put_all, get_loop, push_back, serialize_vector,
  deserialize_vector, serialize_deque, deserialize_deque, serialize_pair, deserialize_pair,
  serialize_pairs, deserialize_pairs, set_contains, set_insert, serialize_set, deserialize_set,
  map_find, map_emplace, serialize_map, deserialize_map,
}

pub foldl-push_back {ℓ} : {A : Type ℓ} (acc l : List A) → foldl push_back acc l ≡ acc ++ l
unfolding push_back
foldl-push_back acc [] = sym (append-nil acc)
foldl-push_back acc (a ∷ l) = foldl-push_back (acc ++ a ∷ []) l ∙ append_assoc acc (a ∷ []) l

-- A count, and a loop whose inserts rebuild the list.
pub container_trips {ℓ} :
    {A : Type ℓ} (write : A → Bytes) (read : Reader A) (put : List A → A → List A) (l : List A)
    → length l < 2 ^ 32
    → AllTrip write read put l
    → foldl put [] l ≡ l
    → (rest : Bytes)
    → (get_net >>= λ size. get_loop read put size [])
        ((put_net (to_u32 (length l)) ++ put_all write l) ++ rest)
      ≡ some (l, rest)
container_trips write read put l h t same rest =
    read_count (λ size. get_loop read put size []) (length l) (put_all write l) rest h
    ∙ get_loop-put_all write read put l [] rest t
    ∙ ap (λ m. some (m, rest)) same

pub strings_trip :
    (put : List Bytes → Bytes → List Bytes) (l : List Bytes)
    → All FitsString l
    → AllTrip serialize_string deserialize_string put l
strings_trip put [] h = tt
strings_trip put (s ∷ l) h = (string-Trips s h.0, strings_trip put l h.1)

abbrev pub FitsPair : Bytes × Bytes → Type 0
FitsPair (key, value) = FitsString key × FitsString value

pair-Trips : (p : Bytes × Bytes) → FitsPair p → Trips serialize_pair deserialize_pair p
unfolding serialize_pair deserialize_pair
pair-Trips (key, value) h rest =
    read_field serialize_string deserialize_string _ key (serialize_string value) rest
      (string-Trips key h.0)
    ∙ bind_some deserialize_string (λ v. pure (key, v)) (string-Trips value h.1 rest)

pub pairs_trip :
    (put : List (Bytes × Bytes) → Bytes × Bytes → List (Bytes × Bytes)) (l : List (Bytes × Bytes))
    → All FitsPair l
    → AllTrip serialize_pair deserialize_pair put l
pairs_trip put [] h = tt
pairs_trip put (p ∷ l) h = (pair-Trips p h.0, pairs_trip put l h.1)

-- A vector of fewer than 2^32 strings, each shorter than 2^32 bytes, comes back in its order.
pub vector_trips :
    (vec : List Bytes) (rest : Bytes)
    → length vec < 2 ^ 32
    → All FitsString vec
    → deserialize_vector (serialize_vector vec ++ rest) ≡ some (vec, rest)
unfolding serialize_vector deserialize_vector
vector_trips vec rest h f =
    container_trips serialize_string deserialize_string push_back vec h
      (strings_trip push_back vec f) (foldl-push_back [] vec) rest

pub deque_trips :
    (deque : List Bytes) (rest : Bytes)
    → length deque < 2 ^ 32
    → All FitsString deque
    → deserialize_deque (serialize_deque deque ++ rest) ≡ some (deque, rest)
unfolding serialize_deque deserialize_deque
deque_trips deque rest h f =
    container_trips serialize_string deserialize_string push_back deque h
      (strings_trip push_back deque f) (foldl-push_back [] deque) rest

pub pairs_trips :
    (vec : List (Bytes × Bytes)) (rest : Bytes)
    → length vec < 2 ^ 32
    → All FitsPair vec
    → deserialize_pairs (serialize_pairs vec ++ rest) ≡ some (vec, rest)
unfolding serialize_pairs deserialize_pairs
pairs_trips vec rest h f =
    container_trips serialize_pair deserialize_pair push_back vec h (pairs_trip push_back vec f)
      (foldl-push_back [] vec) rest

-- No element of `l` stands before it in `acc ++ l`.
abbrev pub NoRepeatAfter : List Bytes → List Bytes → Type 0
NoRepeatAfter acc [] = Unit
NoRepeatAfter acc (a ∷ l) = (set_contains a acc ≡ false) × NoRepeatAfter (acc ++ a ∷ []) l

foldl-set_insert : (acc l : List Bytes) → NoRepeatAfter acc l → foldl set_insert acc l ≡ acc ++ l
unfolding set_insert
foldl-set_insert acc [] h = sym (append-nil acc)
foldl-set_insert acc (a ∷ l) h =
    rw h.0 (foldl-set_insert (acc ++ a ∷ []) l h.1 ∙ append_assoc acc (a ∷ []) l)

-- A set of fewer than 2^32 strings, none repeated and each shorter than 2^32 bytes, comes back with
-- its elements.
pub set_trips :
    (set : List Bytes) (rest : Bytes)
    → length set < 2 ^ 32
    → All FitsString set
    → NoRepeatAfter [] set
    → deserialize_set (serialize_set set ++ rest) ≡ some (set, rest)
unfolding serialize_set deserialize_set
set_trips set rest h f d =
    container_trips serialize_string deserialize_string set_insert set h
      (strings_trip set_insert set f) (foldl-set_insert [] set d) rest

-- No key of `l` stands before it in `acc ++ l`.
abbrev pub NoKeyAfter : List (Bytes × Bytes) → List (Bytes × Bytes) → Type 0
NoKeyAfter acc [] = Unit
NoKeyAfter acc (p ∷ l) = (map_find p.0 acc ≡ none) × NoKeyAfter (acc ++ p ∷ []) l

foldl-map_emplace :
    (acc l : List (Bytes × Bytes)) → NoKeyAfter acc l → foldl map_emplace acc l ≡ acc ++ l
unfolding map_emplace
foldl-map_emplace acc [] h = sym (append-nil acc)
foldl-map_emplace acc ((k, v) ∷ l) h =
    rw (h.0, map_emplace)
      (foldl-map_emplace (acc ++ (k, v) ∷ []) l h.1 ∙ append_assoc acc ((k, v) ∷ []) l)

-- A map of fewer than 2^32 distinct keys, with keys and values shorter than 2^32 bytes, comes back
-- with its keys and values.
pub map_trips :
    (map : List (Bytes × Bytes)) (rest : Bytes)
    → length map < 2 ^ 32
    → All FitsPair map
    → NoKeyAfter [] map
    → deserialize_map (serialize_map map ++ rest) ≡ some (map, rest)
unfolding serialize_map deserialize_map
map_trips map rest h f d =
    container_trips serialize_pair deserialize_pair map_emplace map h (pairs_trip map_emplace map f)
      (foldl-map_emplace [] map d) rest
