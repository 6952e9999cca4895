-- ===== src/Codec/Containers.antt =====
-- The overloads of `Serializer::serialize` and their readers: strings, vectors, deques, vectors of
-- pairs, unordered sets and maps. A container is the list of its elements in iteration order.
use eya_kv.Prelude.{
  ℕ, zero, suc, Bool, true, false, ◌&&◌, ◌==◌, leb, if◌then◌else◌, Option, none, some, List, [],
  ◌∷◌, ◌++◌, length, take, drop,
}
use eya_kv.Codec.Words.{Bytes, Reader, ◌>>=◌, pure, to_u32, put_net, get_net}

-- operator== of std::string
unfoldable pub bytes_eq : Bytes → Bytes → Bool
bytes_eq [] [] = true
bytes_eq (a ∷ xs) (b ∷ ys) = (a == b) && bytes_eq xs ys
bytes_eq _ _ = false

unfoldable pub serialize_string : Bytes → Bytes
serialize_string str = put_net (to_u32 (length str)) ++ str

-- std::string(data + offset, len)
unfoldable pub get_bytes : ℕ → Reader Bytes
get_bytes len xs = if leb len (length xs) then some (take len xs, drop len xs) else none

unfoldable pub deserialize_string : Reader Bytes
deserialize_string = get_net >>= get_bytes

-- the loops that append each element
unfoldable pub put_all {ℓ} : {A : Type ℓ} → (A → Bytes) → List A → Bytes
put_all write [] = []
put_all write (a ∷ l) = write a ++ put_all write l

-- the loops `for (uint32_t i = 0; i < size; ++i)` that read an element and put it in `acc`
unfoldable pub get_loop {ℓ κ} :
    {A : Type ℓ} {S : Type κ} → Reader A → (S → A → S) → ℕ → S → Reader S
get_loop read put zero acc = pure acc
get_loop read put (suc n) acc = read >>= λ a. get_loop read put n (put acc a)

unfoldable pub push_back {ℓ} : {A : Type ℓ} → List A → A → List A
push_back l a = l ++ a ∷ []

unfoldable pub serialize_vector : List Bytes → Bytes
serialize_vector vec = put_net (to_u32 (length vec)) ++ put_all serialize_string vec

unfoldable pub deserialize_vector : Reader (List Bytes)
deserialize_vector = get_net >>= λ size. get_loop deserialize_string push_back size []

unfoldable pub serialize_deque : List Bytes → Bytes
serialize_deque deque = put_net (to_u32 (length deque)) ++ put_all serialize_string deque

unfoldable pub deserialize_deque : Reader (List Bytes)
deserialize_deque = get_net >>= λ size. get_loop deserialize_string push_back size []

unfoldable pub serialize_pair : Bytes × Bytes → Bytes
serialize_pair (key, value) = serialize_string key ++ serialize_string value

unfoldable pub deserialize_pair : Reader (Bytes × Bytes)
deserialize_pair = deserialize_string >>= λ key. deserialize_string >>= λ value. pure (key, value)

unfoldable pub serialize_pairs : List (Bytes × Bytes) → Bytes
serialize_pairs vec = put_net (to_u32 (length vec)) ++ put_all serialize_pair vec

unfoldable pub deserialize_pairs : Reader (List (Bytes × Bytes))
deserialize_pairs = get_net >>= λ size. get_loop deserialize_pair push_back size []

-- find, count of std::unordered_set<std::string>
unfoldable pub set_contains : Bytes → List Bytes → Bool
set_contains k [] = false
set_contains k (a ∷ l) = if bytes_eq a k then true else set_contains k l

-- insert of std::unordered_set<std::string>
unfoldable pub set_insert : List Bytes → Bytes → List Bytes
set_insert l k = if set_contains k l then l else l ++ k ∷ []

unfoldable pub serialize_set : List Bytes → Bytes
serialize_set set = put_net (to_u32 (length set)) ++ put_all serialize_string set

unfoldable pub deserialize_set : Reader (List Bytes)
deserialize_set = get_net >>= λ size. get_loop deserialize_string set_insert size []

-- find of std::unordered_map<std::string, V>
unfoldable pub map_find {ℓ} : {V : Type ℓ} → Bytes → List (Bytes × V) → Option V
map_find k [] = none
map_find k ((a, v) ∷ l) = if bytes_eq a k then some v else map_find k l

-- emplace of std::unordered_map: a key that is there keeps its value
unfoldable pub map_emplace {ℓ} : {V : Type ℓ} → List (Bytes × V) → Bytes × V → List (Bytes × V)
map_emplace l (k, v) = elim (map_find k l) [ none ↦ l ++ (k, v) ∷ [] | some _ ↦ l ]

unfoldable pub serialize_map : List (Bytes × Bytes) → Bytes
serialize_map map = put_net (to_u32 (length map)) ++ put_all serialize_pair map

unfoldable pub deserialize_map : Reader (List (Bytes × Bytes))
deserialize_map = get_net >>= λ size. get_loop deserialize_pair map_emplace size []
