-- ===== src/Storage/Recovery/Lost.antt =====
-- src/storage/storage.cpp and src/storage/processors.cpp: the records whose replay is not what their
-- command did.
use eya_kv.Prelude.{
  refl, ◌≢◌, take, drop, leb, Bool-cases, take-append-drop, ℕ, zero, suc, ◌+◌, ◌≡◌, ◌⊎◌, Bool,
  Option, inl, inr, ap, sym, ◌∙◌, true, false, Option-cases, none, some, List, [], ◌∷◌, ◌++◌,
  length, length-append, arith,
}
use eya_kv.Effects.{M, ◌>>=◌, ◌>>◌, pure}
use eya_kv.Codec.Words.{get_net, get_u32, put_net, put_u32, Bytes, Reader, bind_some, bind_none}
use eya_kv.Codec.Containers.{
  get_bytes, deserialize_string, serialize_string, deserialize_string, put_all, get_loop, push_back,
  deserialize_vector,
}
use eya_kv.Codec.RoundTrip.{FitsString, read_count}
use eya_kv.Storage.Wal.{WalRecord}
use eya_kv.Storage.MemTable.{Platform}
use eya_kv.Storage.Engine.{Env, Storage, append_log, log_command}
use eya_kv.Storage.OperationType.{k_l_push}
use eya_kv.Storage.Processors.Deque.{l_push, l_push_view}
use eya_kv.Storage.Processors.Deque.Execute as DequeProcessor
use eya_kv.Storage.Recovery.{replay}

abbrev size_of {ℓ} : {A : Type ℓ} → Option (List A × Bytes) → ℕ
size_of none = 0
size_of (some (l, rest)) = length l

-- A loop that reads `n` things adds as many.
length-get_loop {ℓ} :
    {A : Type ℓ} (read : Reader A) (n : ℕ) (acc l : List A) (xs rest : Bytes)
    → get_loop read push_back n acc xs ≡ some (l, rest)
    → length l ≡ length acc + n
unfolding get_loop push_back
length-get_loop read zero acc l xs rest h = omega (arith, ap size_of h)
length-get_loop read (suc n) acc l xs rest h = elim (Option-cases (read xs)) [
  | inl e ↦ cc (bind_none read (λ b. get_loop read push_back n (push_back acc b)) e)
  | inr ((a, more), e) ↦
      (let next = sym (bind_some read (λ b. get_loop read push_back n (push_back acc b)) e) ∙ h in
        omega (
          arith,
          length-get_loop read n (acc ++ a ∷ []) l more rest next,
          length-append acc (a ∷ []),
        ))
]

get_net-length :
    (xs rest : Bytes) (n : ℕ) → get_net xs ≡ some (n, rest) → length xs ≡ 4 + length rest
unfolding get_net get_u32
get_net-length [] rest n h = absurd cc
get_net-length (a ∷ []) rest n h = absurd cc
get_net-length (a ∷ b ∷ []) rest n h = absurd cc
get_net-length (a ∷ b ∷ c ∷ []) rest n h = absurd cc
get_net-length (a ∷ b ∷ c ∷ d ∷ xs) rest n h =
    (let same : xs ≡ rest = cc h in omega (arith, ap (λ (l : Bytes). length l) same))

get_bytes-length :
    (len : ℕ) (xs s rest : Bytes)
    → get_bytes len xs ≡ some (s, rest)
    → length xs ≡ length s + length rest
unfolding get_bytes
get_bytes-length len xs s rest h = elim (Bool-cases (leb len (length xs))) [
  | inl e ↦
      (let both : (take len xs ≡ s) × (drop len xs ≡ rest) = ground (arith, h, e) in
        omega (
          arith,
          ap (λ (l : Bytes). length l) (take-append-drop len xs),
          length-append (take len xs) (drop len xs),
          ap (λ (l : Bytes). length l) both.0,
          ap (λ (l : Bytes). length l) both.1,
        ))
  | inr e ↦ absurd (ground (arith, h, e))
]

string-length :
    (xs s rest : Bytes)
    → deserialize_string xs ≡ some (s, rest)
    → length xs ≡ 4 + length s + length rest
unfolding deserialize_string
string-length xs s rest h = elim (Option-cases (get_net xs)) [
  | inl e ↦ absurd (cc (bind_none get_net get_bytes e, h))
  | inr ((n, more), e) ↦ omega (
    arith,
    get_net-length xs more n e,
    get_bytes-length n more s rest (sym (bind_some get_net get_bytes e) ∙ h),
  )
]

-- The bytes of strings with their lengths.
abbrev all_bytes : List Bytes → ℕ
all_bytes [] = 0
all_bytes (s ∷ l) = 4 + length s + all_bytes l

all_bytes-append :
    (l : List Bytes) (s : Bytes) → all_bytes (l ++ s ∷ []) ≡ all_bytes l + (4 + length s)
all_bytes-append [] s = omega arith
all_bytes-append (x ∷ l) s = omega (arith, all_bytes-append l s)

all_bytes-get_loop :
    (n : ℕ) (acc l : List Bytes) (xs rest : Bytes)
    → get_loop deserialize_string push_back n acc xs ≡ some (l, rest)
    → all_bytes acc + length xs ≡ all_bytes l + length rest
unfolding get_loop push_back
all_bytes-get_loop zero acc l xs rest h =
    (let both : (acc ≡ l) × (xs ≡ rest) = ground (arith, h) in
      omega (arith, ap all_bytes both.0, ap (λ (m : Bytes). length m) both.1))
all_bytes-get_loop (suc n) acc l xs rest h = elim (Option-cases (deserialize_string xs)) [
  | inl e ↦ absurd (
      cc (
        bind_none deserialize_string
            (λ b. get_loop deserialize_string push_back n (push_back acc b)) e,
        h,
      ))
  | inr ((a, more), e) ↦
      (let next =
          sym (
            bind_some deserialize_string
              (λ b. get_loop deserialize_string push_back n (push_back acc b)) e)
          ∙ h in
        omega (
          arith,
          all_bytes-get_loop n (acc ++ a ∷ []) l more rest next,
          all_bytes-append acc a,
          string-length xs a more e,
        ))
]

length-strings : (l : List Bytes) → length (put_all serialize_string l) ≡ all_bytes l
unfolding put_all serialize_string put_net put_u32
length-strings [] = refl
length-strings (s ∷ l) =
    omega (arith, length-strings l, length-append s (put_all serialize_string l))

module _ {Z : Type 0} (read_zset : Reader Z) (p : Platform Z)
    (recover_zset : Env → ℕ → Bytes → Bytes → M (Storage Z) Bool) (env : Env) (key : Bytes) where
  abbrev push_record : List Bytes → WalRecord
  push_record values = record {
    type = k_l_push;
    key = key;
    payload = put_all serialize_string values;
  }

  -- deserialize_vector takes the length of the first string for the number of strings.
  counted :
      (v : Bytes) (vs values : List Bytes) (rest : Bytes)
      → FitsString v
      → deserialize_vector (put_all serialize_string (v ∷ vs)) ≡ some (values, rest)
      → length values ≡ length v
  unfolding deserialize_vector put_all serialize_string
  counted v vs values rest f h =
      length-get_loop deserialize_string (length v) [] values (v ++ put_all serialize_string vs)
        rest
        (sym (
            read_count (λ size. get_loop deserialize_string push_back size []) (length v) v
              (put_all serialize_string vs) f)
          ∙ h)
      ∙ omega arith

  -- The strings that are read are never those that were written: four bytes are missing.
  misread :
      (v : Bytes) (vs values : List Bytes) (rest : Bytes)
      → FitsString v
      → deserialize_vector (put_all serialize_string (v ∷ vs)) ≡ some (values, rest)
      → values ≢ v ∷ vs
  unfolding deserialize_vector put_all serialize_string
  misread v vs values rest f h same =
      let read =
        sym (
          read_count (λ size. get_loop deserialize_string push_back size []) (length v) v
            (put_all serialize_string vs) f)
        ∙ h in
      absurd (
        omega (
          arith,
          all_bytes-get_loop (length v) [] values (v ++ put_all serialize_string vs) rest read,
          length-append v (put_all serialize_string vs),
          length-strings vs,
          ap all_bytes same,
        ))

  -- The push for string views of one value or more writes, with the log on, a record that its processor
  -- does not read back: the replay runs past the payload, or pushes other values than those, as many as
  -- the first one has bytes.
  pub replay-push_view :
      (v : Bytes) (vs : List Bytes) (s : Storage Z)
      → FitsString v
      → s.enable_wal ≡ true
      → (l_push_view p env false key (v ∷ vs) s
          ≡ (append_log env k_l_push key (put_all serialize_string (v ∷ vs))
                >> l_push_view p env true key (v ∷ vs))
              s)
        × ((s' : Storage Z)
            → (replay read_zset p recover_zset env (push_record (v ∷ vs)) s' ≡ none)
              ⊎ ((values : List Bytes) × (length values ≡ length v)
                  × (values ≢ v ∷ vs)
                  × (replay read_zset p recover_zset env (push_record (v ∷ vs)) s'
                      ≡ (l_push p env true key values >>= λ n. pure true) s')))
  unfolding replay l_push_view log_command append_log DequeProcessor.recover
  replay-push_view v vs s f e = (
    rw (e),
    λ s'. elim (Option-cases (deserialize_vector (put_all serialize_string (v ∷ vs)))) [
      | inl none_read ↦ inl (rw (DequeProcessor.recover, DequeProcessor.replay_push, none_read))
      | inr ((values, rest), read) ↦ inr (
        values,
        counted v vs values rest f read,
        misread v vs values rest f read,
        rw (DequeProcessor.recover, DequeProcessor.replay_push, read),
      )
    ],
  )
