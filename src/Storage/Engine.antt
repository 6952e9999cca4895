-- ===== src/Storage/Engine.antt =====
-- The part of `Storage` (include/storage/storage.h and src/storage/storage.cpp) that reads and writes
-- values: the memtable, the immutable memtables and the write-ahead log. What sstable_manager_->get
-- answers is a field. What the surroundings decide in a call is an Env.
use Prim.Native.Nat.{Ordering}
use eya_kv.Prelude.{
  ℕ, ◌+◌, ◌%◌, ◌^◌, Bool, true, false, not, ◌&&◌, if◌then◌else◌, Option, none, some, List, [], ◌∷◌,
  reverse,
}
use eya_kv.Effects.{
  out_of_range, overflow_error, runtime_error, key_not_found, returned, threw, M, ◌>>=◌, ◌>>◌, pure,
  throw, try_catch,
}
use eya_kv.Codec.Words.{Bytes}
use eya_kv.Storage.Wal
use eya_kv.Storage.Wal.{Wal, WalRecord, Device}
use eya_kv.Storage.MemTable
use eya_kv.Storage.MemTable.{MemTable, Platform, bytes_compare, new_memtable, should_flush}
use eya_kv.Storage.OperationType.{k_remove}
use eya_kv.Storage.Value.{EyaValue, EValue, is_dead, new_value}

-- The level that random_level draws, the clock in seconds, what the C library and the disk do with a
-- record, and the name of a new file.
pub record Env : Type 0 where
  pub level : ℕ
  pub now : ℕ
  pub device : Device
  pub filename : Bytes

module _ (Z : Type 0) where
  pub record Storage : Type 0 where
    pub memtable : MemTable Z
    -- in the order of their names
    pub immutable_memtables : List (Bytes × MemTable Z)
    pub current_wal_filename : Bytes
    pub wal : Wal
    pub enable_wal : Bool
    pub memtable_size : ℕ
    pub skiplist_max_level : ℕ
    pub sstable_get : Bytes → Option (EValue Z)

-- operator[] of std::map with an assignment
unfoldable pub insert_sorted {ℓ} : {A : Type ℓ} → Bytes → A → List (Bytes × A) → List (Bytes × A)
unfolding bytes_compare
insert_sorted k v [] = (k, v) ∷ []
insert_sorted k v ((a, w) ∷ m) = elim (bytes_compare a k) [
  | Ordering.lt ↦ (a, w) ∷ insert_sorted k v m
  | Ordering.eq ↦ (a, v) ∷ m
  | Ordering.gt ↦ (k, v) ∷ (a, w) ∷ m
]

-- wal_->open_wal_file, of a name that no file has and that can be opened
unfoldable pub open_wal_file : Env → Wal → Wal
unfolding Wal.sync Wal.flush
open_wal_file env w =
    let synced = (Wal.sync env.device w).1 in
    let closed : Wal = elim w.wal_file [ none ↦ synced | some name ↦ Wal.flush name synced ] in
    record closed {
      files = insert_sorted env.filename [] closed.files;
      wal_file = some env.filename;
      modified = false;
    }

module _ {Z : Type 0} where
  -- an operation of memtable_
  unfoldable pub with_memtable {ℓ} : {A : Type ℓ} → M (MemTable Z) A → M (Storage Z) A
  with_memtable m s = elim (m s.memtable) [
    | none ↦ none
    | some (r, t) ↦ some (r, record s { memtable = t })
  ]

  -- a const function of the storage in a command
  unfoldable pub look {ℓ} : {A : Type ℓ} → (Storage Z → Option A) → M (Storage Z) A
  look f s = elim (f s) [ none ↦ none | some a ↦ some (returned a, s) ]

module _ {Z : Type 0} (env : Env) where
  -- wal_->append_log
  unfoldable pub append_log : ℕ → Bytes → Bytes → M (Storage Z) Bool
  append_log type key payload s =
      let (ok, wal) =
        Wal.write_record env.device (record { type = type; key = key; payload = payload }) s.wal in
      some (returned ok, record s { wal = wal })

  -- append_log, if the log is on and this is no recovery
  unfoldable pub log_command : Bool → ℕ → Bytes → Bytes → M (Storage Z) (Unit {0})
  unfolding append_log
  log_command is_recover type key payload s =
      if s.enable_wal && not is_recover
      then (append_log type key payload >> pure tt) s
      else pure tt s

  -- the value, unless it is deleted or expired
  unfoldable pub if_alive : EValue Z → Option (EValue Z)
  if_alive v = if is_dead env.now v then none else some v

module _ {Z : Type 0} (p : Platform Z) (env : Env) where
  unfoldable pub create_new_memtable : Storage Z → MemTable Z
  create_new_memtable s = new_memtable p s.memtable_size s.skiplist_max_level

  unfoldable pub rotate_memtable : Storage Z → Storage Z
  unfolding open_wal_file create_new_memtable insert_sorted
  rotate_memtable s = record s {
    immutable_memtables = insert_sorted s.current_wal_filename s.memtable s.immutable_memtables;
    wal = if s.enable_wal then open_wal_file env s.wal else s.wal;
    current_wal_filename = env.filename;
    memtable = create_new_memtable s;
  }

  unfoldable pub write_memtable : Bytes → EValue Z → M (Storage Z) Bool
  unfolding with_memtable rotate_memtable
  write_memtable key value =
      try_catch
        (with_memtable (MemTable.put p env.level key value) >>= λ u s.
          some (returned true, if should_flush p s.memtable then rotate_memtable s else s))
        (λ e s. elim e [
          | overflow_error ↦
              (with_memtable (MemTable.put p env.level key value) >> pure true) (rotate_memtable s)
          | _ ↦ some (returned false, s)
        ])

  -- the loop from the newest immutable memtable to the oldest
  unfoldable pub get_from_newest : Bytes → List (Bytes × MemTable Z) → Option (Option (EValue Z))
  get_from_newest key [] = some none
  get_from_newest key ((name, t) ∷ ts) = elim (MemTable.get p key t) [
    | none ↦ none
    | some (some v) ↦ some (some v)
    | some none ↦ get_from_newest key ts
  ]

  unfoldable pub get_from_immutable_memtables : Bytes → Storage Z → Option (Option (EValue Z))
  unfolding get_from_newest
  get_from_immutable_memtables key s = get_from_newest key (reverse s.immutable_memtables)

  unfoldable pub get_from_latest : Bytes → Storage Z → Option (Option (EValue Z))
  unfolding if_alive
  get_from_latest key s = elim (MemTable.get p key s.memtable) [
    | none ↦ none
    | some none ↦ some none
    | some (some v) ↦ some (if_alive env v)
  ]

  unfoldable pub get_from_old : Bytes → Storage Z → Option (Option (EValue Z))
  unfolding get_from_immutable_memtables if_alive
  get_from_old key s = elim (get_from_immutable_memtables key s) [
    | none ↦ none
    | some (some v) ↦ some (if_alive env v)
    | some none ↦ some (elim (s.sstable_get key) [ none ↦ none | some v ↦ if_alive env v ])
  ]

  unfoldable pub get : Bytes → Storage Z → Option (Option (EyaValue Z))
  unfolding get_from_latest get_from_old
  get key s = elim (get_from_latest key s) [
    | none ↦ none
    | some (some v) ↦ some (some v.value)
    | some none ↦ (elim (get_from_old key s) [
      | none ↦ none
      | some none ↦ some none
      | some (some v) ↦ some (some v.value)
    ])
  ]

  unfoldable pub set_key_expire : Bytes → ℕ → M (Storage Z) (Unit {0})
  unfolding with_memtable look get rotate_memtable
  set_key_expire key expire_time =
      try_catch
        (with_memtable (
            MemTable.handle_value {0} p {A = Unit {0}} key (λ v. returned (
              tt,
              if is_dead env.now v then v else record v { expire_time = expire_time % 2 ^ 32 },
            )))
          >> pure tt)
        (λ e. elim e [
          | out_of_range ↦
              (look (get key) >>= λ v. elim v [
                | none ↦ throw (runtime_error key_not_found)
                | some value ↦
                    (let v' = record (new_value value) { expire_time = expire_time % 2 ^ 32 } in
                      try_catch (with_memtable (MemTable.put p env.level key v')) (λ e. elim e [
                        | overflow_error ↦
                            λ s. with_memtable (MemTable.put p env.level key v') (rotate_memtable s)
                        | e' ↦ throw e'
                      ]))
              ])
          | e' ↦ throw e'
        ])

  -- The loop of `remove`: how many keys were marked. A key whose record is not written is left.
  unfoldable pub remove_keys : List Bytes → M (Storage Z) ℕ
  unfolding append_log with_memtable
  remove_keys [] s = some (returned 0, s)
  remove_keys (key ∷ keys) s =
      let logged =
        (if s.enable_wal then append_log env k_remove key [] s else some (returned true, s)) in
      let rest = remove_keys keys in
      elim logged [
        | none ↦ none
        | some (threw e, s') ↦ some (threw e, s')
        | some (returned false, s') ↦ rest s'
        | some (returned true, s') ↦
            (with_memtable (MemTable.remove p env.level key) >>= λ found.
            rest >>= λ count. pure (count + 1))
              s'
      ]
