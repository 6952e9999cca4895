-- ===== src/Storage/Wal.antt =====
-- `Wal` of include/storage/wal.h and src/storage/wal.cpp. A file is its bytes, and the directory is
-- the list of its .wal files in the order of their paths.
pub mod Records
pub mod Replay
use eya_kv.Prelude.{
  ℕ, zero, suc, Bool, true, false, not, ◌==◌, ltb, leb, if◌then◌else◌, Option, none, some, List, [],
  ◌∷◌, ◌++◌, map, length, take, drop,
}
use eya_kv.Codec.Words.{Bytes, Reader, ◌>>=◌, pure, to_u32, put_u8, get_u8, put_u32, get_u32}
use eya_kv.Codec.Containers.{bytes_eq, get_bytes}

-- The arguments of append_log and of the callback.
pub record WalRecord : Type 0 where
  pub type : ℕ
  pub key : Bytes
  pub payload : Bytes

-- `buffer`
unfoldable pub record_bytes : WalRecord → Bytes
record_bytes r =
    put_u8 r.type
    ++ ((put_u32 (to_u32 (length r.key)) ++ r.key)
        ++ (put_u32 (to_u32 (length r.payload))
            ++ (if to_u32 (length r.payload) == 0 then [] else r.payload)))

-- a length of at most `limit`, and as many bytes
unfoldable pub get_limited : ℕ → Reader Bytes
get_limited limit = get_u32 >>= λ len xs. if ltb limit len then none else get_bytes len xs

-- one turn of the loop of `recover`; `none` is a break
unfoldable pub read_record : Reader WalRecord
unfolding get_limited
read_record = get_u8 >>= λ type. get_limited 1048576 >>= λ key.
    get_limited 134217728 >>= λ payload. pure (record { type = type; key = key; payload = payload })

-- The loop, for as many turns as there are bytes: each turn reads at least one.
unfoldable pub read_records : ℕ → Bytes → List WalRecord
unfolding read_record
read_records zero bytes = []
read_records (suc fuel) bytes = elim (read_record bytes) [
  | none ↦ []
  | some (r, rest) ↦ r ∷ read_records fuel rest
]

-- what `recover` passes on from the bytes of a file
unfoldable pub replay_file : Bytes → List WalRecord
unfolding read_records
replay_file bytes = read_records (length bytes) bytes

-- `recover`: the callbacks, and the files that are left. Whether a file opens is an input; the close
-- of the open file and a scan of the directory that throws are left out.
unfoldable pub recover_files :
    (Bytes → Bool) → List (Bytes × Bytes) → List (Bytes × WalRecord) × List (Bytes × Bytes)
unfolding replay_file
recover_files opens [] = ([], [])
recover_files opens ((name, bytes) ∷ files) =
    let (calls, left) = recover_files opens files in
    if length bytes == 0
    then (calls, left)
    else if opens name
    then (map (λ r. (name, r)) (replay_file bytes) ++ calls, (name, bytes) ∷ left)
    else (calls, (name, bytes) ∷ left)

pub record Wal : Type 0 where
  pub files : List (Bytes × Bytes)
  pub wal_file : Option Bytes
  -- what fwrite took and the C library has not moved to the file
  pub buffered : Bytes
  pub sync_on_write : Bool
  pub modified : Bool

-- bytes at the end of the file of that name
unfoldable pub append_to : Bytes → Bytes → List (Bytes × Bytes) → List (Bytes × Bytes)
append_to name more [] = []
append_to name more ((a, bytes) ∷ files) =
    let rest = append_to name more files in
    if bytes_eq a name then (a, bytes ++ more) ∷ files else (a, bytes) ∷ rest

-- What the C library and the disk do in a call: how many bytes fwrite takes, how many of the buffer go to
-- the file with them, whether fflush succeeds, and whether dup and fdatasync do.
pub record Device : Type 0 where
  pub written : ℕ
  pub spilled : ℕ
  pub flushed : Bool
  pub synced : Bool

-- on the stream of the open file of that name
unfoldable pub fwrite : Device → Bytes → Bytes → Wal → Wal
unfolding append_to
fwrite d name bytes w =
    let all = w.buffered ++ take d.written bytes in
    record w { files = append_to name (take d.spilled all) w.files; buffered = drop d.spilled all }

-- fflush, and what fclose does with the buffer
unfoldable pub flush : Bytes → Wal → Wal
unfolding append_to
flush name w = record w { files = append_to name w.buffered w.files; buffered = [] }

-- The result of fflush is not looked at.
unfoldable pub sync : Device → Wal → Bool × Wal
unfolding flush
sync d w = elim w.wal_file [
  | none ↦ (true, w)
  | some name ↦
      if w.modified
      then (d.synced, record (if d.flushed then flush name w else w) { modified = false })
      else (true, w)
]

-- append_log and write_record
unfoldable pub write_record : Device → WalRecord → Wal → Bool × Wal
unfolding record_bytes fwrite sync
write_record d r w = elim w.wal_file [
  | none ↦ (false, w)
  | some name ↦
      (let buffer = record_bytes r in
        let w1 = fwrite d name buffer w in
        if leb (length buffer) d.written
        then (let w2 = record w1 { modified = true } in
            if w.sync_on_write then sync d w2 else (true, w2))
        else (false, w1))
]

-- whether std::filesystem::remove finds the file, and the files that it leaves
unfoldable pub remove_file : Bytes → List (Bytes × Bytes) → Bool × List (Bytes × Bytes)
remove_file name [] = (false, [])
remove_file name ((a, bytes) ∷ files) =
    let (removed, rest) = remove_file name files in
    if bytes_eq a name then (true, files) else (removed, (a, bytes) ∷ rest)

-- The file is closed if it is the one that is written, and removed.
unfoldable pub clear : Bytes → Wal → Bool × Wal
unfolding remove_file flush
clear filename w =
    let closed : Wal = elim w.wal_file [
      | none ↦ w
      | some name ↦
          if bytes_eq name filename
          then record (flush name w) { wal_file = none; modified = false }
          else w
    ] in
    let (removed, files) = remove_file filename closed.files in
    (removed, record closed { files = files })
