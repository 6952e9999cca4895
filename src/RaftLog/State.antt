-- ===== src/RaftLog/State.antt =====
-- The state of `RaftLogArray`, its mutex, and the outcome of a call. An append to a file either
-- writes all or stops after some bytes. `std::shared_mutex` is not recursive: taking it again in
-- the thread that holds it is undefined (libstdc++ throws or waits for ever), and ends a call here.
use eya_kv.Prelude.{
  ◌≡◌, ap, ◌∙◌, ℕ, ◌/◌, ◌%◌, ◌^◌, Bool, true, false, if◌then◌else◌, Option, List, ◌++◌, take,
}
use eya_kv.Codec.Words.{Bytes, put_u32}
use eya_kv.Protocol.Messages.{LogEntry}

-- RaftLogConfig. `truncate_count n` is static_cast<size_t>(n * truncate_ratio), in floating point.
-- `info` says whether LOG_INFO is on, and so evaluates its arguments.
pub record LogConfig : Type 0 where
  pub log_size_threshold : ℕ
  pub truncate_count : ℕ → ℕ
  pub info : Bool

-- A file is its bytes; `none` is a null FILE*.
pub record RaftLogArray : Type 0 where
  pub entries : List LogEntry
  pub base_index : ℕ
  pub wal_file : Option Bytes
  -- Nothing was written since wal_file was opened as "ab+", so that ftell gives 0.
  pub at_start : Bool
  pub index_offsets : List ℕ
  pub index_file : Option Bytes
  pub config : LogConfig
  pub locked : Bool

pub data Outcome {ℓ} (A : Type ℓ) : Type ℓ where
  done : A → RaftLogArray → Outcome A
  relock : RaftLogArray → Outcome A

abbrev pub Call {ℓ} : Type ℓ → Type ℓ
Call A = RaftLogArray → Outcome A

infixl 10 ◌>>=◌
abbrev pub ◌>>=◌ {ℓ κ} : {A : Type ℓ} {B : Type κ} → Call A → (A → Call B) → Call B
◌>>=◌ m f l = elim (m l) [ done a l' ↦ f a l' | relock l' ↦ relock l' ]

-- the end of the scope of a std::unique_lock or std::shared_lock
abbrev pub release {ℓ} : {A : Type ℓ} → Outcome A → Outcome A
release (done a l) = done a (record l { locked = false })
release (relock l) = relock l

abbrev pub with_lock {ℓ} : {A : Type ℓ} → Call A → Call A
with_lock body l = if l.locked then relock l else release (body (record l { locked = true }))

-- What an fwrite does to a file that is open for appending. The fflush behind a `complete` one writes
-- all that fwrite took; the code does not look at its result.
pub data Write : Type 0 where
  complete : Write
  torn : ℕ → Write

abbrev pub written : Write → Bytes → Bytes
written complete bytes = bytes
written (torn n) bytes = take n bytes

abbrev pub succeeds : Write → Bool
succeeds complete = true
succeeds (torn n) = false

-- The writes that a rebuild of the two files makes.
pub record Rebuild : Type 0 where
  pub wal_opened : Bool
  pub index_opened : Bool
  pub wal_writes : ℕ → Write
  pub index_writes : ℕ → Write

-- the bytes of a uint64_t, the low word first
unfoldable pub put_u64 : ℕ → Bytes
put_u64 x = put_u32 (x % 2 ^ 32) ++ put_u32 (x / 2 ^ 32 % 2 ^ 32)

-- A call that returns, and the one after it.
pub call_then {ℓ κ} :
    {A : Type ℓ} {B : Type κ} (m : Call A) (f : A → Call B) {a : A} {l l' : RaftLogArray}
    → m l ≡ done a l'
    → (m >>= f) l ≡ f a l'
call_then m f h = ap (λ o. elim o [ done a l' ↦ f a l' | relock l' ↦ relock l' ]) h

-- A call that takes a free mutex and returns.
pub lock_free {ℓ} :
    {A : Type ℓ} (body : Call A) {a : A} {l l' : RaftLogArray}
    → l.locked ≡ false
    → body (record l { locked = true }) ≡ done a l'
    → with_lock body l ≡ done a (record l' { locked = false })
lock_free body {a} {l} {l'} free h =
    ap (λ (b : Bool). if b then relock l else release (body (record l { locked = true }))) free
    ∙ ap release h
