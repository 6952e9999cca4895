-- ===== src/RaftLog/Frames.antt =====
-- The records of the write-ahead file, [checksum][length][data], and the index file of offsets.
use eya_kv.Prelude.{
  ℕ, ◌+◌, ◌*◌, ◌^◌, Bool, false, ◌==◌, if◌then◌else◌, Option, none, some, List, [], ◌∷◌, ◌++◌,
  length, drop,
}
use eya_kv.Codec.Words.{Bytes, Reader, to_u32, put_u32, get_u32}
use eya_kv.Codec.Words
use eya_kv.Codec.Containers.{get_bytes}
use eya_kv.Protocol.Messages.{LogEntry}
use eya_kv.Protocol.Wire.{serialize_entry, deserialize_entry}
use eya_kv.RaftLog.Crc.{compute_string}
use eya_kv.RaftLog.State.{RaftLogArray, Write, written, succeeds, put_u64}

-- what write_entry_to_wal appends
unfoldable pub frame : LogEntry → Bytes
frame e =
    let text = serialize_entry e in
    put_u32 (compute_string text) ++ (put_u32 (to_u32 (length text)) ++ text)

-- ftell of a stream that is written at its end only: reads put it back where it was
unfoldable pub ftell : RaftLogArray → Bytes → ℕ
ftell l bytes = if l.at_start then 0 else length bytes

-- RaftLogArray::write_entry_to_wal: the offset, if all was written
unfoldable pub write_entry_to_wal : LogEntry → Write → RaftLogArray → Option ℕ × RaftLogArray
unfolding frame ftell
write_entry_to_wal e w l = elim l.wal_file [
  | none ↦ (none, l)
  | some bytes ↦ (
    if succeeds w then some (ftell l bytes) else none,
    record l { wal_file = some (bytes ++ written w (frame e)); at_start = false },
  )
]

-- RaftLogArray::write_index_entry
unfoldable pub write_index_entry : ℕ → Write → RaftLogArray → Bool × RaftLogArray
write_index_entry offset w l = elim l.index_file [
  | none ↦ (Bool.false, l)
  | some bytes ↦ (succeeds w, record l { index_file = some (bytes ++ written w (put_u64 offset)) })
]

-- `overrun` is a record whose checksum fits and whose bytes are too few for an entry: the
-- deserializer reads past its buffer.
pub data Read : Type 0 where
  entry : LogEntry → Read
  failed : Read
  overrun : Read

unfoldable pub checked_entry : ℕ → Bytes → Read
checked_entry checksum_read text =
    if checksum_read == compute_string text
    then elim (deserialize_entry text) [ none ↦ overrun | some (e, rest) ↦ entry e ]
    else failed

-- [checksum][length][data] at the file position
unfoldable pub read_frame : Reader (ℕ × Bytes)
read_frame = Words.◌>>=◌ get_u32 λ checksum.
    Words.◌>>=◌ get_u32 λ length. Words.◌>>=◌ (get_bytes length) λ text. Words.pure (checksum, text)

unfoldable pub read_result : Option ((ℕ × Bytes) × Bytes) → Read
unfolding checked_entry
read_result none = failed
read_result (some (frame, rest)) = checked_entry frame.0 frame.1

unfoldable pub read_at : ℕ → Bytes → Read
unfolding read_frame read_result
read_at offset bytes = read_result (read_frame (drop offset bytes))

-- RaftLogArray::read_entry_from_wal
unfoldable pub read_entry_from_wal : ℕ → RaftLogArray → Read
unfolding read_at
read_entry_from_wal offset l = elim l.wal_file [ none ↦ failed | some bytes ↦ read_at offset bytes ]

-- the loop of load_index: whole words of 8 bytes, while there are any
unfoldable pub read_offsets : Bytes → List ℕ
read_offsets (a ∷ b ∷ c ∷ d ∷ e ∷ f ∷ g ∷ h ∷ rest) =
    (a + b * 2 ^ 8 + c * 2 ^ 16 + d * 2 ^ 24 + e * 2 ^ 32 + f * 2 ^ 40 + g * 2 ^ 48 + h * 2 ^ 56)
    ∷ read_offsets rest
read_offsets _ = []
