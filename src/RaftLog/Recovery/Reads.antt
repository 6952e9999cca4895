-- ===== src/RaftLog/Recovery/Reads.antt =====
-- Reading records and offsets back from files that only grow.
use eya_kv.Prelude.{
  ℕ, zero, suc, ◌^◌, ◌<◌, ◌≡◌, refl, sym, ap, ◌∙◌, ==-refl, none, some, Option-cases, inl, inr, [],
  ◌∷◌, ◌++◌, append-nil, length, drop-length-append, arith,
}
use eya_kv.Codec.Words.{
  Bytes, Reader, ◌>>=◌, pure, to_u32, put_u32, get_u32, get_u32-put_u32, bind_some,
}
use eya_kv.Codec.Containers.{get_bytes}
use eya_kv.Codec.Extends.{Extends, get_u32-Extends, get_bytes-Extends, bind-Extends}
use eya_kv.Codec.RoundTrip.{to_u32_id, get_bytes-append}
use eya_kv.Protocol.Messages.{LogEntry}
use eya_kv.Protocol.Wire.{serialize_entry, deserialize_entry}
use eya_kv.Protocol.RoundTrip.{FitsEntry, entry_round_trip}
use eya_kv.RaftLog.Crc.{compute_string, compute_string-lt}
use eya_kv.RaftLog.State.{put_u64}
use eya_kv.RaftLog.Frames.{
  frame, entry, failed, checked_entry, read_frame, read_result, read_at, read_offsets,
}

read_frame-Extends : Extends read_frame
unfolding read_frame
read_frame-Extends = bind-Extends get_u32 _ get_u32-Extends λ checksum.
    bind-Extends get_u32 _ get_u32-Extends λ len.
      bind-Extends (get_bytes len) _ (get_bytes-Extends len) λ text xs rest more a h. ground arith

read_result-none : read_result none ≡ failed
unfolding read_result
read_result-none = refl

read_frame_nil : read_frame [] ≡ none
unfolding read_frame get_u32
read_frame_nil = refl

-- A record that can be read stays readable when the file grows.
pub read_at-append :
    (offset : ℕ) (bytes more : Bytes) (e : LogEntry)
    → read_at offset bytes ≡ entry e
    → read_at offset (bytes ++ more) ≡ entry e
unfolding read_at
read_at-append zero bytes more e h = elim (Option-cases (read_frame bytes)) [
  | inl none_read ↦ cc (h, none_read, read_result-none)
  | inr ((f, rest), some_read) ↦
      ap read_result (read_frame-Extends bytes rest more f some_read)
      ∙ sym (ap read_result some_read)
      ∙ h
]
read_at-append (suc offset) [] more e h = cc (h, ap read_result read_frame_nil, read_result-none)
read_at-append (suc offset) (b ∷ bytes) more e h = read_at-append offset bytes more e h

-- The lengths and the checksum of a record fit their words.
pub record FitsFrame (e : LogEntry) : Type 0 where
  pub fits : FitsEntry e
  pub length_fits : length (serialize_entry e) < 2 ^ 32

read_frame-frame :
    (e : LogEntry)
    → FitsFrame e
    → read_frame (frame e) ≡ some ((compute_string (serialize_entry e), serialize_entry e), [])
unfolding read_frame frame
read_frame-frame e h =
    bind_some get_u32 _ (get_u32-put_u32 (compute_string text) _ (compute_string-lt text))
    ∙ bind_some get_u32 _ (get_u32-put_u32 (to_u32 (length text)) text (omega arith))
    ∙ ap (λ (n : ℕ). (get_bytes n >>= tail) text) (to_u32_id (length text) h.length_fits)
    ∙ bind_some (get_bytes (length text)) tail whole
  where
    text : Bytes
    text = serialize_entry e

    tail : Bytes → Reader (ℕ × Bytes)
    tail t = pure (compute_string text, t)

    whole : get_bytes (length text) text ≡ some (text, [])
    whole = ap (get_bytes (length text)) (sym (append-nil text)) ∙ get_bytes-append text []

checked :
    (e : LogEntry)
    → FitsFrame e
    → checked_entry (compute_string (serialize_entry e)) (serialize_entry e) ≡ entry e
unfolding checked_entry
checked e h = rw (
  ==-refl (compute_string (serialize_entry e)),
  ap deserialize_entry (sym (append-nil (serialize_entry e))),
  entry_round_trip e [] h.fits,
)

-- The record that was just appended is read back at its offset.
pub read_at-frame :
    (wal : Bytes) (e : LogEntry) → FitsFrame e → read_at (length wal) (wal ++ frame e) ≡ entry e
unfolding read_at checked_entry
read_at-frame wal e h =
    ap (λ bytes. read_result (read_frame bytes)) (drop-length-append wal (frame e))
    ∙ ap read_result (read_frame-frame e h)
    ∙ checked e h

-- The index file gives back the offsets that were written to it.
pub read_offsets-put_u64 :
    (x : ℕ) (rest : Bytes) → x < 2 ^ 64 → read_offsets (put_u64 x ++ rest) ≡ x ∷ read_offsets rest
unfolding read_offsets put_u64 put_u32
read_offsets-put_u64 x rest h = ap (λ (y : ℕ). y ∷ read_offsets rest) (omega arith)
