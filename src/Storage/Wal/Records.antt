-- ===== src/Storage/Wal/Records.antt =====
-- src/storage/wal.cpp: recover reads back whole records, and none that was cut off.
use eya_kv.Prelude.{
  ℕ, zero, suc, ◌+◌, ◌^◌, ◌<◌, ◌≤◌, ◌≡◌, refl, ap, sym, ◌∙◌, ◌==◌, Option, Option-cases,
  if◌then◌else◌, none, some, List, [], ◌∷◌, ◌++◌, append_assoc, append-nil, length, length-append,
  take, drop, take-append-drop, length-drop, inl, inr, arith,
}
use eya_kv.Codec.Words.{
  Bytes, to_u32, put_u8, get_u8, put_u32, get_u32, bind_some, get_u8-put_u8, get_u32-put_u32,
}
use eya_kv.Codec.Containers.{put_all}
use eya_kv.Codec.Extends.{Extends, get_u8-Extends, get_u32-Extends, get_bytes-Extends, bind-Extends}
use eya_kv.Codec.RoundTrip.{All, Trips, read_field, to_u32_id, get_bytes-append}
use eya_kv.Storage.Wal.{
  WalRecord, record_bytes, get_limited, read_record, read_records, replay_file,
}

-- A record whose type is a byte, and that recover does not take for a corrupted one.
pub record Fits (r : WalRecord) : Type 0 where
  pub type_fits : r.type < 256
  pub key_fits : length r.key ≤ 1048576
  pub payload_fits : length r.payload ≤ 134217728

abbrev limited : Bytes → Bytes
limited str = put_u32 (to_u32 (length str)) ++ str

limited-Trips :
    (limit : ℕ) (str : Bytes)
    → length str ≤ limit
    → limit < 2 ^ 32
    → Trips limited (get_limited limit) str
unfolding get_limited
limited-Trips limit str h k rest = rw (to_u32_id (length str) (omega arith)) (
    read_field put_u32 get_u32 _ (length str) str rest
      (λ r. get_u32-put_u32 (length str) r (omega arith))
    ∙ ground (arith, get_bytes-append str rest))

payload_written :
    (payload : Bytes)
    → length payload < 2 ^ 32
    → (if to_u32 (length payload) == 0 then [] else payload) ≡ payload
payload_written [] h = refl
payload_written (x ∷ xs) h = rw (to_u32_id (suc (length xs)) h) (ground arith)

record-Trips : (r : WalRecord) → Fits r → Trips record_bytes read_record r
unfolding record_bytes read_record
record-Trips r h rest = rw (payload_written r.payload (omega (arith, h.payload_fits))) (
    read_field put_u8 get_u8 _ r.type (limited r.key ++ limited r.payload) rest
      (λ b. get_u8-put_u8 r.type b h.type_fits)
    ∙ read_field limited (get_limited 1048576) _ r.key (limited r.payload) rest
        (limited-Trips 1048576 r.key h.key_fits (omega arith))
    ∙ bind_some (get_limited 134217728) _
        (limited-Trips 134217728 r.payload h.payload_fits (omega arith) rest))

get_limited-Extends : (limit : ℕ) → Extends (get_limited limit)
unfolding get_limited
get_limited-Extends limit =
    bind-Extends get_u32 _ get_u32-Extends
      λ len xs rest more a h. ground (arith, get_bytes-Extends len xs rest more a)

read_record-Extends : Extends read_record
unfolding read_record
read_record-Extends = bind-Extends get_u8 _ get_u8-Extends λ type.
    bind-Extends (get_limited 1048576) _ (get_limited-Extends 1048576) λ key.
      bind-Extends (get_limited 134217728) _ (get_limited-Extends 134217728)
        λ payload xs rest more a h. ground arith

abbrev left_behind : Option (WalRecord × Bytes) → ℕ
left_behind none = 0
left_behind (some (r, rest)) = length rest

-- A record that is cut off is not read.
pub torn_unread :
    (r : WalRecord) (n : ℕ)
    → Fits r
    → n < length (record_bytes r)
    → read_record (take n (record_bytes r)) ≡ none
torn_unread r n h short = elim (Option-cases (read_record (take n (record_bytes r)))) [
  | inl e ↦ e
  | inr ((a, rest), e) ↦
      (let whole =
          ap read_record (sym (take-append-drop n (record_bytes r)))
          ∙ read_record-Extends (take n (record_bytes r)) rest (drop n (record_bytes r)) a e in
        let read = ap read_record (sym (append-nil (record_bytes r))) ∙ record-Trips r h [] in
        let none_left = ap left_behind (sym whole ∙ read) in
        absurd (
          omega (
            arith,
            none_left,
            short,
            length-append rest (drop n (record_bytes r)),
            length-drop n (record_bytes r),
          )))
]

record_bytes-lt : (r : WalRecord) → 0 < length (record_bytes r)
unfolding record_bytes put_u8
record_bytes-lt r = omega arith

longer :
    (r : WalRecord) (l : List WalRecord) (end : Bytes)
    → length (put_all record_bytes (r ∷ l) ++ end)
      ≡ length (record_bytes r) + length (put_all record_bytes l ++ end)
unfolding put_all
longer r l end =
    ap (λ (bytes : Bytes). length bytes)
      (append_assoc (record_bytes r) (put_all record_bytes l) end)
    ∙ length-append (record_bytes r) _

-- Any fuel that is at least the number of bytes gives the records of a log with a torn end.
replay_torn :
    (fuel : ℕ) (l : List WalRecord) (end : Bytes)
    → All Fits l
    → read_record end ≡ none
    → length (put_all record_bytes l ++ end) ≤ fuel
    → read_records fuel (put_all record_bytes l ++ end) ≡ l
unfolding read_records put_all
replay_torn zero [] end f e h = refl
replay_torn (suc fuel) [] end f e h = rw (read_records, e)
replay_torn zero (r ∷ l) end f e h = absurd (omega (arith, h, longer r l end, record_bytes-lt r))
replay_torn (suc fuel) (r ∷ l) end f e h =
    rw
      (
        append_assoc (record_bytes r) (put_all record_bytes l) end,
        read_records,
        record-Trips r f.0 (put_all record_bytes l ++ end),
      )
      (ap (◌∷◌ r)
        (replay_torn fuel l end f.1 e (omega (arith, h, longer r l end, record_bytes-lt r))))

pub unread_nil : read_record [] ≡ none
unfolding read_record get_u8
unread_nil = refl

pub replay_file-torn :
    (l : List WalRecord) (end : Bytes)
    → All Fits l
    → read_record end ≡ none
    → replay_file (put_all record_bytes l ++ end) ≡ l
unfolding replay_file
replay_file-torn l end f e = replay_torn _ l end f e (omega arith)
