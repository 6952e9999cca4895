-- ===== src/Storage/Wal/Replay.antt =====
-- src/storage/wal.cpp: what recover reads from the files that write_record wrote.
use eya_kv.Prelude.{
  ◌&&◌, ◌≡◌, Bool, true, false, if◌then◌else◌, some, List, [], ◌∷◌, ◌++◌, take, drop,
}
use eya_kv.Codec.Words.{Bytes}
use eya_kv.Codec.Containers.{map_find, put_all}
use eya_kv.Codec.RoundTrip.{All}
use eya_kv.Storage.Wal.Records.{Fits}
use eya_kv.Storage.Wal.{WalRecord, record_bytes, replay_file, Wal, Device, fwrite, flush}

-- What the file holds once the buffer of its stream is moved to it.
pub record Holds (name : Bytes) (w : Wal) (bytes : Bytes) : Type 0 where
  pub in_file : Bytes
  pub found : map_find name w.files ≡ some in_file
  pub whole : in_file ++ w.buffered ≡ bytes

-- The open file holds the records of a list, whole, with the buffer of its stream.
pub record Logged (name : Bytes) (l : List WalRecord) (w : Wal) : Type 0 where
  pub opened : w.wal_file ≡ some name
  pub holds : Holds name w (put_all record_bytes l)
  pub fit : All Fits l

abbrev marked : Bool → Wal → Wal
marked b w = record w { modified = b }

-- What write_record does to the stream of an open file, from whether fwrite takes all, whether the log is
-- to be synced, and whether fflush succeeds.
outcome : Device → Bytes → WalRecord → Wal → Bool → Bool → Bool → Bool × Wal
outcome d name r w false syncs flushed = (false, fwrite d name (record_bytes r) w)
outcome d name r w true false flushed = (true, marked true (fwrite d name (record_bytes r) w))
outcome d name r w true true false =
    (d.synced, marked false (marked true (fwrite d name (record_bytes r) w)))
outcome d name r w true true true =
    (d.synced, marked false (flush name (marked true (fwrite d name (record_bytes r) w))))

-- What a call of append_log with a record, on the log `w` whose open file has the records of `l`,
-- reports and leaves: `taken` is whether fwrite takes all, `syncs` whether the log is to be synced, and
-- `flushed` whether fflush succeeds.
pub record Logs (d : Device) (name : Bytes) (l : List WalRecord) (r : WalRecord) (w : Wal)
    (taken syncs flushed : Bool) (o : Bool × Wal) : Type 0 where
  pub bytes : Bytes
  pub holds : Holds name o.1 bytes
  pub replays : replay_file bytes ≡ (if taken then l ++ r ∷ [] else l)
  pub reports : o.0 ≡ (if taken then (if syncs then d.synced else true) else false)
  pub buffer : o.1.buffered ≡ (
      if taken && (syncs && flushed)
      then []
      else drop d.spilled (w.buffered ++ take d.written (record_bytes r)))
