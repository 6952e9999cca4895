-- ===== src/Examples/Storage.antt =====
-- The storage's write-ahead log at concrete inputs.
use eya_kv.Prelude.{◌≡◌, refl, true, false, some, [], ◌∷◌, ◌++◌, take}
use eya_kv.Codec.Words.{put_u8, get_u8, put_u32, get_u32}
use eya_kv.Codec.Containers.{put_all, get_bytes}
use eya_kv.Storage.Wal.{WalRecord, record_bytes, replay_file, recover_files, Wal, Device}

abbrev set_a : WalRecord
set_a = record { type = 1; key = 97 ∷ []; payload = 49 ∷ 50 ∷ [] }

abbrev remove_b : WalRecord
remove_b = record { type = 2; key = 98 ∷ []; payload = [] }

-- The log holds one record, and syncs on each write.
abbrev wal : Wal
wal = record {
  files = (7 ∷ [], put_all record_bytes (set_a ∷ [])) ∷ [];
  wal_file = some (7 ∷ []);
  buffered = [];
  sync_on_write = true;
  modified = false;
}

-- Five bytes of the ten are taken, and two of them go to the file.
abbrev short_device : Device
short_device = record { written = 5; spilled = 2; flushed = true; synced = true }

-- The records behind one that was cut off are lost, and one is read that was never written.
after_torn_test :
    replay_file (take 5 (record_bytes set_a) ++ record_bytes remove_b ++ record_bytes set_a)
    ≡ record { type = 1; key = 2 ∷ []; payload = 98 ∷ [] } ∷ []
unfolding replay_file record_bytes put_u8 get_u8 get_u32 put_u32 get_bytes
after_torn_test = refl

recover_test :
    recover_files (λ name. true) ((6 ∷ [], []) ∷ (7 ∷ [], record_bytes set_a) ∷ [])
    ≡ ((7 ∷ [], set_a) ∷ [], (7 ∷ [], record_bytes set_a) ∷ [])
unfolding recover_files record_bytes put_u8 put_u32 get_u8 get_u32 get_bytes
recover_test = refl
