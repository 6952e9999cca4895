-- ===== src/RaftLog/Crc.antt =====
-- `CRC32Strategy` of include/common/util/checksum_utils.h.
use Prim.Native.Nat.{bit_xor, bit_and}
use eya_kv.Prelude.{
  ℕ, zero, suc, ◌+◌, ◌/◌, ◌%◌, ◌^◌, ◌<◌, ◌≡◌, refl, ◌==◌, if◌then◌else◌, List, [], ◌∷◌, get_or,
  arith,
}
use eya_kv.Codec.Words.{Bytes, to_u32}

-- the inner loop of generateTable: `rounds` more steps
crc_rounds : ℕ → ℕ → ℕ
crc_rounds zero c = c
crc_rounds (suc rounds) c =
    crc_rounds rounds (if c % 2 == 1 then bit_xor 0xEDB88320 (c / 2) else c / 2)

-- the entries from `i` on
table_from : ℕ → ℕ → List ℕ
unfolding crc_rounds
table_from zero i = []
table_from (suc n) i = crc_rounds 8 i ∷ table_from n (i + 1)

generate_table : List ℕ
unfolding table_from
generate_table = table_from 256 0

-- CRC32Strategy::update
update : List ℕ → ℕ → Bytes → ℕ
update table crc [] = crc
update table crc (byte ∷ rest) =
    update table (bit_xor (crc / 2 ^ 8) (get_or table (bit_and (bit_xor crc byte) 0xFF) 0)) rest

-- computeString; `~crc` on 32 bits
unfoldable pub compute_string : Bytes → ℕ
unfolding update generate_table
compute_string bytes = to_u32 (bit_xor (update generate_table 0xFFFFFFFF bytes) 0xFFFFFFFF)

pub compute_string-lt : (bytes : Bytes) → compute_string bytes < 2 ^ 32
unfolding compute_string
compute_string-lt bytes = omega arith

-- The check value of this CRC, of the digits 1 to 9.
compute_string_check : compute_string (49 ∷ 50 ∷ 51 ∷ 52 ∷ 53 ∷ 54 ∷ 55 ∷ 56 ∷ 57 ∷ []) ≡ 0xCBF43926
unfolding compute_string
compute_string_check = refl
