-- ===== src/Format/Principal/Crc.antt =====
-- `crc32` of profile/packages/format/src/principal.mjs: by table, and what it computes.
pub mod Reference
use Prim.Native.Nat.{bit_and, bit_xor}
use candid_core.Common.{ℕ, zero, suc, ◌+◌, ◌/◌, ◌%◌, List, [], ◌∷◌, ◌==◌, if◌then◌else◌}
use candid_core.Common.Bits.{shr}

-- One of the eight rounds that make a table entry.
unfoldable pub shift_round : ℕ → ℕ
shift_round c = if bit_and c 1 == 1 then bit_xor 0xedb88320 (shr c 1) else shr c 1

unfoldable pub rounds : ℕ → ℕ → ℕ
unfolding shift_round
rounds zero c = c
rounds (suc k) c = rounds k (shift_round c)

-- CRC_TABLE[n].
unfoldable pub crc_table : ℕ → ℕ
unfolding rounds
crc_table n = rounds 8 n

abbrev pub crc_step : ℕ → ℕ → ℕ
crc_step c b = bit_xor (crc_table (bit_and (bit_xor c b) 0xff)) (shr c 8)

unfoldable pub crc_loop : List ℕ → ℕ → ℕ
unfolding crc_table
crc_loop [] c = c
crc_loop (b ∷ bytes) c = crc_loop bytes (crc_step c b)

unfoldable pub crc32 : List ℕ → ℕ
unfolding crc_loop
crc32 bytes = bit_xor (crc_loop bytes 0xffffffff) 0xffffffff
