-- ===== src/Format/Checksum.antt =====
-- `CRC32C` of storage/format.go: the CRC-32 of `hash/crc32` over the Castagnoli polynomial, bit by
-- bit. It is a uint32.
use Prim.Native.Nat.{bit_xor}
use mathlib.Core.List.{foldl}
use immulog.Prelude.{ℕ, zero, suc, ◌/◌, ◌%◌, ◌^◌, ◌<◌, List, arith, ◌==◌, if◌then◌else◌}

crc_bits : ℕ → ℕ → ℕ
crc_bits zero c = c
crc_bits (suc n) c = crc_bits n (if c % 2 == 1 then bit_xor (c / 2) 0x82f63b78 else c / 2)

crc_byte : ℕ → ℕ → ℕ
unfolding crc_bits
crc_byte c b = crc_bits 8 (bit_xor c b)

unfoldable pub crc32c : List ℕ → ℕ
unfolding crc_byte
crc32c data' = bit_xor (foldl crc_byte 0xffffffff data') 0xffffffff % 2 ^ 32

pub crc32c-lt : (data' : List ℕ) → crc32c data' < 2 ^ 32
unfolding crc32c
crc32c-lt data' = omega arith
