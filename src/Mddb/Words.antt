-- ===== src/Mddb/Words.antt =====
-- What pkg/mddb uses of `hash/crc32`, and the inverse of a word.
use Prim.Native.Nat.{bit_xor}
use agent_task.Prelude.{ℕ, ◌-◌, ◌/◌, ◌%◌, ◌^◌, ◌<◌, ◌≡◌, refl, [], ◌∷◌, arith, ◌==◌, if◌then◌else◌}
use agent_task.Text.{Bytes, codes}

-- `^v` at a width in bits.
abbrev pub inverse : ℕ → ℕ → ℕ
inverse width v = 2 ^ width - 1 - v

-- A bit and a byte of `crc32.Checksum` with the table `Castagnoli`.
crc_bit : ℕ → ℕ
crc_bit c = if c % 2 == 1 then bit_xor (c / 2) 0x82F63B78 else c / 2

crc_byte : ℕ → ℕ → ℕ
unfolding crc_bit
crc_byte c b =
    crc_bit (crc_bit (crc_bit (crc_bit (crc_bit (crc_bit (crc_bit (crc_bit (bit_xor c b))))))))

crc_loop : ℕ → Bytes → ℕ
unfolding crc_byte
crc_loop c [] = c
crc_loop c (b ∷ bs) = crc_loop (crc_byte c b) bs

unfoldable pub checksum : Bytes → ℕ
unfolding crc_loop
checksum bs = bit_xor (crc_loop 0xFFFFFFFF bs) 0xFFFFFFFF % 2 ^ 32

-- The check value of CRC-32C.
checksum_check : checksum (codes "123456789") ≡ 0xE3069283
unfolding checksum
checksum_check = refl

pub checksum_bounds : (bs : Bytes) → checksum bs < 2 ^ 32
unfolding checksum
checksum_bounds bs = omega arith
