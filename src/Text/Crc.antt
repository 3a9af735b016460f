-- ===== src/Text/Crc.antt =====
-- `zlib.crc32`, bit by bit.
use pylogstream.Prelude.{ℕ, zero, suc, ◌/◌, ◌%◌, ◌≡◌, refl, [], ◌∷◌, bit_xor, ◌==◌, if◌then◌else◌}
use pylogstream.Text.{Bytes, codes}

crc_bits : ℕ → ℕ → ℕ
crc_bits zero r = r
crc_bits (suc n) r = crc_bits n (if r % 2 == 1 then bit_xor (r / 2) 0xedb88320 else r / 2)

crc_bytes : ℕ → Bytes → ℕ
unfolding crc_bits
crc_bytes r [] = r
crc_bytes r (b ∷ s) = crc_bytes (crc_bits 8 (bit_xor r b)) s

unfoldable pub crc32 : Bytes → ℕ
unfolding crc_bytes
crc32 s = bit_xor (crc_bytes 0xffffffff s) 0xffffffff

-- The check value of the CRC-32 catalogue.
crc32-check : crc32 (codes "123456789") ≡ 0xcbf43926
unfolding crc32
crc32-check = refl
