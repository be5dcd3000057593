-- ===== src/Crc.antt =====
-- `calculateCRC16` (src/common/protocol.h): CRC-16-CCITT, from 0xFFFF, highest bit first.
pub mod Detect
use zero_latency_yolo.Base.{
  ℕ, zero, suc, ◌*◌, ◌^◌, List, [], ◌∷◌, bit_xor, leb, if◌then◌else◌, u16, ◌≡◌, refl,
}

-- One round of the inner loop. On a `uint16_t` the test `crc & 0x8000` is `0x8000 <= crc`.
pub crc_bit : ℕ → ℕ
crc_bit crc = if leb 0x8000 crc then u16 (bit_xor (crc * 2) 0x1021) else u16 (crc * 2)

-- `for (uint8_t j = 0; j < 8; j++)`, with the rounds left.
pub crc_bits : ℕ → ℕ → ℕ
crc_bits zero crc = crc
crc_bits (suc rounds) crc = crc_bits rounds (crc_bit crc)

pub crc_byte : ℕ → ℕ → ℕ
unfolding crc_bits crc_bit
crc_byte crc byte = crc_bits 8 (u16 (bit_xor crc (byte * 2 ^ 8)))

pub crc_from : ℕ → List ℕ → ℕ
unfolding crc_byte
crc_from crc [] = crc
crc_from crc (byte ∷ bytes) = crc_from (crc_byte crc byte) bytes

unfoldable pub calculate_crc16 : List ℕ → ℕ
unfolding crc_from
calculate_crc16 bytes = crc_from 0xFFFF bytes

-- The check value of this CRC, for the text "123456789".
check_value :
    calculate_crc16 (0x31 ∷ 0x32 ∷ 0x33 ∷ 0x34 ∷ 0x35 ∷ 0x36 ∷ 0x37 ∷ 0x38 ∷ 0x39 ∷ []) ≡ 0x29b1
unfolding calculate_crc16
check_value = refl
