-- ===== src/Crc/Detect.antt =====
-- What the checksum of src/common/protocol.h detects: every round is injective on 16 bits.
use zero_latency_yolo.Base.{
  ℕ, zero, suc, ◌*◌, ◌^◌, ◌%◌, ◌<◌, List, [], ◌∷◌, bit_xor, u16, ◌≡◌, refl, ap, arith, set, IsBytes,
}
use zero_latency_yolo.Base.Xor.{
  xor_right_injective, xor_left_injective, bit_xor_halves, bit_xor-lt, bit_xor-mod,
}
use zero_latency_yolo.Crc.{crc_bit, crc_bits, crc_byte, crc_from, calculate_crc16}

crc_bit-lt : (c : ℕ) → crc_bit c < 2 ^ 16
unfolding crc_bit
crc_bit-lt c = ground arith

-- The top bit that a round shifts out shows as the lowest bit of the polynomial.
crc_bit_injective : (c d : ℕ) → c < 2 ^ 16 → d < 2 ^ 16 → crc_bit c ≡ crc_bit d → c ≡ d
unfolding crc_bit
crc_bit_injective c d hc hd e = ground (
  arith,
  bit_xor-mod 16 (c * 2) 0x1021,
  bit_xor-mod 16 (d * 2) 0x1021,
  bit_xor_halves (c * 2) 0x1021,
  bit_xor_halves (d * 2) 0x1021,
  xor_right_injective 0x1021 (c * 2 % 2 ^ 16) (d * 2 % 2 ^ 16),
)

crc_bits-lt : (n c : ℕ) → c < 2 ^ 16 → crc_bits n c < 2 ^ 16
unfolding crc_bits
crc_bits-lt zero c h = h
crc_bits-lt (suc n) c h = crc_bits-lt n (crc_bit c) (crc_bit-lt c)

crc_bits_injective : (n c d : ℕ) → c < 2 ^ 16 → d < 2 ^ 16 → crc_bits n c ≡ crc_bits n d → c ≡ d
unfolding crc_bits
crc_bits_injective zero c d hc hd e = e
crc_bits_injective (suc n) c d hc hd e =
    crc_bit_injective c d hc hd
      (crc_bits_injective n (crc_bit c) (crc_bit d) (crc_bit-lt c) (crc_bit-lt d) e)

pub crc_byte-lt : (c b : ℕ) → crc_byte c b < 2 ^ 16
unfolding crc_byte
crc_byte-lt c b = crc_bits-lt 8 (u16 (bit_xor c (b * 2 ^ 8))) (omega arith)

-- A byte is mixed into the high half, where nothing is cut off.
mixed-lt : (c b : ℕ) → c < 2 ^ 16 → b < 256 → bit_xor c (b * 2 ^ 8) < 2 ^ 16
mixed-lt c b hc hb = bit_xor-lt 16 c (b * 2 ^ 8) hc (omega arith)

crc_byte_mixed :
    (c d a b : ℕ)
    → c < 2 ^ 16
    → d < 2 ^ 16
    → a < 256
    → b < 256
    → crc_byte c a ≡ crc_byte d b
    → bit_xor c (a * 2 ^ 8) ≡ bit_xor d (b * 2 ^ 8)
unfolding crc_byte
crc_byte_mixed c d a b hc hd ha hb e = omega (
  arith,
  mixed-lt c a hc ha,
  mixed-lt d b hd hb,
  crc_bits_injective 8 (u16 (bit_xor c (a * 2 ^ 8))) (u16 (bit_xor d (b * 2 ^ 8))) (omega arith)
      (omega arith) e,
)

crc_byte_state :
    (b c d : ℕ) → b < 256 → c < 2 ^ 16 → d < 2 ^ 16 → crc_byte c b ≡ crc_byte d b → c ≡ d
crc_byte_state b c d hb hc hd e =
    xor_right_injective (b * 2 ^ 8) c d (crc_byte_mixed c d b b hc hd hb hb e)

crc_byte_input : (c a b : ℕ) → c < 2 ^ 16 → a < 256 → b < 256 → crc_byte c a ≡ crc_byte c b → a ≡ b
crc_byte_input c a b hc ha hb e =
    omega
      (arith, xor_left_injective c (a * 2 ^ 8) (b * 2 ^ 8) (crc_byte_mixed c c a b hc hc ha hb e))

pub crc_from-lt : (c : ℕ) (bs : List ℕ) → c < 2 ^ 16 → crc_from c bs < 2 ^ 16
unfolding crc_from
crc_from-lt c [] h = h
crc_from-lt c (b ∷ bs) h = crc_from-lt (crc_byte c b) bs (crc_byte-lt c b)

-- Two states that meet after the same bytes were the same before them.
crc_from_state :
    (c d : ℕ) (bs : List ℕ)
    → IsBytes bs
    → c < 2 ^ 16
    → d < 2 ^ 16
    → crc_from c bs ≡ crc_from d bs
    → c ≡ d
unfolding crc_from
crc_from_state c d [] hb hc hd e = e
crc_from_state c d (b ∷ bs) hb hc hd e =
    crc_byte_state b c d hb.0 hc hd
      (crc_from_state (crc_byte c b) (crc_byte d b) bs hb.1 (crc_byte-lt c b) (crc_byte-lt d b) e)

crc_from-set :
    (c : ℕ) (bs : List ℕ) (i v : ℕ)
    → c < 2 ^ 16
    → IsBytes bs
    → v < 256
    → crc_from c (set bs i v) ≡ crc_from c bs
    → set bs i v ≡ bs
unfolding crc_from
crc_from-set c [] i v hc hb hv e = refl
crc_from-set c (b ∷ bs) zero v hc hb hv e =
    ap (λ (t : ℕ). t ∷ bs)
      (crc_byte_input c v b hc hv hb.0 (
        crc_from_state (crc_byte c v) (crc_byte c b) bs hb.1 (crc_byte-lt c v) (crc_byte-lt c b) e))
crc_from-set c (b ∷ bs) (suc i) v hc hb hv e =
    ap (◌∷◌ b) (crc_from-set (crc_byte c b) bs i v (crc_byte-lt c b) hb.1 hv e)

-- If writing a byte at one position leaves `calculateCRC16` of a byte sequence as it was, the write
-- changed nothing: no corruption of a single byte goes unnoticed.
pub calculate_crc16-set :
    (bs : List ℕ) (i v : ℕ)
    → IsBytes bs
    → v < 256
    → calculate_crc16 (set bs i v) ≡ calculate_crc16 bs
    → set bs i v ≡ bs
unfolding calculate_crc16
calculate_crc16-set bs i v hb hv e = crc_from-set 0xFFFF bs i v (omega arith) hb hv e

pub calculate_crc16-lt : (bs : List ℕ) → calculate_crc16 bs < 2 ^ 16
unfolding calculate_crc16
calculate_crc16-lt bs = crc_from-lt 0xFFFF bs (omega arith)
