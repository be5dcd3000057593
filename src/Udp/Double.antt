-- ===== src/Udp/Double.antt =====
-- The arithmetic on `double` in `ClientConnection::updateRtt`: every operation is exact and then
-- rounded to 53 bits, ties to even. Values are multiples of a fixed power of 1/2.
use zero_latency_yolo.Base.{
  ℕ, zero, suc, ◌+◌, ◌-◌, ◌*◌, ◌/◌, ◌%◌, ◌^◌, ◌<◌, ◌≡◌, refl, ltb, ◌==◌, ◌&&◌, ◌||◌, if◌then◌else◌,
  arith,
}

-- How many low bits have to go for `n` to fit 53 bits; `fuel` is a bound on the answer.
unfoldable pub excess_bits : ℕ → ℕ → ℕ
excess_bits zero n = 0
excess_bits (suc fuel) n =
    let rest = excess_bits fuel (n / 2) in if ltb n (2 ^ 53) then 0 else suc rest

unfoldable pub round_at : ℕ → ℕ → ℕ
round_at zero n = n
round_at (suc k) n =
    let low = n % 2 ^ suc k in
    let kept = n / 2 ^ suc k in
    let down = ltb low (2 ^ k) || (low == 2 ^ k && kept % 2 == 0) in
    (if down then kept else kept + 1) * 2 ^ suc k

-- Every value below is smaller than 2 ^ 70.
unfoldable pub round53 : ℕ → ℕ
round53 n = round_at (excess_bits 70 n) n

-- `(1 - 1.0 / 2 ^ k) * old + (1.0 / 2 ^ k) * sample`, cut to an integer.
unfoldable pub blend : ℕ → ℕ → ℕ → ℕ
blend k old sample = round53 (round53 ((2 ^ k - 1) * round53 old) + round53 sample) / 2 ^ k

excess_bits_small : (fuel n : ℕ) → n < 2 ^ 53 → excess_bits fuel n ≡ 0
unfolding excess_bits
excess_bits_small zero n h = refl
excess_bits_small (suc fuel) n h = ground arith

-- Below 2 ^ 53 nothing is rounded.
pub round53_exact : (n : ℕ) → n < 2 ^ 53 → round53 n ≡ n
unfolding round53 round_at
round53_exact n h = rw (excess_bits_small 70 n h)

-- For times below 2 ^ 49 milliseconds the result is the exact weighted mean, cut to an integer.
pub blend_two :
    (old sample : ℕ) → old < 2 ^ 49 → sample < 2 ^ 49 → blend 2 old sample ≡ (3 * old + sample) / 4
unfolding blend
blend_two old sample ho hs = ground (
  arith,
  round53_exact old (omega arith),
  round53_exact sample (omega arith),
  round53_exact (3 * old) (omega arith),
  round53_exact (3 * old + sample) (omega arith),
)

pub blend_three :
    (old sample : ℕ) → old < 2 ^ 49 → sample < 2 ^ 49 → blend 3 old sample ≡ (7 * old + sample) / 8
unfolding blend
blend_three old sample ho hs = ground (
  arith,
  round53_exact old (omega arith),
  round53_exact sample (omega arith),
  round53_exact (7 * old) (omega arith),
  round53_exact (7 * old + sample) (omega arith),
)
