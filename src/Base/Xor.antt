-- ===== src/Base/Xor.antt =====
-- The laws of `^` that a checksum needs, at every width, from the binary digits.
use Prim.Native.Nat.{
  ℕ, zero, suc, ◌+◌, ◌*◌, ◌/◌, ◌%◌, ◌≤◌, ◌<◌, ◌^◌, digits, bit_xor, bit_xor-bitwise, differ,
}
use mathlib.Core.Path.{◌≡◌, refl, sym, ◌∙◌, ap, ◌≡⟨◌⟩◌, ◌∎}
use native.Mathlib.Nat.{
  pow-suc, one-le-pow, mod-lt, mod-eq_of_lt, div-add-mod', add-mul-mod_self_right,
}
use native.Mathlib.Omega.{arith}

-- The digit recursion that `bit_xor` stands for.
abbrev xor_digits : ℕ → ℕ → ℕ → ℕ
xor_digits n a b = digits (λ y. y) differ n a b

-- Fuel beyond the first operand changes nothing.
xor_digits_slack : (k n a b : ℕ) → a ≤ n → n ≤ k → xor_digits k a b ≡ xor_digits n a b
xor_digits_slack zero zero a b p q = refl
xor_digits_slack zero (suc n) a b p q = absurd (omega arith)
xor_digits_slack (suc k) zero zero b p q = refl
xor_digits_slack (suc k) zero (suc a) b p q = absurd (omega arith)
xor_digits_slack (suc k) (suc n) zero b p q = refl
xor_digits_slack (suc k) (suc n) (suc a) b p q =
    ap (λ t. t * 2 + differ (suc a % 2) (b % 2))
      (xor_digits_slack k n (suc a / 2) (b / 2) (omega arith) (omega arith))

zero-bit_xor : (b : ℕ) → bit_xor 0 b ≡ b
zero-bit_xor b = bit_xor-bitwise 0 b

-- One digit at a time.
pub bit_xor_step : (a b : ℕ) → bit_xor a b ≡ bit_xor (a / 2) (b / 2) * 2 + differ (a % 2) (b % 2)
bit_xor_step zero b = omega (arith, zero-bit_xor b, zero-bit_xor (b / 2))
bit_xor_step (suc a) b = omega (
  arith,
  bit_xor-bitwise (suc a) b,
  bit_xor-bitwise (suc a / 2) (b / 2),
  xor_digits_slack a (suc a / 2) (suc a / 2) (b / 2) (omega arith) (omega arith),
)

-- On digits, `differ` is addition modulo 2.
differ_parity : (x y : ℕ) → x < 2 → y < 2 → differ x y ≡ (x + y) % 2
differ_parity zero y p q = omega arith
differ_parity (suc zero) zero p q = refl
differ_parity (suc zero) (suc zero) p q = refl
differ_parity (suc zero) (suc (suc y)) p q = absurd (omega arith)
differ_parity (suc (suc x)) y p q = absurd (omega arith)

bit_xor_digit : (a b : ℕ) → bit_xor a b ≡ bit_xor (a / 2) (b / 2) * 2 + (a + b) % 2
bit_xor_digit a b =
    omega (arith, bit_xor_step a b, differ_parity (a % 2) (b % 2) (omega arith) (omega arith))

pub bit_xor_halves :
    (a b : ℕ) → (bit_xor a b / 2 ≡ bit_xor (a / 2) (b / 2)) × (bit_xor a b % 2 ≡ (a + b) % 2)
bit_xor_halves a b = omega (arith, bit_xor_digit a b)

cancel_below : (n a b : ℕ) → a ≤ n → b ≤ n → bit_xor (bit_xor a b) b ≡ a
cancel_below zero a b p q =
    let ea : a ≡ 0 = omega arith in let eb : b ≡ 0 = omega arith in rw (ea, eb)
cancel_below (suc n) a b p q =
    ground
      (arith, bit_xor_digit (bit_xor a b) b, bit_xor_halves a b, cancel_below n (a / 2) (b / 2))

-- Applying the same mask twice gives the first value back.
pub bit_xor_cancel : (a b : ℕ) → bit_xor (bit_xor a b) b ≡ a
bit_xor_cancel a b = cancel_below (a + b) a b (omega arith) (omega arith)

-- Nothing beyond the wider of the two is set.
pub bit_xor-lt : (k a b : ℕ) → a < 2 ^ k → b < 2 ^ k → bit_xor a b < 2 ^ k
bit_xor-lt zero a b p q =
    let ea : a ≡ 0 = omega arith in let eb : b ≡ 0 = omega arith in rw (ea, eb) (omega arith)
bit_xor-lt (suc k) a b p q =
    ground (arith, pow-suc 2 k, bit_xor_digit a b, bit_xor-lt k (a / 2) (b / 2))

-- The low digits of a number, one more at a time.
mod-pow-suc : (k a : ℕ) → a % 2 ^ suc k ≡ (a / 2) % 2 ^ k * 2 + a % 2
mod-pow-suc k a =
    a % 2 ^ suc k
    ≡⟨ ap (λ (t : ℕ). t % 2 ^ suc k) split ⟩ (low + a / 2 / 2 ^ k * 2 ^ suc k) % 2 ^ suc k
    ≡⟨ add-mul-mod_self_right low (a / 2 / 2 ^ k) (2 ^ suc k) ⟩ low % 2 ^ suc k
    ≡⟨ mod-eq_of_lt fits ⟩ low ∎
  where
    low : ℕ
    low = a / 2 % 2 ^ k * 2 + a % 2

    split : a ≡ low + a / 2 / 2 ^ k * 2 ^ suc k
    split =
        omega (arith, div-add-mod' (a / 2) (2 ^ k), ap (λ (t : ℕ). a / 2 / 2 ^ k * t) (pow-suc 2 k))

    fits : low < 2 ^ suc k
    fits = omega (arith, pow-suc 2 k, mod-lt (a / 2) {m = 2 ^ k} (one-le-pow k 2 (omega arith)))

-- A cast to `k` bits may be taken before the operation.
pub bit_xor-mod : (k a b : ℕ) → bit_xor a b % 2 ^ k ≡ bit_xor (a % 2 ^ k) (b % 2 ^ k)
bit_xor-mod zero a b =
    let ea : a % 1 ≡ 0 = omega arith in
    let eb : b % 1 ≡ 0 = omega arith in
    let exc : bit_xor a b % 1 ≡ 0 = omega arith in rw (ea, eb, exc)
bit_xor-mod (suc k) a b = ground (
  arith,
  mod-pow-suc k a,
  mod-pow-suc k b,
  mod-pow-suc k (bit_xor a b),
  bit_xor_halves a b,
  bit_xor_digit (a % 2 ^ suc k) (b % 2 ^ suc k),
  bit_xor-mod k (a / 2) (b / 2),
)

comm_below : (n a b : ℕ) → a ≤ n → b ≤ n → bit_xor a b ≡ bit_xor b a
comm_below zero a b p q =
    let ea : a ≡ 0 = omega arith in let eb : b ≡ 0 = omega arith in rw (ea, eb)
comm_below (suc n) a b p q =
    ground (arith, bit_xor_digit a b, bit_xor_digit b a, comm_below n (a / 2) (b / 2))

pub bit_xor_comm : (a b : ℕ) → bit_xor a b ≡ bit_xor b a
bit_xor_comm a b = comm_below (a + b) a b (omega arith) (omega arith)

pub xor_right_injective : (m a b : ℕ) → bit_xor a m ≡ bit_xor b m → a ≡ b
xor_right_injective m a b e =
    sym (bit_xor_cancel a m) ∙ ap (λ (t : ℕ). bit_xor t m) e ∙ bit_xor_cancel b m

pub xor_left_injective : (m a b : ℕ) → bit_xor m a ≡ bit_xor m b → a ≡ b
xor_left_injective m a b e = xor_right_injective m a b (bit_xor_comm a m ∙ e ∙ bit_xor_comm m b)
