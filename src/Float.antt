-- ===== src/Float.antt =====
-- What the repository's code does with values of type `float`. A value is its bit pattern; the
-- operations are those of the machine.
use zero_latency_yolo.Base.{ℕ, ◌≡◌, Bool, true, false, ltb, leb, arith, ◌+◌, ◌-◌, ◌*◌, ◌/◌}

pub record Float : Type 0 where
  pub add : ℕ → ℕ → ℕ
  pub sub : ℕ → ℕ → ℕ
  pub mul : ℕ → ℕ → ℕ
  pub div : ℕ → ℕ → ℕ
  pub sqrt : ℕ → ℕ
  pub lt : ℕ → ℕ → Bool
  pub le : ℕ → ℕ → Bool
  pub of_int : ℕ → ℕ
  pub of_uint64 : ℕ → ℕ
  pub to_int : ℕ → ℕ
  pub to_uint64 : ℕ → ℕ
  pub exp : ℕ → ℕ

-- What holds of `<` and `<=`, a NaN on either side included.
pub record IsOrdered (fp : Float) : Type 0 where
  pub lt_trans : (a b c : ℕ) → fp.lt a b ≡ true → fp.lt b c ≡ true → fp.lt a c ≡ true
  pub lt_irrefl : (a : ℕ) → fp.lt a a ≡ false
  pub le_trans : (a b c : ℕ) → fp.le a b ≡ true → fp.le b c ≡ true → fp.le a c ≡ true
  pub lt-le : (a b : ℕ) → fp.lt a b ≡ true → fp.le a b ≡ true

-- The comparisons of patterns of values that are 0 or positive are those of the patterns; with these
-- the laws can be met. The operations of this instance are those of numbers.
abbrev pub pattern_float : Float
pattern_float = record {
  add = λ a b. a + b;
  sub = λ a b. a - b;
  mul = λ a b. a * b;
  div = λ a b. a / 2;
  sqrt = λ a. a;
  lt = ltb;
  le = leb;
  of_int = λ a. a;
  of_uint64 = λ a. a;
  to_int = λ a. a;
  to_uint64 = λ a. a;
  exp = λ a. a;
}

pub pattern_float-IsOrdered : IsOrdered pattern_float
pattern_float-IsOrdered = ground arith
