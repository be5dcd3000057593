-- ===== src/Base/Decimal.antt =====
-- Numbers as text: how a stream prints an unsigned number, and `std::stoi`.
use zero_latency_yolo.Base.{
  ℕ, zero, suc, ◌+◌, ◌-◌, ◌*◌, ◌/◌, ◌%◌, ◌^◌, ◌≤◌, ◌≡◌, ◌≢◌, refl, ◌∙◌, Bool, true, false, ◌&&◌,
  ◌||◌, not, List, [], ◌∷◌, Option, none, some, ltb, leb, ◌==◌, if◌then◌else◌, arith, if-cases,
}

abbrev pub is_digit : ℕ → Bool
is_digit c = leb 48 c && leb c 57

-- The digits of `n` before some text, in as many rounds as there are digits, for which `n` itself is
-- enough fuel.
unfoldable pub digits : ℕ → ℕ → List ℕ → List ℕ
digits zero n out = (48 + n % 10) ∷ out
digits (suc fuel) n out =
    let longer = digits fuel (n / 10) ((48 + n % 10) ∷ out) in
    if ltb n 10 then (48 + n % 10) ∷ out else longer

unfoldable pub print : ℕ → List ℕ
unfolding digits
print n = digits n n []

-- The value of the digits that a text begins with, after a value read so far.
unfoldable pub scan : List ℕ → ℕ → ℕ
scan [] n = n
scan (c ∷ s) n = if is_digit c then scan s (n * 10 + (c - 48)) else n

-- `isspace`.
abbrev pub is_space : ℕ → Bool
is_space c = (leb 9 c && leb c 13) || c == 32

unfoldable pub skip_spaces : List ℕ → List ℕ
skip_spaces [] = []
skip_spaces (c ∷ s) = if is_space c then skip_spaces s else c ∷ s

-- The digits after the sign, as the number's sign and size; the limits are those of `int`.
unfoldable pub read_digits : Bool → List ℕ → Option (Bool × ℕ)
read_digits negative [] = none
read_digits negative (c ∷ s) =
    let n = scan (c ∷ s) 0 in
    if not (is_digit c)
    then none
    else if ltb (if negative then 2 ^ 31 else 2 ^ 31 - 1) n
    then none
    else some (negative, n)

unfoldable pub read_sign : List ℕ → Option (Bool × ℕ)
read_sign [] = none
read_sign (c ∷ s) =
    if c == 45
    then read_digits true s
    else if c == 43
    then read_digits false s
    else read_digits false (c ∷ s)

-- `std::stoi`; `none` stands for its exceptions.
unfoldable pub stoi : List ℕ → Option (Bool × ℕ)
unfolding skip_spaces read_sign read_digits scan
stoi s = read_sign (skip_spaces s)

-- A conversion of an `int` to an unsigned type of some width.
unfoldable pub to_unsigned : ℕ → Bool × ℕ → ℕ
to_unsigned width (negative, n) =
    if negative then (2 ^ width - n % 2 ^ width) % 2 ^ width else n % 2 ^ width

abbrev pub IsDigits : List ℕ → Type 0
IsDigits [] = Unit {0}
IsDigits (c ∷ s) = (48 ≤ c) × (c ≤ 57) × IsDigits s

-- A text of digits with at least one.
abbrev pub IsNumeral : List ℕ → Type 0
IsNumeral s = (s ≢ []) × IsDigits s

digits-IsNumeral : (fuel n : ℕ) (out : List ℕ) → IsDigits out → IsNumeral (digits fuel n out)
unfolding digits
digits-IsNumeral zero n out h = ground arith
digits-IsNumeral (suc fuel) n out h =
    if-cases IsNumeral (ltb n 10) (λ _. ground arith)
      (λ _. digits-IsNumeral fuel (n / 10) ((48 + n % 10) ∷ out) (ground arith))

pub print-IsNumeral : (n : ℕ) → IsNumeral (print n)
unfolding print
print-IsNumeral n = digits-IsNumeral n n [] tt

scan_last : (n : ℕ) (out : List ℕ) → scan ((48 + n % 10) ∷ out) (n / 10) ≡ scan out n
unfolding scan
scan_last n out = ground arith

scan-digits : (fuel n : ℕ) (out : List ℕ) → n ≤ fuel → scan (digits fuel n out) 0 ≡ scan out n
unfolding digits scan
scan-digits zero n out h = ground arith
scan-digits (suc fuel) n out h =
    if-cases (λ s. scan s 0 ≡ scan out n) (ltb n 10) (λ last. ground (arith, last, scan_last n out))
      (λ _. scan-digits fuel (n / 10) ((48 + n % 10) ∷ out) (omega arith) ∙ scan_last n out)

pub scan-print : (n : ℕ) → scan (print n) 0 ≡ n
unfolding print scan
scan-print n = scan-digits n n [] (omega arith)

read-IsNumeral :
    (s : List ℕ)
    → IsNumeral s
    → stoi s ≡ (if ltb (2 ^ 31 - 1) (scan s 0) then none else some (false, scan s 0))
unfolding stoi
read-IsNumeral [] h = absurd (h.0 refl)
read-IsNumeral (c ∷ s) h = ground (arith, h.1)

-- `std::stoi` reads a printed number back, if an `int` holds it.
pub stoi-print : (n : ℕ) → stoi (print n) ≡ (if ltb (2 ^ 31 - 1) n then none else some (false, n))
stoi-print n = rw (read-IsNumeral (print n) (print-IsNumeral n), scan-print n) refl
