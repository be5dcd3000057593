-- ===== src/Base/Lists.antt =====
-- Lists measured and indexed by native numbers, under the library's names.
use Prim.Native.Nat.{ℕ, zero, suc, ◌+◌, ◌-◌, ◌≤◌, ◌<◌, min}
use mathlib.Core.Path.{◌≡◌, refl, sym, ◌∙◌, ap, ap₂}
use mathlib.Core.Logic.{◌≢◌}
use mathlib.Core.List.{List, [], ◌∷◌, ◌++◌, map}
use mathlib.Core.Option.{Option, none, some}
use native.Mathlib.Omega.{arith}

module _ {ℓ} {A : Type ℓ} where
  abbrev pub length : List A → ℕ
  length [] = 0
  length (x ∷ xs) = suc (length xs)

  abbrev pub get_elem? : List A → ℕ → Option A
  get_elem? [] i = none
  get_elem? (x ∷ xs) zero = some x
  get_elem? (x ∷ xs) (suc i) = get_elem? xs i

  -- A write out of bounds changes nothing.
  abbrev pub set : List A → ℕ → A → List A
  set [] i v = []
  set (x ∷ xs) zero v = v ∷ xs
  set (x ∷ xs) (suc i) v = x ∷ set xs i v

  pub length-append : (xs ys : List A) → length (xs ++ ys) ≡ length xs + length ys
  length-append [] ys = omega arith
  length-append (x ∷ xs) ys = omega (arith, length-append xs ys)

module _ {ℓ} {A : Type ℓ} where
  pub length-set : (xs : List A) (i : ℕ) (v : A) → length (set xs i v) ≡ length xs
  length-set [] i v = refl
  length-set (x ∷ xs) zero v = refl
  length-set (x ∷ xs) (suc i) v = ap suc (length-set xs i v)

  pub get_elem?-set_self :
      (xs : List A) (i : ℕ) (v : A) → i < length xs → get_elem? (set xs i v) i ≡ some v
  get_elem?-set_self [] i v h = elim h [ ]
  get_elem?-set_self (x ∷ xs) zero v h = refl
  get_elem?-set_self (x ∷ xs) (suc i) v h = get_elem?-set_self xs i v (omega arith)

  pub get_elem?-set_ne :
      (xs : List A) {i j : ℕ} (v : A) → i ≢ j → get_elem? (set xs i v) j ≡ get_elem? xs j
  get_elem?-set_ne [] v h = refl
  get_elem?-set_ne (x ∷ xs) {i = zero} {j = zero} v h = absurd (h refl)
  get_elem?-set_ne (x ∷ xs) {i = zero} {j = suc j} v h = refl
  get_elem?-set_ne (x ∷ xs) {i = suc i} {j = zero} v h = refl
  get_elem?-set_ne (x ∷ xs) {i = suc i} {j = suc j} v h = get_elem?-set_ne xs v (λ e. h (ap suc e))

module _ {ℓ} {A : Type ℓ} where
  abbrev pub get_or : List A → ℕ → A → A
  get_or [] i d = d
  get_or (x ∷ xs) zero d = x
  get_or (x ∷ xs) (suc i) d = get_or xs i d

  abbrev pub take : ℕ → List A → List A
  take zero xs = []
  take (suc n) [] = []
  take (suc n) (x ∷ xs) = x ∷ take n xs

  abbrev pub drop : ℕ → List A → List A
  drop zero xs = xs
  drop (suc n) [] = []
  drop (suc n) (x ∷ xs) = drop n xs

  abbrev pub replicate : ℕ → A → List A
  replicate zero a = []
  replicate (suc n) a = a ∷ replicate n a

  pub take-append-drop : (n : ℕ) (xs : List A) → take n xs ++ drop n xs ≡ xs
  take-append-drop zero xs = refl
  take-append-drop (suc n) [] = refl
  take-append-drop (suc n) (x ∷ xs) = rw (take-append-drop n xs)

  pub length-take : (n : ℕ) (xs : List A) → length (take n xs) ≡ min n (length xs)
  length-take zero xs = omega arith
  length-take (suc n) [] = omega arith
  length-take (suc n) (x ∷ xs) = omega (arith, length-take n xs)

  pub length-drop : (n : ℕ) (xs : List A) → length (drop n xs) ≡ length xs - n
  length-drop zero xs = omega arith
  length-drop (suc n) [] = omega arith
  length-drop (suc n) (x ∷ xs) = omega (arith, length-drop n xs)

  pub length-replicate : (n : ℕ) (a : A) → length (replicate n a) ≡ n
  length-replicate zero a = refl
  length-replicate (suc n) a = ap suc (length-replicate n a)

  pub length-map {κ} : {B : Type κ} (xs : List A) (f : A → B) → length (map f xs) ≡ length xs
  length-map [] f = refl
  length-map (x ∷ xs) f = ap suc (length-map xs f)

-- A predicate on every member, by recursion.
abbrev pub All {ℓ κ} : {A : Type ℓ} → (A → Type κ) → List A → Type κ
All P [] = Unit
All P (x ∷ xs) = P x × All P xs

-- The members are values of `uint8_t`.
abbrev pub IsBytes : List ℕ → Type 0
IsBytes = All (λ b. b < 256)

-- A write and a cut of the list.
module _ {ℓ} {A : Type ℓ} where
  pub take-set_le : (k : ℕ) (xs : List A) (i : ℕ) (v : A) → k ≤ i → take k (set xs i v) ≡ take k xs
  take-set_le zero xs i v h = refl
  take-set_le (suc k) [] i v h = refl
  take-set_le (suc k) (x ∷ xs) zero v h = absurd (omega arith)
  take-set_le (suc k) (x ∷ xs) (suc i) v h = ap (◌∷◌ x) (take-set_le k xs i v (omega arith))

  pub take-set : (k : ℕ) (xs : List A) (i : ℕ) (v : A) → take k (set xs i v) ≡ set (take k xs) i v
  take-set zero xs i v = refl
  take-set (suc k) [] i v = refl
  take-set (suc k) (x ∷ xs) zero v = refl
  take-set (suc k) (x ∷ xs) (suc i) v = ap (◌∷◌ x) (take-set k xs i v)

  pub drop-set_lt : (k : ℕ) (xs : List A) (i : ℕ) (v : A) → i < k → drop k (set xs i v) ≡ drop k xs
  drop-set_lt zero xs i v h = absurd (omega arith)
  drop-set_lt (suc k) [] i v h = refl
  drop-set_lt (suc k) (x ∷ xs) zero v h = refl
  drop-set_lt (suc k) (x ∷ xs) (suc i) v h = drop-set_lt k xs i v (omega arith)

  pub drop-set_add :
      (k : ℕ) (xs : List A) (j i : ℕ) (v : A)
      → k + j ≡ i
      → drop k (set xs i v) ≡ set (drop k xs) j v
  drop-set_add zero xs j i v h = let e : i ≡ j = omega arith in rw e
  drop-set_add (suc k) [] j i v h = refl
  drop-set_add (suc k) (x ∷ xs) j zero v h = absurd (omega arith)
  drop-set_add (suc k) (x ∷ xs) j (suc i) v h = drop-set_add k xs j i v (omega arith)

  pub set-append_left :
      (xs ys : List A) (i : ℕ) (v : A) → i < length xs → set (xs ++ ys) i v ≡ set xs i v ++ ys
  set-append_left [] ys i v h = absurd (omega arith)
  set-append_left (x ∷ xs) ys zero v h = refl
  set-append_left (x ∷ xs) ys (suc i) v h = ap (◌∷◌ x) (set-append_left xs ys i v (omega arith))

  pub set-append_right :
      (xs ys : List A) (j i : ℕ) (v : A) → length xs + j ≡ i → set (xs ++ ys) i v ≡ xs ++ set ys j v
  set-append_right [] ys j i v h = let e : i ≡ j = omega arith in rw e
  set-append_right (x ∷ xs) ys j zero v h = absurd (omega arith)
  set-append_right (x ∷ xs) ys j (suc i) v h =
      ap (◌∷◌ x) (set-append_right xs ys j i v (omega arith))

  pub eq_of_cuts :
      (k : ℕ) (xs ys : List A) → take k xs ≡ take k ys → drop k xs ≡ drop k ys → xs ≡ ys
  eq_of_cuts k xs ys p q = sym (take-append-drop k xs) ∙ ap₂ ◌++◌ p q ∙ take-append-drop k ys

  pub append_cancel_right :
      (xs ys zs : List A) → length xs ≡ length ys → xs ++ zs ≡ ys ++ zs → xs ≡ ys
  append_cancel_right [] [] zs l e = refl
  append_cancel_right [] (y ∷ ys) zs l e = absurd (omega arith)
  append_cancel_right (x ∷ xs) [] zs l e = absurd (omega arith)
  append_cancel_right (x ∷ xs) (y ∷ ys) zs l e = ground (arith, e, append_cancel_right xs ys zs)

  pub append_cancel_left : (xs ys zs : List A) → xs ++ ys ≡ xs ++ zs → ys ≡ zs
  append_cancel_left [] ys zs e = e
  append_cancel_left (x ∷ xs) ys zs e = append_cancel_left xs ys zs (cc)

module _ {ℓ κ} {A : Type ℓ} (P : A → Type κ) where
  pub All-take : (k : ℕ) (xs : List A) → All P xs → All P (take k xs)
  All-take zero xs h = tt
  All-take (suc k) [] h = tt
  All-take (suc k) (x ∷ xs) h = (h.0, All-take k xs h.1)

  pub All-drop : (k : ℕ) (xs : List A) → All P xs → All P (drop k xs)
  All-drop zero xs h = h
  All-drop (suc k) [] h = tt
  All-drop (suc k) (x ∷ xs) h = All-drop k xs h.1

  pub All-set : (xs : List A) (i : ℕ) (v : A) → P v → All P xs → All P (set xs i v)
  All-set [] i v p h = tt
  All-set (x ∷ xs) zero v p h = (p, h.1)
  All-set (x ∷ xs) (suc i) v p h = (h.0, All-set xs i v p h.1)

  pub All-append : (xs ys : List A) → All P xs → All P ys → All P (xs ++ ys)
  All-append [] ys h k = k
  All-append (x ∷ xs) ys h k = (h.0, All-append xs ys h.1 k)
