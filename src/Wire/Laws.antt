-- ===== src/Wire/Laws.antt =====
-- The laws of byte buffers: what is written is read back, and reads with enough bytes succeed.
use zero_latency_yolo.Base.{
  ℕ, zero, suc, ◌+◌, ◌*◌, ◌/◌, ◌%◌, ◌^◌, ◌≤◌, ◌<◌, ◌≡◌, refl, List, [], ◌∷◌, ◌++◌, some, arith,
  length, append_assoc, ◌∙◌, ap, IsBytes, All, subst, map,
}
use zero_latency_yolo.Wire.{le, from_le, joined}
use zero_latency_yolo.Wire.Reader.{Reader, ◌>>=◌, pure, get_bytes, get_le, get_many}
use native.Mathlib.Nat.{pow-suc}

pub length-le : (w n : ℕ) → length (le w n) ≡ w
unfolding le
length-le zero n = refl
length-le (suc w) n = ap suc (length-le w (n / 256))

pub le-IsBytes : (w n : ℕ) → IsBytes (le w n)
unfolding le
le-IsBytes zero n = tt
le-IsBytes (suc w) n = (omega arith, le-IsBytes w (n / 256))

pub from_le-le : (w n : ℕ) → n < 256 ^ w → from_le (le w n) ≡ n
unfolding le from_le
from_le-le zero n h = omega arith
from_le-le (suc w) n h = ground (arith, pow-suc 256 w, from_le-le w (n / 256))

pub le-from_le : (bs : List ℕ) → IsBytes bs → le (length bs) (from_le bs) ≡ bs
unfolding le from_le
le-from_le [] h = refl
le-from_le (b ∷ bs) h =
    let low : (b + 256 * from_le bs) % 256 ≡ b = omega arith in
    let high : (b + 256 * from_le bs) / 256 ≡ from_le bs = omega arith in
    rw (low, high, le-from_le bs h.1)

-- `m` reads `bytes` as `a`, whatever follows.
abbrev pub Parses {ℓ} : {A : Type ℓ} → Reader A → List ℕ → A → Type ℓ
Parses {A} m bytes a = (rest : List ℕ) → m (bytes ++ rest) ≡ some (a, rest)

pub get_bytes-Parses : (bs : List ℕ) → Parses (get_bytes (length bs)) bs bs
unfolding get_bytes
get_bytes-Parses [] rest = refl
get_bytes-Parses (b ∷ bs) rest = rw (get_bytes-Parses bs rest)

pub >>=_step {ℓ κ} :
    {A : Type ℓ} {B : Type κ} (m : Reader A) (f : A → Reader B) (bytes : List ℕ) {a : A}
    {mid : List ℕ}
    → m bytes ≡ some (a, mid)
    → (m >>= f) bytes ≡ f a mid
>>=_step m f bytes e = rw (e, ◌>>=◌)

pub >>=-Parses {ℓ κ} :
    {A : Type ℓ} {B : Type κ} (m : Reader A) (f : A → Reader B) (xs ys : List ℕ) (a : A) (b : B)
    → Parses m xs a
    → Parses (f a) ys b
    → Parses (m >>= f) (xs ++ ys) b
>>=-Parses m f xs ys a b p q rest =
    rw append_assoc (>>=_step m f (xs ++ (ys ++ rest)) (p (ys ++ rest)) ∙ q rest)

-- The last read of a chain, with nothing left to take.
pub map-Parses {ℓ κ} :
    {A : Type ℓ} {B : Type κ} (m : Reader A) (f : A → B) (xs : List ℕ) (a : A)
    → Parses m xs a
    → Parses (m >>= λ x. pure (f x)) xs (f a)
map-Parses m f xs a p rest = >>=_step m (λ x. pure (f x)) (xs ++ rest) (p rest)

pub get_le-Parses : (w n : ℕ) → n < 256 ^ w → Parses (get_le w) (le w n) n
unfolding get_le
get_le-Parses w n h = subst (Parses (get_le w) (le w n)) (from_le-le w n h) (
    map-Parses (get_bytes w) from_le (le w n) (le w n) (
      subst (λ k. Parses (get_bytes k) (le w n) (le w n)) (length-le w n)
        (get_bytes-Parses (le w n))))

pub get_many-Parses {ℓ κ} :
    {A : Type ℓ} (m : Reader A) (print : A → List ℕ) (P : A → Type κ)
    → ((a : A) → P a → Parses m (print a) a)
    → (xs : List A) → All P xs
    → Parses (get_many (length xs) m) (joined (map print xs)) xs
unfolding get_many
get_many-Parses m print P p [] h rest = refl
get_many-Parses m print P p (x ∷ xs) h rest =
    >>=-Parses m _ (print x) (joined (map print xs)) x (x ∷ xs) (p x h.0)
      (map-Parses (get_many (length xs) m) (◌∷◌ x) (joined (map print xs)) xs
        (get_many-Parses m print P p xs h.1))
      rest

-- With `k` bytes left `m` succeeds, and consumes just those.
abbrev pub Needs {ℓ} : {A : Type ℓ} → ℕ → Reader A → Type ℓ
Needs {A} k m =
    (bytes : List ℕ)
    → k ≤ length bytes
    → (a : A) × (rest : List ℕ) × (m bytes ≡ some (a, rest)) × (length rest + k ≡ length bytes)

pub get_bytes-Needs : (w : ℕ) → Needs w (get_bytes w)
unfolding get_bytes
get_bytes-Needs zero bytes h = ([], bytes, refl, omega arith)
get_bytes-Needs (suc w) [] h = absurd (omega arith)
get_bytes-Needs (suc w) (b ∷ bytes) h =
    let (bs, rest, e, l) = get_bytes-Needs w bytes (omega arith) in
    (b ∷ bs, rest, rw e, omega arith)

pub >>=-Needs {ℓ κ} :
    {A : Type ℓ} {B : Type κ} (j k n : ℕ) (m : Reader A) (f : A → Reader B)
    → j + k ≡ n
    → Needs j m
    → ((a : A) → Needs k (f a))
    → Needs n (m >>= f)
>>=-Needs {A} {B} j k n m f e p q bytes h = finish (p bytes (omega arith))
  where
    finish :
        (a : A) × (mid : List ℕ) × (m bytes ≡ some (a, mid)) × (length mid + j ≡ length bytes)
        → (b : B) × (rest : List ℕ) × ((m >>= f) bytes ≡ some (b, rest))
          × (length rest + n ≡ length bytes)
    finish (a, mid, em, lm) =
        let (b, rest, ef, lf) = q a mid (omega arith) in
        (b, rest, >>=_step m f bytes em ∙ ef, omega arith)

pub pure-Needs {ℓ} : {A : Type ℓ} (a : A) → Needs 0 (pure a)
pure-Needs a bytes h = (a, bytes, refl, omega arith)

pub get_le-Needs : (w : ℕ) → Needs w (get_le w)
unfolding get_le
get_le-Needs w =
    >>=-Needs w 0 w _ _ (omega arith) (get_bytes-Needs w) (λ bs. pure-Needs (from_le bs))

pub get_many-Needs {ℓ} :
    {A : Type ℓ} (count k : ℕ) (m : Reader A) → Needs k m → Needs (count * k) (get_many count m)
unfolding get_many
get_many-Needs zero k m p bytes h = ([], bytes, refl, omega arith)
get_many-Needs (suc count) k m p bytes h =
    >>=-Needs k (count * k) (suc count * k) m _ (omega arith) p
      (λ a.
        >>=-Needs (count * k) 0 (count * k) (get_many count m) _ (omega arith)
          (get_many-Needs count k m p) (λ as'. pure-Needs (a ∷ as')))
      bytes h

-- One more field of `w` bytes in front of a reader.
pub field-Needs {ℓ} :
    {A : Type ℓ} (w k n : ℕ) (f : ℕ → Reader A)
    → w + k ≡ n
    → ((a : ℕ) → Needs k (f a))
    → Needs n (get_le w >>= f)
field-Needs w k n f e q = >>=-Needs w k n (get_le w) f e (get_le-Needs w) q

pub field-Parses {ℓ} :
    {A : Type ℓ} (w n : ℕ) (f : ℕ → Reader A) (ys : List ℕ) (b : A)
    → n < 256 ^ w
    → Parses (f n) ys b
    → Parses (get_le w >>= f) (le w n ++ ys) b
field-Parses w n f ys b h q = >>=-Parses (get_le w) f (le w n) ys n b (get_le-Parses w n h) q

-- A field is read back, and the cursor moves past it.
pub get_le_step :
    (w n : ℕ) (rest : List ℕ) → n < 256 ^ w → get_le w (le w n ++ rest) ≡ some (n, rest)
get_le_step w n rest h = get_le-Parses w n h rest

pub field_step {ℓ} :
    {A : Type ℓ} (w n : ℕ) (f : ℕ → Reader A) (rest : List ℕ)
    → n < 256 ^ w
    → (get_le w >>= f) (le w n ++ rest) ≡ f n rest
field_step w n f rest h = >>=_step (get_le w) f (le w n ++ rest) (get_le_step w n rest h)
