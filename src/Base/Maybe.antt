-- ===== src/Base/Maybe.antt =====
-- Chains of results that may be missing.
use zero_latency_yolo.Base.{
  ℕ, zero, suc, ◌<◌, ◌≡◌, refl, List, [], ◌∷◌, Option, none, some, get_elem?, length, arith,
}

infixl 5 ◌>>=◌
abbrev pub ◌>>=◌ {ℓ κ} : {A : Type ℓ} {B : Type κ} → Option A → (A → Option B) → Option B
none >>= f = none
some a >>= f = f a

-- There is a result, and it has a property.
abbrev pub Gives {ℓ} : {A : Type ℓ} → (A → Type 0) → Option A → Type 0
Gives P none = ⊥
Gives P (some a) = P a

pub Gives->>= {ℓ κ} :
    {A : Type ℓ} {B : Type κ} (Q : A → Type 0) (P : B → Type 0) (o : Option A) (f : A → Option B)
    → Gives Q o
    → ((a : A) → Q a → Gives P (f a))
    → Gives P (o >>= f)
Gives->>= Q P none f q h = elim q [ ]
Gives->>= Q P (some a) f q h = h a q

pub Gives-some {ℓ} :
    {A : Type ℓ} (P : A → Type 0) (o : Option A) → Gives P o → (a : A) × (o ≡ some a) × P a
Gives-some P none h = elim h [ ]
Gives-some P (some a) h = (a, refl, h)

pub get_elem?-Gives {ℓ} :
    {A : Type ℓ} (xs : List A) (i : ℕ) → i < length xs → Gives (λ _. Unit {0}) (get_elem? xs i)
get_elem?-Gives [] i h = omega (arith, h)
get_elem?-Gives (x ∷ xs) zero h = tt
get_elem?-Gives (x ∷ xs) (suc i) h = get_elem?-Gives xs i (omega (arith, h))
