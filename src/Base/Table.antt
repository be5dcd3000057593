-- ===== src/Base/Table.antt =====
-- `std::unordered_map` with integer keys, as an association list. The order of iteration, which C++
-- leaves open, is the order of the list.
use zero_latency_yolo.Base.{
  ℕ, ◌+◌, ◌≤◌, ◌≡◌, ◌≢◌, refl, List, [], ◌∷◌, Option, none, some, arith, ◌==◌, if◌then◌else◌,
  length, All, Bool-cases, if-cases, Bool-cases, inl, inr, subst,
}

module _ {ℓ} {V : Type ℓ} where
  unfoldable pub lookup : ℕ → List (ℕ × V) → Option V
  lookup wanted [] = none
  lookup wanted ((key, value) ∷ more) = if key == wanted then some value else lookup wanted more

  -- `m[new] = value`.
  unfoldable pub insert : ℕ → V → List (ℕ × V) → List (ℕ × V)
  insert new value [] = (new, value) ∷ []
  insert new value ((key, old) ∷ more) =
      if key == new then (new, value) ∷ more else (key, old) ∷ insert new value more

  unfoldable pub erase : ℕ → List (ℕ × V) → List (ℕ × V)
  erase k [] = []
  erase k ((j, w) ∷ m) = if j == k then m else (j, w) ∷ erase k m

  -- Each key stands once.
  abbrev pub Absent : ℕ → List (ℕ × V) → Type 0
  Absent k m = All (λ e. e.0 ≢ k) m

  abbrev pub Keys : List (ℕ × V) → Type 0
  Keys [] = Unit {0}
  Keys ((k, v) ∷ m) = Absent k m × Keys m

  pub lookup-insert :
      (new wanted : ℕ) (value : V) (table : List (ℕ × V))
      → lookup wanted (insert new value table)
        ≡ (if new == wanted then some value else lookup wanted table)
  unfolding lookup insert
  lookup-insert new wanted value [] = refl
  lookup-insert new wanted value ((key, old) ∷ more) =
      ground (arith, lookup-insert new wanted value more)

  pub lookup-Absent : (k : ℕ) (m : List (ℕ × V)) → Absent k m → lookup k m ≡ none
  unfolding lookup
  lookup-Absent k [] h = refl
  lookup-Absent k ((j, w) ∷ m) h = ground (arith, lookup-Absent k m h.1)

  pub lookup-erase :
      (k j : ℕ) (m : List (ℕ × V))
      → Keys m
      → lookup j (erase k m) ≡ (if k == j then none else lookup j m)
  unfolding lookup erase
  lookup-erase k j [] h = ground arith
  lookup-erase k j ((i, w) ∷ m) h = ground (arith, lookup-erase k j m h.1, lookup-Absent i m h.0)

  pub Absent-insert :
      (k j : ℕ) (v : V) (m : List (ℕ × V)) → k ≢ j → Absent j m → Absent j (insert k v m)
  unfolding insert
  Absent-insert k j v [] n h = (n, tt)
  Absent-insert k j v ((i, w) ∷ m) n h = ground (arith, Absent-insert k j v m n h.1)

  pub Keys-insert : (k : ℕ) (v : V) (m : List (ℕ × V)) → Keys m → Keys (insert k v m)
  unfolding insert
  Keys-insert k v [] h = (tt, tt)
  Keys-insert k v ((i, w) ∷ m) h = ground (arith, Keys-insert k v m h.1, Absent-insert k i v m)

  pub Absent-erase : (k j : ℕ) (m : List (ℕ × V)) → Absent j m → Absent j (erase k m)
  unfolding erase
  Absent-erase k j [] h = tt
  Absent-erase k j ((i, w) ∷ m) h = ground (arith, Absent-erase k j m h.1)

  pub Keys-erase : (k : ℕ) (m : List (ℕ × V)) → Keys m → Keys (erase k m)
  unfolding erase
  Keys-erase k [] h = tt
  Keys-erase k ((i, w) ∷ m) h = ground (arith, Keys-erase k m h.1, Absent-erase k i m h.0)

  -- A predicate on the entries.
  pub All-insert {κ} :
      (P : ℕ × V → Type κ) (k : ℕ) (v : V) (m : List (ℕ × V))
      → P (k, v)
      → All P m
      → All P (insert k v m)
  unfolding insert
  All-insert P k v [] p h = (p, tt)
  All-insert P k v ((i, w) ∷ m) p h =
      if-cases (All P) (i == k) (λ _. (p, h.1)) (λ _. (h.0, All-insert P k v m p h.1))

  pub All-erase {κ} : (P : ℕ × V → Type κ) (k : ℕ) (m : List (ℕ × V)) → All P m → All P (erase k m)
  unfolding erase
  All-erase P k [] h = tt
  All-erase P k ((i, w) ∷ m) h =
      if-cases (All P) (i == k) (λ _. h.1) (λ _. (h.0, All-erase P k m h.1))

  pub lookup-All {κ} :
      (P : ℕ × V → Type κ) (k : ℕ) (v : V) (m : List (ℕ × V))
      → All P m
      → lookup k m ≡ some v
      → P (k, v)
  unfolding lookup
  lookup-All P k v [] h e = cc
  lookup-All P k v ((i, w) ∷ m) h e = elim (Bool-cases (i == k)) [
    | inl hit ↦ let same : ◌≡◌ {A = ℕ × V} (i, w) (k, v) = ground arith in subst P same h.0
    | inr miss ↦ lookup-All P k v m h.1 (ground arith)
  ]

  pub length-insert_new :
      (k : ℕ) (v : V) (m : List (ℕ × V)) → Absent k m → length (insert k v m) ≡ length m + 1
  unfolding insert
  length-insert_new k v [] h = omega arith
  length-insert_new k v ((i, w) ∷ m) h = ground (arith, length-insert_new k v m h.1)

  pub length-insert_old :
      (k : ℕ) (v w : V) (m : List (ℕ × V)) → lookup k m ≡ some w → length (insert k v m) ≡ length m
  unfolding insert lookup
  length-insert_old k v w [] h = cc
  length-insert_old k v w ((i, x) ∷ m) h = ground (arith, length-insert_old k v w m)

  pub length-erase-le : (k : ℕ) (m : List (ℕ × V)) → length (erase k m) ≤ length m
  unfolding erase
  length-erase-le k [] = omega arith
  length-erase-le k ((i, w) ∷ m) = ground (arith, length-erase-le k m)

  pub length-insert-le : (k : ℕ) (v : V) (m : List (ℕ × V)) → length (insert k v m) ≤ length m + 1
  unfolding insert
  length-insert-le k v [] = omega arith
  length-insert-le k v ((i, w) ∷ m) = ground (arith, length-insert-le k v m)

  -- What holds of each entry that a lookup finds holds of all.
  pub All-lookup {κ} :
      (P : ℕ × V → Type κ) (m : List (ℕ × V))
      → Keys m
      → ((k : ℕ) (v : V) → lookup k m ≡ some v → P (k, v))
      → All P m
  unfolding lookup
  All-lookup P [] keys h = tt
  All-lookup P ((j, w) ∷ m) keys h = (
    h j w (ground arith),
    All-lookup P m keys.1 (λ k v found. h k v (elim (Bool-cases (j == k)) [
      | inl same ↦ ground (arith, same, found, lookup-Absent j m keys.0)
      | inr other ↦ ground (arith, other, found)
    ])),
  )
