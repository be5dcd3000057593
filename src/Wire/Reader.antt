-- ===== src/Wire/Reader.antt =====
-- Reading through a cursor, `data + offset`: what is left of the buffer is the state, and a read
-- past its end, which C++ leaves undefined, is `none`.
use zero_latency_yolo.Base.{ℕ, zero, suc, List, [], ◌∷◌, Option, none, some}
use zero_latency_yolo.Wire.{from_le}

abbrev pub Reader {ℓ} : Type ℓ → Type ℓ
Reader A = List ℕ → Option (A × List ℕ)

infixl 5 ◌>>=◌
abbrev pub ◌>>=◌ {ℓ κ} : {A : Type ℓ} {B : Type κ} → Reader A → (A → Reader B) → Reader B
◌>>=◌ m f bytes = elim (m bytes) [ none ↦ none | some (a, rest) ↦ f a rest ]

abbrev pub pure {ℓ} : {A : Type ℓ} → A → Reader A
pure a bytes = some (a, bytes)

-- `std::memcpy(dst, data + offset, w)`.
unfoldable pub get_bytes : ℕ → Reader (List ℕ)
get_bytes zero bytes = some ([], bytes)
get_bytes (suc w) [] = none
get_bytes (suc w) (b ∷ bytes) = elim (get_bytes w bytes) [
  | none ↦ none
  | some (bs, rest) ↦ some (b ∷ bs, rest)
]

-- The same into an unsigned integer of `w` bytes.
unfoldable pub get_le : ℕ → Reader ℕ
get_le w = do bs ← get_bytes w; pure (from_le bs)

-- `for (i = 0; i < count; i++)` over elements of one type.
unfoldable pub get_many {ℓ} : {A : Type ℓ} → ℕ → Reader A → Reader (List A)
get_many zero m = pure []
get_many (suc count) m = do a ← m; as' ← get_many count m; pure (a ∷ as')
