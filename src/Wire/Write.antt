-- ===== src/Wire/Write.antt =====
-- Growing a buffer and copying fields into the new space appends them.
use zero_latency_yolo.Base.{
  ℕ, zero, suc, ◌+◌, ◌-◌, ◌≡◌, refl, List, [], ◌∷◌, ◌++◌, arith, length, take, drop, replicate,
  append_assoc, ap, length-append, length-replicate,
}
use zero_latency_yolo.Wire.{resize, write_at, write_fields, joined}

pub take-length-append {ℓ} : {A : Type ℓ} (xs ys : List A) → take (length xs) (xs ++ ys) ≡ xs
take-length-append [] ys = refl
take-length-append (x ∷ xs) ys = ap (◌∷◌ x) (take-length-append xs ys)

pub drop-length-append {ℓ} : {A : Type ℓ} (xs ys : List A) → drop (length xs) (xs ++ ys) ≡ ys
drop-length-append [] ys = refl
drop-length-append (x ∷ xs) ys = drop-length-append xs ys

take_long {ℓ} : {A : Type ℓ} (xs : List A) (k : ℕ) → take (length xs + k) xs ≡ xs
take_long [] zero = refl
take_long [] (suc k) = let e : 0 + suc k ≡ suc k = omega arith in rw e
take_long (x ∷ xs) k =
    let e : suc (length xs) + k ≡ suc (length xs + k) = omega arith in rw (e, take_long xs k)

-- A copy over bytes of the same number replaces them.
pub write_at_lem :
    (xs old src ys : List ℕ)
    → length old ≡ length src
    → write_at (length xs) src (xs ++ (old ++ ys)) ≡ xs ++ (src ++ ys)
unfolding write_at
write_at_lem xs old src ys e = rw (take-length-append xs (old ++ ys), after)
  where
    after : drop (length xs + length src) (xs ++ (old ++ ys)) ≡ ys
    after =
        let e' : length xs + length src ≡ length (xs ++ old) =
          omega (arith, length-append xs old) in
        rw (e', ← append_assoc) (drop-length-append (xs ++ old) ys)

replicate_split : (m n k : ℕ) → m + n ≡ k → replicate {A = ℕ} k 0 ≡ replicate m 0 ++ replicate n 0
replicate_split zero n k e = let e' : k ≡ n = omega arith in rw e'
replicate_split (suc m) n zero e = absurd (omega arith)
replicate_split (suc m) n (suc k) e = ap (◌∷◌ 0) (replicate_split m n k (omega arith))

write_fields_room :
    (xs : List ℕ) (fields : List (List ℕ)) (room : ℕ)
    → length (joined fields) ≡ room
    → write_fields (xs ++ replicate room 0) (length xs) fields ≡ xs ++ joined fields
unfolding write_fields
write_fields_room xs [] room e = let e' : room ≡ 0 = omega arith in rw e'
write_fields_room xs (f ∷ fs) room e = rw (
  replicate_split (length f) (length (joined fs)) room
      (omega (arith, length-append f (joined fs), e)),
  write_at_lem xs (replicate (length f) 0) f (replicate (length (joined fs)) 0)
      (length-replicate (length f) 0),
  ← append_assoc xs f (replicate (length (joined fs)) 0),
  ← length-append xs f,
  write_fields_room (xs ++ f) fs (length (joined fs)) refl,
  append_assoc xs f (joined fs),
)

resize_grow :
    (extra : ℕ) (buffer : List ℕ)
    → resize (length buffer + extra) buffer ≡ buffer ++ replicate extra 0
unfolding resize
resize_grow extra buffer = rw (take_long buffer extra, rest)
  where
    rest : length buffer + extra - length buffer ≡ extra
    rest = omega arith

-- Resizing by the fields' total size and copying them in is appending them.
pub write_fields_lem :
    (buffer : List ℕ) (fields : List (List ℕ)) (size : ℕ)
    → length (joined fields) ≡ size
    → write_fields (resize (length buffer + size) buffer) (length buffer) fields
      ≡ buffer ++ joined fields
write_fields_lem buffer fields size e =
    rw (resize_grow size buffer) (write_fields_room buffer fields size e)
