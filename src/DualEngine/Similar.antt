-- ===== src/DualEngine/Similar.antt =====
-- The similar pairs that `findBestMatches` of src/client/dual_engine.cpp collects are all there are.
use zero_latency_yolo.Base.{
  ℕ, zero, suc, ◌+◌, ◌≡◌, refl, sym, subst, true, List, [], ◌∷◌, ◌++◌, some, arith, All, All-append,
  get_elem?, Bool, false, if◌then◌else◌,
}
use zero_latency_yolo.Float.{Float}
use zero_latency_yolo.Protocol.{Detection}
use zero_latency_yolo.DualEngine.{calculate_similarity, similar_to, similarities}

-- Similar by more than 0.3.
abbrev pub AreSimilar : Float → Detection → Detection → Type 0
AreSimilar fp d e = fp.lt 1050253722 (calculate_similarity fp d e) ≡ true

-- A pair of indices of detections that are similar by more than 0.3.
abbrev pub IsSimilar : Float → List Detection → List Detection → ℕ × ℕ → Type 0
IsSimilar fp ds es (i, j) =
    (d : Detection) × (e : Detection) × (get_elem? ds i ≡ some d)
    × (get_elem? es j ≡ some e)
    × AreSimilar fp d e

module _ {A : Type 0} (P : A → Type 0) where
  first_part : (xs ys : List A) → All P (xs ++ ys) → All P xs
  first_part [] ys h = tt
  first_part (x ∷ xs) ys h = (h.0, first_part xs ys h.1)

  second_part : (xs ys : List A) → All P (xs ++ ys) → All P ys
  second_part [] ys h = h
  second_part (x ∷ xs) ys h = second_part xs ys h.1

  -- What an element that is put in front under a test leaves to be said.
  tail_of : (b : Bool) (x : A) (xs : List A) → All P (if b then x ∷ xs else xs) → All P xs
  tail_of true x xs h = h.1
  tail_of false x xs h = h

  head_of : (b : Bool) (x : A) (xs : List A) → b ≡ true → All P (if b then x ∷ xs else xs) → P x
  head_of true x xs e h = h.0
  head_of false x xs e h = ground (arith, e)

  All-put :
      (b : Bool) (x : A) (xs : List A)
      → (b ≡ true → P x)
      → All P xs
      → All P (if b then x ∷ xs else xs)
  All-put true x xs h hs = (h refl, hs)
  All-put false x xs h hs = hs

module _ (fp : Float) (P : ℕ × ℕ × ℕ → Type 0) where
  similar_to-complete :
      (i : ℕ) (d e : Detection) (j k : ℕ) (es : List Detection)
      → get_elem? es k ≡ some e
      → AreSimilar fp d e
      → All P (similar_to fp i d j es)
      → P (calculate_similarity fp d e, i, j + k)
  unfolding similar_to
  similar_to-complete i d e j k [] found similar h = ground (arith, found)
  similar_to-complete i d e j zero (x ∷ es) found similar h =
      let same : x ≡ e = ground (arith, found) in
      let here =
        head_of P (fp.lt 1050253722 (calculate_similarity fp d x))
          (calculate_similarity fp d x, i, j) (similar_to fp i d (j + 1) es)
          (subst (AreSimilar fp d) (sym same) similar) h in
      let moved : j ≡ j + 0 = omega arith in
      subst (λ n. P (calculate_similarity fp d e, i, n)) moved
        (subst (λ y. P (calculate_similarity fp d y, i, j)) same here)
  similar_to-complete i d e j (suc k) (x ∷ es) found similar h =
      let rest =
        tail_of P (fp.lt 1050253722 (calculate_similarity fp d x))
          (calculate_similarity fp d x, i, j) (similar_to fp i d (j + 1) es) h in
      let moved : j + 1 + k ≡ j + suc k = omega arith in
      subst (λ n. P (calculate_similarity fp d e, i, n)) moved
        (similar_to-complete i d e (j + 1) k es found similar rest)

  -- What holds of all pairs that are collected holds of each pair of similar detections.
  pub similarities-complete :
      (n i j : ℕ) (ds es : List Detection) (d e : Detection)
      → get_elem? ds i ≡ some d
      → get_elem? es j ≡ some e
      → AreSimilar fp d e
      → All P (similarities fp n ds es)
      → P (calculate_similarity fp d e, n + i, j)
  unfolding similarities
  similarities-complete n i j [] es d e found there similar h = ground (arith, found)
  similarities-complete n zero j (x ∷ ds) es d e found there similar h =
      let same : x ≡ d = ground (arith, found) in
      let here = first_part P (similar_to fp n x 0 es) (similarities fp (n + 1) ds es) h in
      let moved : n ≡ n + 0 = omega arith in
      let at_start : 0 + j ≡ j = omega arith in
      subst (λ m. P (calculate_similarity fp d e, m, j)) moved
        (subst (λ y. P (calculate_similarity fp y e, n, j)) same
          (subst (λ k. P (calculate_similarity fp x e, n, k)) at_start
            (similar_to-complete n x e 0 j es there
              (subst (λ y. AreSimilar fp y e) (sym same) similar) here)))
  similarities-complete n (suc i) j (x ∷ ds) es d e found there similar h =
      let rest = second_part P (similar_to fp n x 0 es) (similarities fp (n + 1) ds es) h in
      let moved : n + 1 + i ≡ n + suc i = omega arith in
      subst (λ m. P (calculate_similarity fp d e, m, j)) moved
        (similarities-complete (n + 1) i j ds es d e found there similar rest)

  similar_to-sound :
      (i : ℕ) (d : Detection) (j : ℕ) (es : List Detection)
      → ((k : ℕ) (e : Detection)
          → get_elem? es k ≡ some e
          → AreSimilar fp d e
          → P (calculate_similarity fp d e, i, j + k))
      → All P (similar_to fp i d j es)
  unfolding similar_to
  similar_to-sound i d j [] all = tt
  similar_to-sound i d j (x ∷ es) all =
      All-put P (fp.lt 1050253722 (calculate_similarity fp d x)) (calculate_similarity fp d x, i, j)
        (similar_to fp i d (j + 1) es)
        (λ similar.
          let moved : j + 0 ≡ j = omega arith in
          subst (λ n. P (calculate_similarity fp d x, i, n)) moved (all 0 x refl similar))
        (similar_to-sound i d (j + 1) es (λ k e found similar.
          let moved : j + suc k ≡ j + 1 + k = omega arith in
          subst (λ n. P (calculate_similarity fp d e, i, n)) moved (all (suc k) e found similar)))

  -- What holds of each pair of similar detections holds of all pairs that are collected.
  pub similarities-sound :
      (n : ℕ) (ds es : List Detection)
      → ((i j : ℕ) (d e : Detection)
          → get_elem? ds i ≡ some d
          → get_elem? es j ≡ some e
          → AreSimilar fp d e
          → P (calculate_similarity fp d e, n + i, j))
      → All P (similarities fp n ds es)
  unfolding similarities
  similarities-sound n [] es all = tt
  similarities-sound n (x ∷ ds) es all =
      All-append P (similar_to fp n x 0 es) (similarities fp (n + 1) ds es)
        (similar_to-sound n x 0 es (λ k e found similar.
          let moved : n + 0 ≡ n = omega arith in
          let at_start : k ≡ 0 + k = omega arith in
          subst (λ k'. P (calculate_similarity fp x e, n, k')) at_start
            (subst (λ m. P (calculate_similarity fp x e, m, k)) moved
              (all 0 k x e refl found similar))))
        (similarities-sound (n + 1) ds es (λ i j d e found there similar.
          let moved : n + suc i ≡ n + 1 + i = omega arith in
          subst (λ m. P (calculate_similarity fp d e, m, j)) moved
            (all (suc i) j d e found there similar)))
