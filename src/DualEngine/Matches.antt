-- ===== src/DualEngine/Matches.antt =====
-- That `findBestMatches` of src/client/dual_engine.cpp uses no detection twice and misses no pair.
use mathlib.Core.List.{Permᴰ}
use mathlib.Core.List.Permᴰ
use zero_latency_yolo.Base.{
  ℕ, ◌+◌, subst, ◌≡◌, ◌≢◌, refl, true, false, List, [], ◌∷◌, arith, some, get_elem?, length, All,
  ◌⊎◌, inl, inr, if-cases, Bool-cases, ◌==◌, ◌||◌,
}
use zero_latency_yolo.Base.Perms.{All-Permᴰ}
use zero_latency_yolo.Float.{Float}
use zero_latency_yolo.Protocol.{Detection}
use zero_latency_yolo.Udp.Server.Sweep.{member}
use zero_latency_yolo.DualEngine.{calculate_similarity, similarities, choose, find_best_matches}
use zero_latency_yolo.DualEngine.Similar.{
  AreSimilar, IsSimilar, similarities-sound, similarities-complete,
}

-- Two pairs have no index in common.
abbrev pub AreApart : ℕ × ℕ → ℕ × ℕ → Type 0
AreApart (i, j) (k, l) = (i ≢ k) × (j ≢ l)

-- No two pairs have an index in common.
abbrev pub AreMatches : List (ℕ × ℕ) → Type 0
AreMatches [] = Unit {0}
AreMatches (p ∷ ps) = All (AreApart p) ps × AreMatches ps

-- A pair shares an index with one of a list.
abbrev pub IsBlocked : List (ℕ × ℕ) → ℕ × ℕ × ℕ → Type 0
IsBlocked [] c = ⊥
IsBlocked ((k, l) ∷ ps) (s, i, j) = ((k ≡ i) ⊎ (l ≡ j)) ⊎ IsBlocked ps (s, i, j)

-- A pair has no index that is used.
abbrev IsFree : List ℕ → List ℕ → ℕ × ℕ → Type 0
IsFree us ul (i, j) = (member i us ≡ false) × (member j ul ≡ false)

choose-IsFree : (cs : List (ℕ × ℕ × ℕ)) (us ul : List ℕ) → All (IsFree us ul) (choose cs us ul)
unfolding choose
choose-IsFree [] us ul = tt
choose-IsFree ((s, i, j) ∷ cs) us ul =
    if-cases (All (IsFree us ul)) (member i us || member j ul) (λ _. choose-IsFree cs us ul)
      (λ free. (
        (ground (arith, free), ground (arith, free)),
        freed i j us ul (choose cs (i ∷ us) (j ∷ ul)) (choose-IsFree cs (i ∷ us) (j ∷ ul)),
      ))
  where
    freed :
        (k l : ℕ) (vs vl : List ℕ) (ps : List (ℕ × ℕ))
        → All (IsFree (k ∷ vs) (l ∷ vl)) ps
        → All (IsFree vs vl) ps
    freed k l vs vl [] h = tt
    freed k l vs vl (p ∷ ps) h =
        ((ground (arith, h.0.0), ground (arith, h.0.1)), freed k l vs vl ps h.1)

apart :
    (i j : ℕ) (us ul : List ℕ) (ps : List (ℕ × ℕ))
    → All (IsFree (i ∷ us) (j ∷ ul)) ps
    → All (AreApart (i, j)) ps
apart i j us ul [] h = tt
apart i j us ul (p ∷ ps) h =
    ((ground (arith, h.0.0), ground (arith, h.0.1)), apart i j us ul ps h.1)

choose-AreMatches : (cs : List (ℕ × ℕ × ℕ)) (us ul : List ℕ) → AreMatches (choose cs us ul)
unfolding choose
choose-AreMatches [] us ul = tt
choose-AreMatches ((s, i, j) ∷ cs) us ul =
    if-cases AreMatches (member i us || member j ul) (λ _. choose-AreMatches cs us ul)
      (λ _. (
        apart i j us ul (choose cs (i ∷ us) (j ∷ ul)) (choose-IsFree cs (i ∷ us) (j ∷ ul)),
        choose-AreMatches cs (i ∷ us) (j ∷ ul),
      ))

-- A pair has an index that is used, or is blocked.
abbrev IsTaken : List ℕ → List ℕ → List (ℕ × ℕ) → ℕ × ℕ × ℕ → Type 0
IsTaken us ul ps (s, i, j) = ((member i us || member j ul) ≡ true) ⊎ IsBlocked ps (s, i, j)

carried :
    (i j : ℕ) (us ul : List ℕ) (ps : List (ℕ × ℕ)) (cs : List (ℕ × ℕ × ℕ))
    → All (IsTaken (i ∷ us) (j ∷ ul) ps) cs
    → All (IsTaken us ul ((i, j) ∷ ps)) cs
carried i j us ul ps [] h = tt
carried i j us ul ps ((s, k, l) ∷ cs) h = (carried_one h.0, carried i j us ul ps cs h.1)
  where
    carried_one : IsTaken (i ∷ us) (j ∷ ul) ps (s, k, l) → IsTaken us ul ((i, j) ∷ ps) (s, k, l)
    carried_one (inr blocked) = inr (inr blocked)
    carried_one (inl used) = elim (Bool-cases (member k us || member l ul)) [
      | inl before ↦ inl before
      | inr now ↦ elim (Bool-cases (i == k)) [
        | inl same ↦ inr (inl (inl (ground (arith, same))))
        | inr other ↦ inr (inl (inr (ground (arith, other, used, now))))
      ]
    ]

choose-IsTaken : (cs : List (ℕ × ℕ × ℕ)) (us ul : List ℕ) → All (IsTaken us ul (choose cs us ul)) cs
unfolding choose
choose-IsTaken [] us ul = tt
choose-IsTaken ((s, i, j) ∷ cs) us ul =
    if-cases (λ ps. All (IsTaken us ul ps) ((s, i, j) ∷ cs)) (member i us || member j ul)
      (λ used. (inl used, choose-IsTaken cs us ul))
      (λ _. (
        inr (inl (inl refl)),
        carried i j us ul (choose cs (i ∷ us) (j ∷ ul)) cs (choose-IsTaken cs (i ∷ us) (j ∷ ul)),
      ))

-- What holds of the indices of all pairs holds of those that are chosen.
All-choose :
    (Q : ℕ × ℕ → Type 0) (cs : List (ℕ × ℕ × ℕ)) (us ul : List ℕ)
    → All (λ c. Q (c.1, c.2)) cs
    → All Q (choose cs us ul)
unfolding choose
All-choose Q [] us ul h = tt
All-choose Q ((s, i, j) ∷ cs) us ul h =
    if-cases (All Q) (member i us || member j ul) (λ _. All-choose Q cs us ul h.1)
      (λ _. (h.0, All-choose Q cs (i ∷ us) (j ∷ ul) h.1))

blocked :
    (r : List (ℕ × ℕ)) (cs : List (ℕ × ℕ × ℕ)) → All (IsTaken [] [] r) cs → All (IsBlocked r) cs
blocked r [] h = tt
blocked r (c ∷ cs) (inl used, h) = let no : ⊥ = ground (arith, used) in elim no [ ]
blocked r (c ∷ cs) (inr b, h) = (b, blocked r cs h)

-- Where std::sort permutes: of the matches that findBestMatches returns no two have the index of a
-- server detection or of a local prediction in common; each is a pair whose similarity is above 0.3;
-- and each pair whose similarity is above 0.3 has an index in common with one of them.
pub find_best_matches_lem :
    (fp : Float) (sort : List (ℕ × ℕ × ℕ) → List (ℕ × ℕ × ℕ))
    (server_detections local_predictions : List Detection)
    → ((cs : List (ℕ × ℕ × ℕ)) → Permᴰ (sort cs) cs)
    → let matches = find_best_matches fp sort server_detections local_predictions in
      AreMatches matches
      × All (IsSimilar fp server_detections local_predictions) matches
      × ((i j : ℕ) (d e : Detection)
          → get_elem? server_detections i ≡ some d
          → get_elem? local_predictions j ≡ some e
          → AreSimilar fp d e
          → IsBlocked matches (calculate_similarity fp d e, i, j))
unfolding find_best_matches
find_best_matches_lem fp sort ds ps permutes =
    let cs = similarities fp 0 ds ps in
    let P : List (ℕ × ℕ) → Type 0 = λ r.
      AreMatches r
      × All (IsSimilar fp ds ps) r
      × ((i j : ℕ) (d e : Detection)
          → get_elem? ds i ≡ some d
          → get_elem? ps j ≡ some e
          → AreSimilar fp d e
          → IsBlocked r (calculate_similarity fp d e, i, j)) in
    if-cases P (length ds == 0 || length ps == 0)
      (λ empty. (
        tt,
        tt,
        (λ i j d e found there similar.
            let no : ⊥ = none_there ds ps i j d e empty found there in elim no [ ]),
      ))
      (λ _. (
        choose-AreMatches (sort cs) [] [],
        All-choose (IsSimilar fp ds ps) (sort cs) [] [] (
            All-Permᴰ (λ c. IsSimilar fp ds ps (c.1, c.2)) (Permᴰ.symm (permutes cs))
              (similarities-sound fp (λ c. IsSimilar fp ds ps (c.1, c.2)) 0 ds ps
                (λ i j d e found there similar.
                  let from_start : i ≡ 0 + i = omega arith in
                  subst (λ k. IsSimilar fp ds ps (k, j)) from_start
                    (d, e, found, there, similar)))),
        (λ i j d e found there similar.
            let from_start : 0 + i ≡ i = omega arith in
            subst (λ k. IsBlocked (choose (sort cs) [] []) (calculate_similarity fp d e, k, j))
              from_start
              (similarities-complete fp (IsBlocked (choose (sort cs) [] [])) 0 i j ds ps d e found
                there similar
                (All-Permᴰ (IsBlocked (choose (sort cs) [] [])) (permutes cs)
                  (blocked (choose (sort cs) [] []) (sort cs) (choose-IsTaken (sort cs) [] []))))),
      ))
  where
    none_there :
        (ds ps : List Detection) (i j : ℕ) (d e : Detection)
        → (length ds == 0 || length ps == 0) ≡ true
        → get_elem? ds i ≡ some d
        → get_elem? ps j ≡ some e
        → ⊥
    none_there [] ps i j d e empty found there = ground (arith, found)
    none_there (x ∷ ds) [] i j d e empty found there = ground (arith, there)
    none_there (x ∷ ds) (y ∷ ps) i j d e empty found there = ground (arith, empty)
