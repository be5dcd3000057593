-- ===== src/Inference/Nms/Laws.antt =====
-- What `applyNMS` of src/inference/onnx_engine.cpp keeps.
use mathlib.Core.List.{Permᴰ}
use mathlib.Core.List.Permᴰ
use zero_latency_yolo.Base.{
  ℕ, ◌≤◌, ◌≡◌, refl, subst, Bool, true, false, List, [], ◌∷◌, not, ◌||◌, ◌&&◌, leb, ◌==◌, length,
  ◌⊎◌, inl, inr, arith, All, if-cases, Bool-cases,
}
use zero_latency_yolo.Base.Perms.{All-Permᴰ}
use zero_latency_yolo.Float.{Float}
use zero_latency_yolo.Protocol.{Detection}
use zero_latency_yolo.Inference.Nms.{
  calculate_iou, comes_first, remove_overlapping, suppress, unmarked, apply_nms,
}

-- Two boxes of one class that overlap by more than the threshold.
abbrev pub overlaps : Float → ℕ → Detection → Detection → Bool
overlaps fp threshold kept d =
    d.class_id == kept.class_id && fp.lt threshold (calculate_iou fp kept.box d.box)

-- No box overlaps one before it.
abbrev pub AreApart : Float → ℕ → List Detection → Type 0
AreApart fp threshold [] = Unit {0}
AreApart fp threshold (d ∷ ds) =
    All (λ e. overlaps fp threshold d e ≡ false) ds × AreApart fp threshold ds

-- No detection comes before one that stands before it.
abbrev pub InOrder : Float → List Detection → Type 0
InOrder fp [] = Unit {0}
InOrder fp (d ∷ ds) = All (λ e. comes_first fp e d ≡ false) ds × InOrder fp ds

-- A detection is among those kept, or overlaps one of them that is not less confident.
abbrev pub IsCovered : Float → ℕ → List Detection → Detection → Type 0
IsCovered fp threshold [] d = ⊥
IsCovered fp threshold (k ∷ ks) d =
    ((k ≡ d) ⊎ ((overlaps fp threshold k d ≡ true) × (fp.lt k.confidence d.confidence ≡ false)))
    ⊎ IsCovered fp threshold ks d

module _ (fp : Float) (threshold : ℕ) where
  -- Each detection is marked, or has a property.
  abbrev Marked : (Detection → Type 0) → List Detection → List Bool → Type 0
  Marked P [] marks = Unit {0}
  Marked P (d ∷ ds) [] = Unit {0}
  Marked P (d ∷ ds) (removed ∷ marks) = ((removed ≡ true) ⊎ P d) × Marked P ds marks

  Marked-keep :
      (P : Detection → Type 0) (k : Detection) (ds : List Detection) (marks : List Bool)
      → Marked P ds marks
      → Marked P ds (remove_overlapping fp threshold k ds marks)
  unfolding remove_overlapping
  Marked-keep P k [] marks h = tt
  Marked-keep P k (d ∷ ds) [] h = tt
  Marked-keep P k (d ∷ ds) (removed ∷ marks) h =
      let rest = Marked-keep P k ds marks h.1 in
      if-cases (Marked P (d ∷ ds)) (removed || not (d.class_id == k.class_id)) (λ _. (h.0, rest))
        (λ _.
          if-cases (Marked P (d ∷ ds)) (fp.lt threshold (calculate_iou fp k.box d.box))
            (λ _. (inl refl, rest)) (λ _. (h.0, rest)))

  Marked-remove_overlapping :
      (k : Detection) (ds : List Detection) (marks : List Bool)
      → Marked
          (λ d. overlaps fp threshold k d ≡ false)
          ds
          (remove_overlapping fp threshold k ds marks)
  unfolding remove_overlapping
  Marked-remove_overlapping k [] marks = tt
  Marked-remove_overlapping k (d ∷ ds) [] = tt
  Marked-remove_overlapping k (d ∷ ds) (removed ∷ marks) =
      let P = λ (e : Detection). overlaps fp threshold k e ≡ false in
      let rest = Marked-remove_overlapping k ds marks in
      if-cases (Marked P (d ∷ ds)) (removed || not (d.class_id == k.class_id))
        (λ other. (
          elim (Bool-cases removed) [
            | inl gone ↦ inl gone
            | inr stays ↦ inr (ground (arith, other, stays))
          ],
          rest,
        ))
        (λ same.
          if-cases (Marked P (d ∷ ds)) (fp.lt threshold (calculate_iou fp k.box d.box))
            (λ _. (inl refl, rest)) (λ apart. (inr (ground (arith, apart)), rest)))

  All-suppress :
      (P : Detection → Type 0) (ds : List Detection) (marks : List Bool)
      → Marked P ds marks
      → All P (suppress fp threshold ds marks)
  unfolding suppress
  All-suppress P [] marks h = tt
  All-suppress P (d ∷ ds) [] h = tt
  All-suppress P (d ∷ ds) (true ∷ marks) h = All-suppress P ds marks h.1
  All-suppress P (d ∷ ds) (false ∷ marks) (inl gone, h) = cc
  All-suppress P (d ∷ ds) (false ∷ marks) (inr p, h) = (
    p,
    All-suppress P ds (remove_overlapping fp threshold d ds marks) (Marked-keep P d ds marks h),
  )

  suppress-AreApart :
      (ds : List Detection) (marks : List Bool)
      → AreApart fp threshold (suppress fp threshold ds marks)
  unfolding suppress
  suppress-AreApart [] marks = tt
  suppress-AreApart (d ∷ ds) [] = tt
  suppress-AreApart (d ∷ ds) (true ∷ marks) = suppress-AreApart ds marks
  suppress-AreApart (d ∷ ds) (false ∷ marks) = (
    All-suppress (λ e. overlaps fp threshold d e ≡ false) ds
        (remove_overlapping fp threshold d ds marks) (Marked-remove_overlapping d ds marks),
    suppress-AreApart ds (remove_overlapping fp threshold d ds marks),
  )

  -- The inner loop marks what overlaps.
  remove_overlapping_lem :
      (k d : Detection) (ds : List Detection) (removed : Bool) (marks : List Bool)
      → remove_overlapping fp threshold k (d ∷ ds) (removed ∷ marks)
        ≡ (removed || overlaps fp threshold k d) ∷ remove_overlapping fp threshold k ds marks
  unfolding remove_overlapping
  remove_overlapping_lem k d ds removed marks = ground arith

  kept_or_marked :
      (k d : Detection) (ks : List Detection) (removed : Bool)
      → comes_first fp d k ≡ false
      → ((removed || overlaps fp threshold k d) ≡ true) ⊎ IsCovered fp threshold ks d
      → (removed ≡ true) ⊎ IsCovered fp threshold (k ∷ ks) d
  unfolding comes_first
  kept_or_marked k d ks true ordered h = inl refl
  kept_or_marked k d ks false ordered (inl hit) =
      inr (inl (inr (hit, ground (arith, ordered, hit))))
  kept_or_marked k d ks false ordered (inr covered) = inr (inr covered)

  Marked-cover :
      (k : Detection) (ks ds : List Detection) (marks : List Bool)
      → All (λ e. comes_first fp e k ≡ false) ds
      → Marked (IsCovered fp threshold ks) ds (remove_overlapping fp threshold k ds marks)
      → Marked (IsCovered fp threshold (k ∷ ks)) ds marks
  Marked-cover k ks [] marks ordered h = tt
  Marked-cover k ks (d ∷ ds) [] ordered h = tt
  Marked-cover k ks (d ∷ ds) (removed ∷ marks) ordered h =
      let h' =
        subst (Marked (IsCovered fp threshold ks) (d ∷ ds))
          (remove_overlapping_lem k d ds removed marks) h in
      (kept_or_marked k d ks removed ordered.0 h'.0, Marked-cover k ks ds marks ordered.1 h'.1)

  suppress-covers :
      (ds : List Detection) (marks : List Bool)
      → InOrder fp ds
      → Marked (IsCovered fp threshold (suppress fp threshold ds marks)) ds marks
  unfolding suppress
  suppress-covers [] marks ordered = tt
  suppress-covers (d ∷ ds) [] ordered = tt
  suppress-covers (d ∷ ds) (true ∷ marks) ordered = (inl refl, suppress-covers ds marks ordered.1)
  suppress-covers (d ∷ ds) (false ∷ marks) ordered =
      let rest = remove_overlapping fp threshold d ds marks in
      (
        inr (inl (inl refl)),
        Marked-cover d (suppress fp threshold ds rest) ds marks ordered.0
            (suppress-covers ds rest ordered.1),
      )

  All-unmarked :
      (P : Detection → Type 0) (ds : List Detection) → Marked P ds (unmarked ds) → All P ds
  unfolding unmarked
  All-unmarked P [] h = tt
  All-unmarked P (d ∷ ds) (inl gone, h) = cc
  All-unmarked P (d ∷ ds) (inr p, h) = (p, All-unmarked P ds h)

  Marked-All : (P : Detection → Type 0) (ds : List Detection) → All P ds → Marked P ds (unmarked ds)
  unfolding unmarked
  Marked-All P [] h = tt
  Marked-All P (d ∷ ds) h = (inr h.0, Marked-All P ds h.1)

IsCovered-here :
    (fp : Float) (threshold : ℕ) (ds : List Detection)
    → length ds ≤ 1
    → AreApart fp threshold ds × All (IsCovered fp threshold ds) ds
IsCovered-here fp threshold [] h = (tt, tt)
IsCovered-here fp threshold (d ∷ []) h = ((tt, tt), (inl (inl refl), tt))
IsCovered-here fp threshold (d ∷ e ∷ ds) h = ground (arith, h)

-- What applyNMS returns holds no two detections of one class of which the later overlaps the earlier
-- by more than the threshold; each detection given is among those returned or overlaps one of its
-- class there by more than the threshold, and that one is not less confident. Whatever holds of all
-- detections given holds of all returned. This is where std::sort has permuted these detections into
-- an order in which none comes before one that stands before it.
pub apply_nms_lem :
    (fp : Float) (sort : List Detection → List Detection) (ds : List Detection) (threshold : ℕ)
    (P : Detection → Type 0)
    → Permᴰ (sort ds) ds
    → InOrder fp (sort ds)
    → All P ds
    → AreApart fp threshold (apply_nms fp sort ds threshold)
      × All (IsCovered fp threshold (apply_nms fp sort ds threshold)) ds
      × All P (apply_nms fp sort ds threshold)
unfolding apply_nms
apply_nms_lem fp sort ds threshold P permuted ordered each =
    if-cases (λ r. AreApart fp threshold r × All (IsCovered fp threshold r) ds × All P r)
      (leb (length ds) 1)
      (λ short.
        let (apart, covered) = IsCovered-here fp threshold ds (ground (arith, short)) in
        (apart, covered, each))
      (λ _.
        let marks = unmarked (sort ds) in
        let kept = suppress fp threshold (sort ds) marks in
        (
          suppress-AreApart fp threshold (sort ds) marks,
          All-Permᴰ (IsCovered fp threshold kept) permuted (
              All-unmarked fp threshold (IsCovered fp threshold kept) (sort ds)
                (suppress-covers fp threshold (sort ds) marks ordered)),
          All-suppress fp threshold P (sort ds) marks
              (Marked-All fp threshold P (sort ds) (All-Permᴰ P (Permᴰ.symm permuted) each)),
        ))
