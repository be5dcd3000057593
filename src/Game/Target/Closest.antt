-- ===== src/Game/Target/Closest.antt =====
-- That `calculateBestTarget` of the game adapters finds the closest target.
use zero_latency_yolo.Base.{
  ℕ, zero, suc, ◌+◌, ◌≡◌, refl, true, false, not, ◌&&◌, List, [], ◌∷◌, Option, none, some, arith,
  All, if-cases, subst, ◌⊎◌, inl, inr,
}
use zero_latency_yolo.Float.{Float, IsOrdered}
use zero_latency_yolo.Protocol.{Detection}
use zero_latency_yolo.Udp.Server.{success}
use zero_latency_yolo.Game.{GameAdapter}
use zero_latency_yolo.Game.Target.{
  is_target, target_distance, best_of, calculate_best_target, max_float,
}

abbrev pub at : List Detection → ℕ → Option Detection
at [] i = none
at (d ∷ ds) zero = some d
at (d ∷ ds) (suc i) = at ds i

-- No target is closer than a distance.
abbrev pub NoneCloser : Float → ℕ → List Detection → Type 0
NoneCloser fp bound = All (λ d. (is_target d && fp.lt (target_distance fp d) bound) ≡ false)

-- The detection at an index is a target within the bound, and none is closer.
pub record IsClosest (fp : Float) (bound : ℕ) (ds : List Detection) (i : ℕ) : Type 0 where
  pub detection : Detection
  pub there : at ds i ≡ some detection
  pub target : is_target detection ≡ true
  pub within : fp.lt (target_distance fp detection) bound ≡ true
  pub none_closer : NoneCloser fp (target_distance fp detection) ds

-- Adding a detection in front that is no closer.
after_skip :
    (fp : Float) (laws : IsOrdered fp) (d : Detection) (ds : List Detection) (bound k : ℕ)
    → (is_target d && fp.lt (target_distance fp d) bound) ≡ false
    → IsClosest fp bound ds k
    → IsClosest fp bound (d ∷ ds) (suc k)
after_skip fp laws d ds bound k skipped c = record {
  detection = c.detection;
  there = c.there;
  target = c.target;
  within = c.within;
  none_closer = (
    ground (
      arith,
      skipped,
      c.within,
      laws.lt_trans (target_distance fp d) (target_distance fp c.detection) bound,
    ),
    c.none_closer,
  );
}

after_take :
    (fp : Float) (laws : IsOrdered fp) (d : Detection) (ds : List Detection) (bound k : ℕ)
    → fp.lt (target_distance fp d) bound ≡ true
    → IsClosest fp (target_distance fp d) ds k
    → IsClosest fp bound (d ∷ ds) (suc k)
after_take fp laws d ds bound k close c = record {
  detection = c.detection;
  there = c.there;
  target = c.target;
  within =
      laws.lt_trans (target_distance fp c.detection) (target_distance fp d) bound c.within close;
  none_closer = (
    ground (
      arith,
      c.within,
      laws.lt_trans (target_distance fp d) (target_distance fp c.detection) (target_distance fp d),
      laws.lt_irrefl (target_distance fp d),
    ),
    c.none_closer,
  );
}

-- What the loop comes to: what it has, with nothing closer in the rest, or the closest of the rest.
abbrev Found : Float → List Detection → ℕ → Option ℕ → ℕ → Option ℕ → Type 0
Found fp ds i best bound r =
    ((r ≡ best) × NoneCloser fp bound ds) ⊎ ((k : ℕ) × (r ≡ some (i + k)) × IsClosest fp bound ds k)

skipped_lem :
    (fp : Float) (laws : IsOrdered fp) (d : Detection) (ds : List Detection) (i : ℕ)
    (best : Option ℕ) (bound : ℕ) (r : Option ℕ)
    → (is_target d && fp.lt (target_distance fp d) bound) ≡ false
    → Found fp ds (i + 1) best bound r
    → Found fp (d ∷ ds) i best bound r
skipped_lem fp laws d ds i best bound r skipped (inl (kept, none_closer)) =
    inl (kept, (skipped, none_closer))
skipped_lem fp laws d ds i best bound r skipped (inr (k, found, closest)) =
    inr (suc k, ground (arith, found), after_skip fp laws d ds bound k skipped closest)

taken_lem :
    (fp : Float) (laws : IsOrdered fp) (d : Detection) (ds : List Detection) (i : ℕ)
    (best : Option ℕ) (bound : ℕ) (r : Option ℕ)
    → is_target d ≡ true
    → fp.lt (target_distance fp d) bound ≡ true
    → Found fp ds (i + 1) (some i) (target_distance fp d) r
    → Found fp (d ∷ ds) i best bound r
taken_lem fp laws d ds i best bound r aimed close (inl (kept, none_closer)) = inr (
  0,
  ground (arith, kept),
  record {
    detection = d;
    there = refl;
    target = aimed;
    within = close;
    none_closer = (ground (arith, laws.lt_irrefl (target_distance fp d)), none_closer);
  },
)
taken_lem fp laws d ds i best bound r aimed close (inr (k, found, closest)) =
    inr (suc k, ground (arith, found), after_take fp laws d ds bound k close closest)

best_of_lem :
    (fp : Float) (laws : IsOrdered fp) (ds : List Detection) (i : ℕ) (best : Option ℕ) (bound : ℕ)
    → Found fp ds i best bound (best_of fp ds i best bound)
unfolding best_of
best_of_lem fp laws [] i best bound = inl (refl, tt)
best_of_lem fp laws (d ∷ ds) i best bound =
    let skipped = best_of_lem fp laws ds (i + 1) best bound in
    let taken = best_of_lem fp laws ds (i + 1) (some i) (target_distance fp d) in
    if-cases (Found fp (d ∷ ds) i best bound) (not (is_target d))
      (λ other. skipped_lem fp laws d ds i best bound _ (ground (arith, other)) skipped)
      (λ aimed.
        if-cases (Found fp (d ∷ ds) i best bound) (fp.lt (target_distance fp d) bound)
          (λ close. taken_lem fp laws d ds i best bound _ (ground (arith, aimed)) close taken)
          (λ far. skipped_lem fp laws d ds i best bound _ (ground (arith, far)) skipped))

-- What is returned: the index of a closest target, or none where nothing is within the bound.
abbrev pub IsBest : Float → List Detection → Option ℕ → Type 0
IsBest fp ds none = NoneCloser fp max_float ds
IsBest fp ds (some i) = IsClosest fp max_float ds i

best :
    (fp : Float) (ds : List Detection) (r : Option ℕ)
    → Found fp ds 0 none max_float r
    → IsBest fp ds r
best fp ds none (inl (kept, none_closer)) = none_closer
best fp ds none (inr (k, found, closest)) = cc
best fp ds (some i) (inl (kept, none_closer)) = cc
best fp ds (some i) (inr (k, found, closest)) =
    let same : k ≡ i = ground (arith, found) in subst (IsClosest fp max_float ds) same closest

-- On an initialised adapter calculateBestTarget returns the index of a detection that is a target
-- closer than the largest finite float, such that no target is closer, or no index, and then no
-- target is closer than the largest finite float, where < is transitive and irreflexive.
pub calculate_best_target-IsBest :
    (fp : Float) (laws : IsOrdered fp) (s : GameAdapter) (ds : List Detection)
    → s.initialized ≡ true
    → (r : Option ℕ) × (calculate_best_target fp s ds ≡ success r) × IsBest fp ds r
unfolding calculate_best_target
calculate_best_target-IsBest fp laws s ds ready = (
  best_of fp ds 0 none max_float,
  ground (arith, ready),
  best fp ds (best_of fp ds 0 none max_float) (best_of_lem fp laws ds 0 none max_float),
)
