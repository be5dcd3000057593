-- ===== src/Tracker/Stale.antt =====
-- What `MultiObjectTracker::update` of src/game/kalman_tracker.cpp leaves.
use zero_latency_yolo.Base.{
  ℕ, ◌/◌, ◌≤◌, ◌≡◌, Bool, false, List, [], ◌∷◌, Option, none, some, arith, ◌∙◌, sym, subst, inl,
  inr, All, if-cases, Bool-cases, leb, not, ◌&&◌, sub64,
}
use zero_latency_yolo.Base.Table.{lookup, Keys, Absent, All-lookup}
use zero_latency_yolo.Float.{Float}
use zero_latency_yolo.Protocol.{Detection}
use zero_latency_yolo.Udp.Server.Manage.{keys_where, erase_all}
use zero_latency_yolo.Udp.Server.Sweep.{kept, lookup-sweep, Keys-erase_all, All-erase_all}
use zero_latency_yolo.Tracker.{KalmanFilter, KalmanTracker, predict_tracker, is_tracker_expired}
use zero_latency_yolo.Tracker.Match.{is_tracker_matched, predict_all, match_detections_to_trackers}
use zero_latency_yolo.Tracker.Multi.{
  MultiObjectTracker, ids_of, add_unmatched, update_matches, predicted, predictions, nine_tenths,
  update_multi,
}
use zero_latency_yolo.Tracker.Laws.{
  AreTracked, IsTracked, predict_all-AreTracked, match_detections_to_trackers-AreTracked,
  add_unmatched-AreTracked, update_matches-AreTracked,
}

module _ {ℓ} {F : Type ℓ} where
  -- A tracker that a sweep at a time leaves.
  abbrev pub IsFresh : ℕ → ℕ → ℕ × KalmanTracker F → Type 0
  IsFresh now max_age (id, t) =
      (sub64 now t.creation_time ≤ max_age) × (sub64 now t.last_update_time ≤ max_age / 2)

  fresh :
      (now max_age id : ℕ) (t : KalmanTracker F)
      → is_tracker_expired now max_age t ≡ false
      → IsFresh now max_age (id, t)
  unfolding is_tracker_expired
  fresh now max_age id t h = ground (arith, h)

  swept-IsFresh :
      (now max_age : ℕ) (t : KalmanTracker F) (o : Option (KalmanTracker F)) (id : ℕ)
      → kept (is_tracker_expired now max_age) o ≡ some t
      → IsFresh now max_age (id, t)
  swept-IsFresh now max_age t none id h = cc
  swept-IsFresh now max_age t (some u) id h = elim (Bool-cases (is_tracker_expired now max_age u)) [
    | inl expired ↦ let no : ⊥ = ground (arith, expired, h) in elim no [ ]
    | inr stays ↦
        let same : u ≡ t = ground (arith, stays, h) in
        subst (λ v. IsFresh now max_age (id, v)) same (fresh now max_age id u stays)
  ]

  All-IsFresh-sweep :
      (now max_age : ℕ) (ts : List (ℕ × KalmanTracker F))
      → Keys ts
      → All (IsFresh now max_age) (erase_all (keys_where (is_tracker_expired now max_age) ts) ts)
  All-IsFresh-sweep now max_age ts keys =
      let gone = keys_where (is_tracker_expired now max_age) ts in
      All-lookup (IsFresh now max_age) (erase_all gone ts) (Keys-erase_all gone ts keys)
        (λ k t found.
          swept-IsFresh now max_age t (lookup k ts) k
            (sym (lookup-sweep (is_tracker_expired now max_age) k ts keys) ∙ found))

module _ {ℓ} {A : Type ℓ} (P Q : A → Type 0) where
  All-both : (xs : List A) → All P xs → All Q xs → All (λ x. P x × Q x) xs
  All-both [] p q = tt
  All-both (x ∷ xs) p q = ((p.0, q.0), All-both xs p.1 q.1)

  All-first : (xs : List A) → All (λ x. P x × Q x) xs → All P xs
  All-first [] h = tt
  All-first (x ∷ xs) h = (h.0.0, All-first xs h.1)

  All-second : (xs : List A) → All (λ x. P x × Q x) xs → All Q xs
  All-second [] h = tt
  All-second (x ∷ xs) h = (h.0.1, All-second xs h.1)

module _ {ℓ} {F : Type ℓ} (fp : Float) (filter : KalmanFilter F)
    (hungarian : List (List ℕ) → List (Option ℕ)) where
  Absent-predictions :
      (k : ℕ) (test : ℕ × KalmanTracker F → Bool) (factor timestamp : ℕ)
      (ts : List (ℕ × KalmanTracker F))
      → Absent k ts
      → Absent k (predictions fp filter hungarian test factor timestamp ts).1
  unfolding predictions
  Absent-predictions k test factor timestamp [] h = tt
  Absent-predictions k test factor timestamp ((id, t) ∷ ts) h =
      if-cases (λ (r : List Detection × List (ℕ × KalmanTracker F)). Absent k r.1) (test (id, t))
        (λ _. (h.0, Absent-predictions k test factor timestamp ts h.1))
        (λ _. (h.0, Absent-predictions k test factor timestamp ts h.1))

  Keys-predictions :
      (test : ℕ × KalmanTracker F → Bool) (factor timestamp : ℕ) (ts : List (ℕ × KalmanTracker F))
      → Keys ts
      → Keys (predictions fp filter hungarian test factor timestamp ts).1
  unfolding predictions
  Keys-predictions test factor timestamp [] h = tt
  Keys-predictions test factor timestamp ((id, t) ∷ ts) h =
      let absent = Absent-predictions id test factor timestamp ts h.0 in
      let rest = Keys-predictions test factor timestamp ts h.1 in
      if-cases (λ (r : List Detection × List (ℕ × KalmanTracker F)). Keys r.1) (test (id, t))
        (λ _. (absent, rest)) (λ _. (absent, rest))

  All-predictions :
      (P : ℕ × KalmanTracker F → Type 0) (test : ℕ × KalmanTracker F → Bool) (factor timestamp : ℕ)
      (ts : List (ℕ × KalmanTracker F))
      → ((id : ℕ) (t : KalmanTracker F)
          → P (id, t)
          → P (id, (predict_tracker fp filter t timestamp).0))
      → All P ts
      → All P (predictions fp filter hungarian test factor timestamp ts).1
  unfolding predictions predicted
  All-predictions P test factor timestamp [] moves h = tt
  All-predictions P test factor timestamp ((id, t) ∷ ts) moves h =
      let rest = All-predictions P test factor timestamp ts moves h.1 in
      if-cases (λ (r : List Detection × List (ℕ × KalmanTracker F)). All P r.1) (test (id, t))
        (λ _. (moves id t h.0, rest)) (λ _. (h.0, rest))

  predict_tracker-IsFresh :
      (now max_age timestamp id : ℕ) (t : KalmanTracker F)
      → IsTracked (id, t) × IsFresh now max_age (id, t)
      → IsTracked (id, (predict_tracker fp filter t timestamp).0)
        × IsFresh now max_age (id, (predict_tracker fp filter t timestamp).0)
  unfolding predict_tracker
  predict_tracker-IsFresh now max_age timestamp id t h = h

  -- Each tracker that update leaves was created no more than max_age milliseconds before the time
  -- stamp and updated no more than half of that before it, reckoned in 64 bits, also where it was
  -- matched every time; each stands under its own id with 30 boxes at most, and no id stands twice,
  -- where that was so before.
  pub update_multi-AreTracked :
      (s : MultiObjectTracker F) (ds : List Detection) (timestamp : ℕ)
      → AreTracked s.trackers
      → AreTracked (update_multi fp filter hungarian s ds timestamp).0.trackers
        × All
            (IsFresh timestamp s.max_age)
            (update_multi fp filter hungarian s ds timestamp).0.trackers
  unfolding update_multi
  update_multi-AreTracked s ds timestamp h =
      let active = ids_of s.trackers in
      let matched =
        match_detections_to_trackers fp filter hungarian s.iou_threshold ds
          (predict_all fp filter hungarian timestamp s.trackers) in
      let added = add_unmatched fp filter hungarian matched.0 0 ds s.next_track_id matched.1 in
      let updated = update_matches fp filter hungarian ds active matched.0 added.1 in
      let gone = keys_where (is_tracker_expired timestamp s.max_age) updated in
      let swept = erase_all gone updated in
      let tracked = update_matches-AreTracked fp filter hungarian ds active matched.0 added.1 (
        add_unmatched-AreTracked fp filter hungarian matched.0 0 ds s.next_track_id matched.1 (
          match_detections_to_trackers-AreTracked fp filter hungarian s.iou_threshold ds
            (predict_all fp filter hungarian timestamp s.trackers)
            (predict_all-AreTracked fp filter hungarian timestamp s.trackers h))) in
      let P : ℕ × KalmanTracker F → Type 0 = λ e. IsTracked e × IsFresh timestamp s.max_age e in
      let test : ℕ × KalmanTracker F → Bool =
        λ e. not (is_tracker_matched e.0 active matched.0) && leb s.min_hits e.1.hit_count in
      let all =
        All-predictions P test nine_tenths timestamp swept
          (predict_tracker-IsFresh timestamp s.max_age timestamp)
          (All-both IsTracked (IsFresh timestamp s.max_age) swept
            (All-erase_all IsTracked gone updated tracked.1)
            (All-IsFresh-sweep timestamp s.max_age updated tracked.0)) in
      let last = (predictions fp filter hungarian test nine_tenths timestamp swept).1 in
      (
        (
          Keys-predictions test nine_tenths timestamp swept (Keys-erase_all gone updated tracked.0),
          All-first IsTracked (IsFresh timestamp s.max_age) last all,
        ),
        All-second IsTracked (IsFresh timestamp s.max_age) last all,
      )
