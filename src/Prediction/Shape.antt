-- ===== src/Prediction/Shape.antt =====
-- What `predictState` of src/client/prediction_engine.cpp returns.
use zero_latency_yolo.Base.{
  ℕ, ◌≡◌, refl, ap, ap₂, ◌∙◌, List, [], ◌∷◌, Option, none, some, Bool, true, length, ltb, ◌==◌, All,
  arith, if-cases, Bool-cases, Option-cases, inl, inr,
}
use zero_latency_yolo.Base.Table.{lookup, erase, All-lookup}
use zero_latency_yolo.Float.{Float}
use zero_latency_yolo.Protocol.{Detection}
use zero_latency_yolo.Udp.Server.Manage.{keys_where, erase_all}
use zero_latency_yolo.Prediction.{PredictionEngine, TrackingHistory, KalmanFilter, back}
use zero_latency_yolo.Prediction.Motion.{
  update_track, update_tracks, prune_old_tracks, update, is_old,
}
use zero_latency_yolo.Prediction.Predict.{
  prediction_of, predictions, prepend, predicted_box, filtered_box, decayed, predict_state,
  target_of,
}
use zero_latency_yolo.Prediction.Invariant.{IsEngine, Paired-lookup, prune_old_tracks-IsEngine}

-- An initialised filter stands under the id of an entry.
abbrev HasFilter : List (ℕ × KalmanFilter) → ℕ × TrackingHistory → Type 0
HasFilter filters (id, t) =
    (f : KalmanFilter) × (lookup id filters ≡ some f) × (f.initialized ≡ true)

All-HasFilter : (s : PredictionEngine) → IsEngine s → All (HasFilter s.filters) s.tracks
All-HasFilter s v =
    All-lookup (HasFilter s.filters) s.tracks v.keys
      (λ k t found. Paired-lookup k t s.tracks s.filters v.paired found)

prediction_of-update_track :
    (fp : Float) (horizon target : ℕ) (f : KalmanFilter) (t : TrackingHistory)
    → f.initialized ≡ true
    → prediction_of fp horizon target (some f) (update_track fp t)
      ≡ prediction_of fp horizon target (some f) t
unfolding prediction_of predicted_box update_track
prediction_of-update_track fp horizon target f t ready =
    elim (Bool-cases (ltb 0 (length t.history))) [
      | inl some_seen ↦ rw (some_seen, ready) refl
      | inr nothing ↦ rw nothing refl
    ]

predictions-update_tracks :
    (fp : Float) (horizon target : ℕ) (filters : List (ℕ × KalmanFilter))
    (ts : List (ℕ × TrackingHistory))
    → All (HasFilter filters) ts
    → predictions fp horizon target filters (update_tracks fp ts)
      ≡ predictions fp horizon target filters ts
unfolding predictions update_tracks
predictions-update_tracks fp horizon target filters [] h = refl
predictions-update_tracks fp horizon target filters ((id, t) ∷ ts) h =
    let (f, found, ready) = h.0 in
    rw found (
      ap₂ prepend (prediction_of-update_track fp horizon target f t ready)
        (predictions-update_tracks fp horizon target filters ts h.1))

last_update_time-update_track :
    (fp : Float) (t : TrackingHistory) → (update_track fp t).last_update_time ≡ t.last_update_time
unfolding update_track
last_update_time-update_track fp t =
    if-cases (λ (u : TrackingHistory). u.last_update_time ≡ t.last_update_time) _ (λ _. refl)
      (λ _. refl)

keys_where-update_tracks :
    (fp : Float) (max_age now : ℕ) (ts : List (ℕ × TrackingHistory))
    → keys_where (is_old max_age now) (update_tracks fp ts) ≡ keys_where (is_old max_age now) ts
unfolding keys_where update_tracks is_old
keys_where-update_tracks fp max_age now [] = refl
keys_where-update_tracks fp max_age now ((id, t) ∷ ts) =
    rw (last_update_time-update_track fp t, keys_where-update_tracks fp max_age now ts) refl

erase-update_tracks :
    (fp : Float) (k : ℕ) (ts : List (ℕ × TrackingHistory))
    → erase k (update_tracks fp ts) ≡ update_tracks fp (erase k ts)
unfolding erase update_tracks
erase-update_tracks fp k [] = refl
erase-update_tracks fp k ((id, t) ∷ ts) = elim (Bool-cases (id == k)) [
  | inl hit ↦ rw hit refl
  | inr miss ↦ rw (miss, erase-update_tracks fp k ts) refl
]

erase_all-update_tracks :
    (fp : Float) (ks : List ℕ) (ts : List (ℕ × TrackingHistory))
    → erase_all ks (update_tracks fp ts) ≡ update_tracks fp (erase_all ks ts)
unfolding erase_all
erase_all-update_tracks fp [] ts = refl
erase_all-update_tracks fp (k ∷ ks) ts =
    ap (erase_all ks) (erase-update_tracks fp k ts) ∙ erase_all-update_tracks fp ks (erase k ts)

-- The velocities and accelerations that update computes reach no prediction: what predictState returns
-- after it is what it returns after the removal of the old tracks alone.
pub predict_state-update :
    (fp : Float) (s : PredictionEngine) (now asked later : ℕ)
    → IsEngine s
    → predict_state fp (update fp s now) asked later
      ≡ predict_state fp (prune_old_tracks s now) asked later
unfolding predict_state update prune_old_tracks target_of
predict_state-update fp s now asked later v =
    let gone = keys_where (is_old s.max_track_age_ms now) s.tracks in
    let pruned = All-HasFilter (prune_old_tracks s now) (prune_old_tracks-IsEngine s now v) in
    rw
      (
        keys_where-update_tracks fp s.max_track_age_ms now s.tracks,
        erase_all-update_tracks fp gone s.tracks,
      )
      (predictions-update_tracks fp s.prediction_horizon_ms _ (erase_all gone s.filters)
        (erase_all gone s.tracks) pruned)

-- What there is of one result, as a list.
abbrev pub at_most_one : Option Detection → List Detection
at_most_one none = []
at_most_one (some d) = d ∷ []

abbrev pub has_id : ℕ → Detection → Bool
has_id id d = d.track_id == id

pub back-All :
    (P : Detection → Type 0) (ds : List Detection) (d : Detection)
    → All P ds
    → back ds ≡ some d
    → P d
unfolding back
back-All P [] d h e = cc
back-All P (x ∷ xs) d h e = elim (Option-cases (back xs)) [
  | inl nothing ↦ let same : x ≡ d = ground (arith, e, nothing) in rw (← same) h.0
  | inr (y, found) ↦ back-All P xs d h.1 (ground (arith, e, found))
]

-- A detection moved on by a filter for some milliseconds.
abbrev pub moved_on : Float → KalmanFilter → TrackingHistory → Detection → ℕ → ℕ → Detection
moved_on fp f t latest target time_delta = record latest {
  timestamp = target;
  box = filtered_box fp f time_delta;
  confidence = decayed fp t.confidence_decay latest.confidence time_delta;
}
