-- ===== src/Prediction/Dual.antt =====
-- `DualEngine` of src/client/dual_engine.cpp on its `PredictionEngine`: the calls that go through both.
use zero_latency_yolo.Base.{
  ℕ, ◌+◌, ◌≤◌, ◌<◌, ◌^◌, ◌≡◌, refl, List, [], ◌∷◌, Option, none, Bool, true, false, length, ltb,
  ◌==◌, ◌||◌, if◌then◌else◌, All, arith, Option-cases, inl, inr, sub64, u64, lt→ltb,
}
use zero_latency_yolo.Float.{Float}
use zero_latency_yolo.Protocol.{Detection, GameState}
use zero_latency_yolo.Udp.Server.Manage.{keys_where}
use zero_latency_yolo.Udp.Server.Sweep.{All-erase_all}
use zero_latency_yolo.DualEngine.{DualEngine}
use zero_latency_yolo.DualEngine.Fuse.{
  add_server_detections, update_dual, clear_dual, fuse_detections,
}
use zero_latency_yolo.Base.Table.{lookup}
use zero_latency_yolo.Prediction.{
  PredictionEngine, TrackingHistory, KalmanFilter, add_detection, clear_tracks, back,
}
use zero_latency_yolo.Prediction.Motion.{update, update_tracks, prune_old_tracks, is_old}
use zero_latency_yolo.Prediction.Predict.{prediction_of, predictions, predict_state, target_of}
use zero_latency_yolo.Prediction.Invariant.{history-update_track}
use zero_latency_yolo.Prediction.Shape.{back-All}

pub record Engines : Type 0 where
  pub dual : DualEngine
  pub prediction : PredictionEngine

-- The loop of `addServerDetections`.
unfoldable pub add_detections : Float → PredictionEngine → List Detection → PredictionEngine
add_detections fp s [] = s
add_detections fp s (d ∷ ds) = add_detections fp (add_detection fp s d) ds

-- `addServerDetections`.
unfoldable pub add_server : Float → Engines → GameState → ℕ → Engines
add_server fp s state now =
    let (dual, detections) = add_server_detections s.dual state now in
    record { dual = dual; prediction = add_detections fp s.prediction detections }

-- `update`. The clock is read four times: by `update` itself, by the prediction engine for its old
-- tracks and for its predictions, and by `fuseDetections`.
unfoldable pub update_engines :
    Float → (List (ℕ × ℕ × ℕ) → List (ℕ × ℕ × ℕ)) → Engines → ℕ → ℕ → ℕ → ℕ → Engines
update_engines fp sort s now pruned predicted fused =
    let prediction = update fp s.prediction pruned in
    let local_predictions = predict_state fp prediction now predicted in
    record {
      dual = update_dual fp sort s.dual local_predictions now fused;
      prediction = prediction;
    }

-- `clear`.
unfoldable pub clear_engines : Engines → Engines
clear_engines s = record { dual = clear_dual s.dual; prediction = clear_tracks s.prediction }

-- Every detection that a track holds is stamped more than some milliseconds before a time.
abbrev pub IsBefore : ℕ → ℕ → ℕ × TrackingHistory → Type 0
IsBefore horizon now (id, t) = All (λ d. d.timestamp + horizon < now) t.history

IsBefore-update_tracks :
    (fp : Float) (horizon now : ℕ) (ts : List (ℕ × TrackingHistory))
    → All (IsBefore horizon now) ts
    → All (IsBefore horizon now) (update_tracks fp ts)
unfolding update_tracks
IsBefore-update_tracks fp horizon now [] h = tt
IsBefore-update_tracks fp horizon now ((id, t) ∷ ts) h =
    (rw (history-update_track fp t) h.0, IsBefore-update_tracks fp horizon now ts h.1)

prediction_of-IsBefore :
    (fp : Float) (horizon now id : ℕ) (filter : Option KalmanFilter) (t : TrackingHistory)
    → now < 2 ^ 64
    → IsBefore horizon now (id, t)
    → prediction_of fp horizon now filter t ≡ none
unfolding prediction_of
prediction_of-IsBefore fp horizon now id filter t ranged h = elim (Option-cases (back t.history)) [
  | inl nothing ↦ rw (nothing, prediction_of) refl
  | inr (latest, found) ↦
      let past = back-All (λ d. d.timestamp + horizon < now) t.history latest h found in
      let far : ltb horizon (sub64 now latest.timestamp) ≡ true =
        lt→ltb _ _ (omega (arith, past)) in
      rw (found, prediction_of) (rw far refl)
]

predictions-IsBefore :
    (fp : Float) (horizon now : ℕ) (filters : List (ℕ × KalmanFilter))
    (ts : List (ℕ × TrackingHistory))
    → now < 2 ^ 64
    → All (IsBefore horizon now) ts
    → predictions fp horizon now filters ts ≡ []
unfolding predictions
predictions-IsBefore fp horizon now filters [] ranged h = refl
predictions-IsBefore fp horizon now filters ((id, t) ∷ ts) ranged h =
    rw (prediction_of-IsBefore fp horizon now id (lookup id filters) t ranged h.0)
      (predictions-IsBefore fp horizon now filters ts ranged h.1)

predict_state-IsBefore :
    (fp : Float) (s : PredictionEngine) (now pruned predicted : ℕ)
    → now ≤ predicted
    → predicted + s.prediction_horizon_ms < 2 ^ 64
    → All (IsBefore s.prediction_horizon_ms now) s.tracks
    → predict_state fp (update fp s pruned) now predicted ≡ []
unfolding predict_state update prune_old_tracks target_of
predict_state-IsBefore fp s now pruned predicted forward ranged h =
    let moved = update_tracks fp s.tracks in
    let gone = keys_where (is_old s.max_track_age_ms pruned) moved in
    let horizon = s.prediction_horizon_ms in
    let open_end : ltb (u64 (predicted + horizon)) now ≡ false = ground arith in
    rw open_end (
      predictions-IsBefore fp horizon now _ _ (omega arith) (
        All-erase_all (IsBefore horizon now) gone moved
          (IsBefore-update_tracks fp horizon now s.tracks h)))

empty_or_old :
    (ds : List Detection) (old : Bool)
    → (if length ds == 0 || old then [] else ds) ≡ (if old then [] else ds)
empty_or_old [] true = refl
empty_or_old [] false = refl
empty_or_old (d ∷ ds) old = ground arith

fuse_detections-nothing :
    (fp : Float) (sort : List (ℕ × ℕ × ℕ) → List (ℕ × ℕ × ℕ)) (correction : ℕ) (state : GameState)
    (now : ℕ)
    → fuse_detections fp sort correction state [] now
      ≡ (if ltb 500 (sub64 now state.timestamp) then [] else state.detections)
unfolding fuse_detections
fuse_detections-nothing fp sort correction state now =
    empty_or_old state.detections (ltb 500 (sub64 now state.timestamp))

-- When every detection that the tracks hold is stamped more than the horizon before the time, and the
-- clock does not go back meanwhile, update shows the detections of the last state of the server,
-- unmoved, for 500 ms after its stamp, reckoned in 64 bits, and then nothing.
pub update_engines-silent :
    (fp : Float) (sort : List (ℕ × ℕ × ℕ) → List (ℕ × ℕ × ℕ)) (s : Engines)
    (now pruned predicted fused : ℕ)
    → now ≤ predicted
    → predicted + s.prediction.prediction_horizon_ms < 2 ^ 64
    → All (IsBefore s.prediction.prediction_horizon_ms now) s.prediction.tracks
    → (update_engines fp sort s now pruned predicted fused).dual.current_state.detections ≡ (
        if ltb 500 (sub64 fused s.dual.last_server_state.timestamp)
        then []
        else s.dual.last_server_state.detections)
unfolding update_engines update_dual
update_engines-silent fp sort s now pruned predicted fused forward ranged h =
    rw (predict_state-IsBefore fp s.prediction now pruned predicted forward ranged h) (
      fuse_detections-nothing fp sort s.dual.server_correction_weight s.dual.last_server_state
        fused)
