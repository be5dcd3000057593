-- ===== src/Tracker.antt =====
-- `KalmanTracker` of src/game/kalman_tracker.cpp. The filter of OpenCV is a parameter.
pub mod Match
pub mod Multi
pub mod Laws
pub mod Stale
mod Examples
use zero_latency_yolo.Base.{
  ℕ, ◌+◌, ◌-◌, ◌/◌, Bool, List, [], ◌∷◌, ◌++◌, Option, none, some, length, ltb, ◌||◌, get_elem?,
  if◌then◌else◌, sub64,
}
use zero_latency_yolo.Float.{Float}
use zero_latency_yolo.Protocol.{BoundingBox, Detection}
use zero_latency_yolo.Inference.Nms.{float_max, float_min, two}

-- `cv::KalmanFilter`: one that starts at a box, with the matrices that `setupKalmanFilter` gives it;
-- the time step in its transition matrix; its correction by a box; and its prediction, which moves
-- its state.
pub record KalmanFilter {ℓ} (F : Type ℓ) : Type ℓ where
  pub start : BoundingBox → F
  pub update_transition_matrix : F → ℕ → F
  pub correct : F → BoundingBox → F
  pub predict : F → F × BoundingBox

pub record KalmanTracker {ℓ} (F : Type ℓ) : Type ℓ where
  pub track_id : ℕ
  pub class_id : ℕ
  pub confidence : ℕ
  pub last_update_time : ℕ
  pub creation_time : ℕ
  pub hit_count : ℕ
  pub miss_count : ℕ
  pub kf : F
  pub history : List BoundingBox

-- 0.001, 0.01, 0.3, 0.7, 1.0 and 1000.0.
abbrev pub thousandth : ℕ
thousandth = 981668463

abbrev pub hundredth : ℕ
hundredth = 1008981770

abbrev pub new_share : ℕ
new_share = 1050253722

abbrev pub old_share : ℕ
old_share = 1060320051

abbrev pub one : ℕ
one = 1065353216

abbrev pub thousand : ℕ
thousand = 1148846080

-- `std::clamp` on `float`.
unfoldable pub clamp : Float → ℕ → ℕ → ℕ → ℕ
clamp fp v low high = if fp.lt v low then low else if fp.lt high v then high else v

-- A coordinate such that the box does not leave the picture.
unfoldable pub kept_inside : Float → ℕ → ℕ → ℕ
kept_inside fp x size =
    let from_right =
      if fp.lt one (fp.add x (fp.div size two)) then fp.sub one (fp.div size two) else x in
    if fp.lt (fp.sub from_right (fp.div size two)) 0 then fp.div size two else from_right

-- `clampBoundingBox`.
unfoldable pub clamp_bounding_box : Float → BoundingBox → BoundingBox
clamp_bounding_box fp box =
    let width = clamp fp box.width hundredth one in
    let height = clamp fp box.height hundredth one in
    record {
      x = kept_inside fp (clamp fp box.x 0 one) width;
      y = kept_inside fp (clamp fp box.y 0 one) height;
      width = width;
      height = height;
    }

-- The history of a tracker after one more box, 30 at most.
unfoldable pub with_box : List BoundingBox → BoundingBox → List BoundingBox
with_box history box = bounded (history ++ box ∷ [])
  where
    bounded : List BoundingBox → List BoundingBox
    bounded [] = []
    bounded (oldest ∷ rest) = if ltb 30 (length (oldest ∷ rest)) then rest else oldest ∷ rest

module _ {ℓ} {F : Type ℓ} (fp : Float) (filter : KalmanFilter F) where
  -- The constructor.
  unfoldable pub new_tracker : Detection → ℕ → KalmanTracker F
  new_tracker d track_id = record {
    track_id = track_id;
    class_id = d.class_id;
    confidence = d.confidence;
    last_update_time = d.timestamp;
    creation_time = d.timestamp;
    hit_count = 1;
    miss_count = 0;
    kf = filter.start d.box;
    history = d.box ∷ [];
  }

  -- `update`. (A count of 2 ^ 31 hits, where C++ leaves the sum undefined, does not arise.)
  unfoldable pub update_tracker : KalmanTracker F → Detection → KalmanTracker F
  update_tracker t d =
      let dt = fp.div (fp.of_uint64 (sub64 d.timestamp t.last_update_time)) thousand in
      let timed = if fp.lt 0 dt then filter.update_transition_matrix t.kf dt else t.kf in
      record t {
        class_id = d.class_id;
        confidence = fp.add (fp.mul old_share t.confidence) (fp.mul new_share d.confidence);
        last_update_time = d.timestamp;
        hit_count = t.hit_count + 1;
        miss_count = 0;
        kf = filter.correct timed d.box;
        history = with_box t.history d.box;
      }

  -- `predict`, which moves the filter.
  unfoldable pub predict_tracker : KalmanTracker F → ℕ → KalmanTracker F × BoundingBox
  predict_tracker t timestamp =
      let elapsed = fp.div (fp.of_uint64 (sub64 timestamp t.last_update_time)) thousand in
      let dt = float_max fp thousandth (float_min fp elapsed one) in
      let (kf, box) = filter.predict (filter.update_transition_matrix t.kf dt) in
      (record t { kf = kf }, clamp_bounding_box fp box)

module _ {ℓ} {F : Type ℓ} where
  -- `getAge` and `isExpired`.
  unfoldable pub get_age : KalmanTracker F → ℕ → ℕ
  get_age t now = sub64 now t.creation_time

  unfoldable pub is_tracker_expired : ℕ → ℕ → KalmanTracker F → Bool
  is_tracker_expired now max_age t =
      ltb max_age (sub64 now t.creation_time) || ltb (max_age / 2) (sub64 now t.last_update_time)
