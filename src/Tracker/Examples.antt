-- ===== src/Tracker/Examples.antt =====
-- The theorem on the tracker at a concrete input.
use zero_latency_yolo.Base.{ℕ, refl, List, [], ◌∷◌, Option, some, arith, All}
use zero_latency_yolo.Float.{pattern_float}
use zero_latency_yolo.Protocol.{BoundingBox, Detection}
use zero_latency_yolo.Tracker.{KalmanFilter, KalmanTracker}
use zero_latency_yolo.Tracker.Multi.{MultiObjectTracker, update_multi}
use zero_latency_yolo.Tracker.Laws.{AreTracked}
use zero_latency_yolo.Tracker.Stale.{IsFresh, update_multi-AreTracked}

-- A filter that holds its last box.
abbrev still : KalmanFilter BoundingBox
still = record {
  start = λ b. b;
  update_transition_matrix = λ b dt. b;
  correct = λ b measured. measured;
  predict = λ b. (b, b);
}

-- Each detection goes to the tracker of its own index.
abbrev in_order : List (List ℕ) → List (Option ℕ)
in_order costs = count 0 costs
  where
    count : ℕ → List (List ℕ) → List (Option ℕ)
    count i [] = []
    count i (row ∷ rows) = some i ∷ count i rows

abbrev place : BoundingBox
place = record { x = 40; y = 40; width = 20; height = 20 }

abbrev tracker : KalmanTracker BoundingBox
tracker = record {
  track_id = 3;
  class_id = 0;
  confidence = 9;
  last_update_time = 990;
  creation_time = 100;
  hit_count = 5;
  miss_count = 0;
  kf = place;
  history = place ∷ [];
}

abbrev multi : MultiObjectTracker BoundingBox
multi = record {
  max_age = 500;
  min_hits = 3;
  iou_threshold = 1050253722;
  next_track_id = 4;
  trackers = (3, tracker) ∷ [];
}

abbrev seen : Detection
seen = record {
  box = place;
  confidence = 9;
  class_id = 0;
  track_id = 0;
  padding = 0;
  timestamp = 1000;
}

update_multi-AreTracked_example :
    AreTracked (update_multi pattern_float still in_order multi (seen ∷ []) 1000).0.trackers
    × All
        (IsFresh 1000 500)
        (update_multi pattern_float still in_order multi (seen ∷ []) 1000).0.trackers
update_multi-AreTracked_example =
    update_multi-AreTracked pattern_float still in_order multi (seen ∷ []) 1000
      ((tt, tt), ((refl, omega arith), tt))
