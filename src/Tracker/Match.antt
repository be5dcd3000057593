-- ===== src/Tracker/Match.antt =====
-- How `MultiObjectTracker` of src/game/kalman_tracker.cpp matches detections with trackers.
use zero_latency_yolo.Base.{
  ℕ, ◌+◌, Bool, false, List, [], ◌∷◌, Option, none, some, get_elem?, length, ◌==◌, ◌||◌,
  if◌then◌else◌,
}
use zero_latency_yolo.Float.{Float}
use zero_latency_yolo.Protocol.{Detection}
use zero_latency_yolo.Inference.Nms.{calculate_iou}
use zero_latency_yolo.Tracker.{KalmanFilter, KalmanTracker, predict_tracker, one}

-- The pairs that `hungarianMatching` makes of an assignment, where `none` is a negative column.
unfoldable pub pairs_of : ℕ → List (Option ℕ) → List (ℕ × ℕ)
pairs_of row [] = []
pairs_of row (none ∷ columns) = pairs_of (row + 1) columns
pairs_of row (some column ∷ columns) = (row, column) ∷ pairs_of (row + 1) columns

-- The filter of the matches: those of a cost that is not above a bound. A place outside the matrix,
-- where C++ leaves the read undefined, is no match.
unfoldable pub good_matches : Float → List (List ℕ) → ℕ → List (ℕ × ℕ) → List (ℕ × ℕ)
good_matches fp costs bound [] = []
good_matches fp costs bound ((i, j) ∷ pairs) =
    let rest = good_matches fp costs bound pairs in
    elim (get_elem? costs i) [
      | none ↦ rest
      | some row ↦ elim (get_elem? row j) [
        | none ↦ rest
        | some cost ↦ if fp.le cost bound then (i, j) ∷ rest else rest
      ]
    ]

-- Whether a detection is matched, whether a tracker is.
unfoldable pub is_detection_matched : ℕ → List (ℕ × ℕ) → Bool
is_detection_matched i [] = false
is_detection_matched i ((d, t) ∷ pairs) = d == i || is_detection_matched i pairs

unfoldable pub is_tracker_matched : ℕ → List ℕ → List (ℕ × ℕ) → Bool
is_tracker_matched id active [] = false
is_tracker_matched id active ((d, t) ∷ pairs) =
    let rest = is_tracker_matched id active pairs in
    elim (get_elem? active t) [ none ↦ rest | some other ↦ other == id || rest ]

-- The matched detections with the ids of their trackers.
unfoldable pub matched_detections : List Detection → List ℕ → List (ℕ × ℕ) → List Detection
matched_detections ds active [] = []
matched_detections ds active ((i, j) ∷ pairs) =
    let rest = matched_detections ds active pairs in
    elim (get_elem? ds i) [
      | none ↦ rest
      | some d ↦ elim (get_elem? active j) [
        | none ↦ rest
        | some id ↦ record d { track_id = id } ∷ rest
      ]
    ]

-- `hungarian` is the assignment of OpenCV.
module _ {ℓ} {F : Type ℓ} (fp : Float) (filter : KalmanFilter F)
    (hungarian : List (List ℕ) → List (Option ℕ)) where
  unfoldable pub predict_all : ℕ → List (ℕ × KalmanTracker F) → List (ℕ × KalmanTracker F)
  predict_all timestamp [] = []
  predict_all timestamp ((id, t) ∷ trackers) =
      (id, (predict_tracker fp filter t timestamp).0) ∷ predict_all timestamp trackers

  -- A row of the matrix of costs; each entry moves the filter of its tracker.
  unfoldable pub cost_row :
      Detection → List (ℕ × KalmanTracker F) → List ℕ × List (ℕ × KalmanTracker F)
  cost_row d [] = ([], [])
  cost_row d ((id, t) ∷ trackers) =
      let (moved, box) = predict_tracker fp filter t d.timestamp in
      let (costs, rest) = cost_row d trackers in
      (fp.sub one (calculate_iou fp d.box box) ∷ costs, (id, moved) ∷ rest)

  unfoldable pub cost_matrix :
      List Detection → List (ℕ × KalmanTracker F) → List (List ℕ) × List (ℕ × KalmanTracker F)
  cost_matrix [] trackers = ([], trackers)
  cost_matrix (d ∷ ds) trackers =
      let (row, moved) = cost_row d trackers in
      let (rows, rest) = cost_matrix ds moved in (row ∷ rows, rest)

  -- `matchDetectionsToTrackers`, with `hungarianMatching`.
  unfoldable pub match_detections_to_trackers :
      ℕ → List Detection → List (ℕ × KalmanTracker F) → List (ℕ × ℕ) × List (ℕ × KalmanTracker F)
  match_detections_to_trackers iou_threshold ds trackers =
      let (costs, moved) = cost_matrix ds trackers in
      if length ds == 0 || length trackers == 0
      then ([], trackers)
      else (good_matches fp costs (fp.sub one iou_threshold) (pairs_of 0 (hungarian costs)), moved)
