-- ===== src/Tracker/Multi.antt =====
-- `MultiObjectTracker` of src/game/kalman_tracker.cpp. The trackers, which are shared pointers in C++,
-- are known by their ids; the ids are taken not to come round to one in use.
use zero_latency_yolo.Base.{
  ℕ, ◌+◌, Bool, List, [], ◌∷◌, ◌++◌, Option, none, some, get_elem?, length, leb, ◌&&◌, not,
  if◌then◌else◌, u32,
}
use zero_latency_yolo.Base.Table.{lookup, insert}
use zero_latency_yolo.Float.{Float}
use zero_latency_yolo.Protocol.{Detection}
use zero_latency_yolo.Udp.Server.Manage.{keys_where, erase_all}
use zero_latency_yolo.Tracker.{
  KalmanFilter, KalmanTracker, new_tracker, update_tracker, predict_tracker, is_tracker_expired,
}
use zero_latency_yolo.Tracker.Match.{
  is_detection_matched, is_tracker_matched, matched_detections, predict_all,
  match_detections_to_trackers,
}

pub record MultiObjectTracker {ℓ} (F : Type ℓ) : Type ℓ where
  pub max_age : ℕ
  pub min_hits : ℕ
  pub iou_threshold : ℕ
  pub next_track_id : ℕ
  pub trackers : List (ℕ × KalmanTracker F)

-- The constructor.
unfoldable pub new_multi {ℓ} : {F : Type ℓ} → ℕ → ℕ → ℕ → MultiObjectTracker F
new_multi max_age min_hits iou_threshold = record {
  max_age = max_age;
  min_hits = min_hits;
  iou_threshold = iou_threshold;
  next_track_id = 1;
  trackers = [];
}

-- 0.9 and 0.95.
abbrev pub nine_tenths : ℕ
nine_tenths = 1063675494

abbrev pub nineteen_twentieths : ℕ
nineteen_twentieths = 1064514355

unfoldable pub ids_of {ℓ} : {F : Type ℓ} → List (ℕ × KalmanTracker F) → List ℕ
ids_of [] = []
ids_of ((id, t) ∷ trackers) = id ∷ ids_of trackers

-- `hungarian` is the assignment of OpenCV.
module _ {ℓ} {F : Type ℓ} (fp : Float) (filter : KalmanFilter F)
    (hungarian : List (List ℕ) → List (Option ℕ)) where
  -- The trackers for the detections that are not matched, from index `i` on.
  unfoldable pub add_unmatched :
      List (ℕ × ℕ)
      → ℕ
      → List Detection
      → ℕ
      → List (ℕ × KalmanTracker F)
      → ℕ × List (ℕ × KalmanTracker F)
  add_unmatched pairs i [] next trackers = (next, trackers)
  add_unmatched pairs i (d ∷ ds) next trackers =
      let known = add_unmatched pairs (i + 1) ds next trackers in
      let fresh =
        add_unmatched pairs (i + 1) ds (u32 (next + 1))
          (insert next (new_tracker fp filter d next) trackers) in
      if is_detection_matched i pairs then known else fresh

  -- The update of the tracker of a match.
  unfoldable pub update_match :
      List Detection → List ℕ → ℕ → ℕ → List (ℕ × KalmanTracker F) → List (ℕ × KalmanTracker F)
  update_match ds active i j trackers = elim (get_elem? active j) [
    | none ↦ trackers
    | some id ↦ elim (get_elem? ds i) [
      | none ↦ trackers
      | some d ↦ elim (lookup id trackers) [
        | none ↦ trackers
        | some t ↦ insert id (update_tracker fp filter t d) trackers
      ]
    ]
  ]

  unfoldable pub update_matches :
      List Detection
      → List ℕ
      → List (ℕ × ℕ)
      → List (ℕ × KalmanTracker F)
      → List (ℕ × KalmanTracker F)
  update_matches ds active [] trackers = trackers
  update_matches ds active ((i, j) ∷ pairs) trackers =
      update_matches ds active pairs (update_match ds active i j trackers)

  -- The prediction of a tracker as a detection, and the tracker after it.
  unfoldable pub predicted : ℕ → ℕ → KalmanTracker F → Detection × KalmanTracker F
  predicted factor timestamp t =
      let (moved, box) = predict_tracker fp filter t timestamp in
      (
        record {
          box = box;
          confidence = fp.mul t.confidence factor;
          class_id = t.class_id;
          track_id = t.track_id;
          padding = 0;
          timestamp = timestamp;
        },
        moved,
      )

  -- The loop over the trackers that adds the predictions of those that pass a test.
  unfoldable pub predictions :
      (ℕ × KalmanTracker F → Bool)
      → ℕ
      → ℕ
      → List (ℕ × KalmanTracker F)
      → List Detection × List (ℕ × KalmanTracker F)
  predictions test factor timestamp [] = ([], [])
  predictions test factor timestamp ((id, t) ∷ trackers) =
      let (ds, rest) = predictions test factor timestamp trackers in
      let (d, moved) = predicted factor timestamp t in
      if test (id, t) then (d ∷ ds, (id, moved) ∷ rest) else (ds, (id, t) ∷ rest)

  -- `update`.
  unfoldable pub update_multi :
      MultiObjectTracker F → List Detection → ℕ → MultiObjectTracker F × List Detection
  update_multi s ds timestamp =
      let active = ids_of s.trackers in
      let (pairs, moved) =
        match_detections_to_trackers fp filter hungarian s.iou_threshold ds
          (predict_all fp filter hungarian timestamp s.trackers) in
      let (next, added) = add_unmatched pairs 0 ds s.next_track_id moved in
      let updated = update_matches ds active pairs added in
      let kept = erase_all (keys_where (is_tracker_expired timestamp s.max_age) updated) updated in
      let (unmatched, last) =
        predictions (λ e. not (is_tracker_matched e.0 active pairs) && leb s.min_hits e.1.hit_count)
          nine_tenths timestamp kept in
      (
        record s { next_track_id = next; trackers = last },
        matched_detections ds active pairs ++ unmatched,
      )

  -- `predict`.
  unfoldable pub predict_multi : MultiObjectTracker F → ℕ → MultiObjectTracker F × List Detection
  predict_multi s timestamp =
      let (ds, trackers) =
        predictions (λ e. leb s.min_hits e.1.hit_count) nineteen_twentieths timestamp s.trackers in
      (record s { trackers = trackers }, ds)

module _ {ℓ} {F : Type ℓ} where
  -- `getTrackerById`, `clear` and `count`.
  unfoldable pub get_tracker_by_id : MultiObjectTracker F → ℕ → Option (KalmanTracker F)
  get_tracker_by_id s id = lookup id s.trackers

  unfoldable pub clear_multi : MultiObjectTracker F → MultiObjectTracker F
  clear_multi s = record s { trackers = [] }

  unfoldable pub count_multi : MultiObjectTracker F → ℕ
  count_multi s = length s.trackers
