-- ===== src/DualEngine/Fuse.antt =====
-- `fuseDetections` of src/client/dual_engine.cpp, and the methods that change the engine.
use zero_latency_yolo.Base.{
  ℕ, ◌+◌, List, [], ◌∷◌, ◌++◌, none, some, get_elem?, length, ltb, ◌==◌, ◌||◌, if◌then◌else◌, u32,
  u64, sub64,
}
use zero_latency_yolo.Float.{Float}
use zero_latency_yolo.Protocol.{Detection, GameState}
use zero_latency_yolo.Udp.Server.Sweep.{member}
use zero_latency_yolo.Inference.Nms.{float_min}
use zero_latency_yolo.Tracker.{one}
use zero_latency_yolo.DualEngine.{DualEngine, find_best_matches, smooth_transition, match_of}

-- `MIN_SERVER_CONFIDENCE`, which is 0.4, and 100.0.
abbrev pub min_server_confidence : ℕ
min_server_confidence = 1053609165

abbrev pub hundred : ℕ
hundred = 1120403456

-- The loop over the server detections, from index `i` on: what is added, and the predictions used.
-- A match has an index of a prediction, so the `none` of the second test is not reached.
unfoldable pub fuse_server :
    Float → ℕ → List (ℕ × ℕ) → List Detection → ℕ → List Detection → List Detection × List ℕ
fuse_server fp weight matches local_predictions i [] = ([], [])
fuse_server fp weight matches local_predictions i (d ∷ ds) =
    let (fused, used) = fuse_server fp weight matches local_predictions (i + 1) ds in
    if fp.lt d.confidence min_server_confidence then (fused, used) else elim (match_of i matches) [
      | none ↦ (d ∷ fused, used)
      | some l ↦ elim (get_elem? local_predictions l) [
        | none ↦ (fused, used)
        | some p ↦ (smooth_transition fp p d weight ∷ fused, l ∷ used)
      ]
    ]

-- The predictions that are not used, from index `i` on, and are confident enough.
unfoldable pub unused_predictions : Float → List ℕ → ℕ → List Detection → List Detection
unused_predictions fp used i [] = []
unused_predictions fp used i (p ∷ ps) =
    let rest = unused_predictions fp used (i + 1) ps in
    if member i used
    then rest
    else if fp.le min_server_confidence p.confidence
    then p ∷ rest
    else rest

-- `fuseDetections`, less the two numbers of the state, which the caller sets anew.
unfoldable pub fuse_detections :
    Float
    → (List (ℕ × ℕ × ℕ) → List (ℕ × ℕ × ℕ))
    → ℕ
    → GameState
    → List Detection
    → ℕ
    → List Detection
fuse_detections fp sort correction server_state local_predictions now =
    let age = sub64 now server_state.timestamp in
    let time_weight = float_min fp one (fp.div (fp.of_uint64 age) hundred) in
    let weight = fp.mul correction (fp.sub one time_weight) in
    let matches = find_best_matches fp sort server_state.detections local_predictions in
    let (fused, used) = fuse_server fp weight matches local_predictions 0 server_state.detections in
    if length server_state.detections == 0 || ltb 500 age
    then local_predictions
    else if length local_predictions == 0
    then server_state.detections
    else fused ++ unused_predictions fp used 0 local_predictions

-- `addServerDetections`, with the detections that it hands to the prediction engine.
unfoldable pub add_server_detections : DualEngine → GameState → ℕ → DualEngine × List Detection
add_server_detections s state now =
    if ltb state.timestamp s.last_server_update_time then (s, []) else (
      record s {
        last_server_state = state;
        last_server_update_time = now;
        detection_count = u64 (s.detection_count + length state.detections);
      },
      state.detections,
    )

-- `update`, with the predictions that the prediction engine gives for the present; `later` is the
-- clock as `fuseDetections` reads it.
unfoldable pub update_dual :
    Float → (List (ℕ × ℕ × ℕ) → List (ℕ × ℕ × ℕ)) → DualEngine → List Detection → ℕ → ℕ → DualEngine
update_dual fp sort s local_predictions now later = record s {
  prediction_count = u64 (s.prediction_count + length local_predictions);
  current_state = record {
    frame_id = u32 (s.last_server_state.frame_id + 1);
    timestamp = now;
    detections =
        fuse_detections fp sort s.server_correction_weight s.last_server_state local_predictions
          later;
  };
}

-- `clear`.
unfoldable pub clear_dual : DualEngine → DualEngine
clear_dual s = record s {
  last_server_state = record (s.last_server_state) { detections = [] };
  current_state = record (s.current_state) { detections = [] };
  detection_count = 0;
  prediction_count = 0;
}
