-- ===== src/Game/Examples.antt =====
-- The theorems on the game adapters at concrete inputs.
use zero_latency_yolo.Base.{
  ℕ, ◌+◌, ◌%◌, ◌^◌, ◌<◌, ◌≡◌, refl, ap, subst, true, List, [], ◌∷◌, Option, none, some, arith, take,
  get_elem?,
}
use zero_latency_yolo.Base.Table.{lookup, Keys}
use zero_latency_yolo.Float.{pattern_float, pattern_float-IsOrdered}
use zero_latency_yolo.Protocol.{Detection, GameState}
use zero_latency_yolo.Udp.Server.{success}
use zero_latency_yolo.Game.{GameAdapter, ClientState, new_adapter, cs16, csgo, new_client_state}
use zero_latency_yolo.Game.Adapter.{get_or_create_client_state}
use zero_latency_yolo.Game.Track.{scaled, label_detections, process_detections}
use zero_latency_yolo.Game.Track.Laws.{
  lookup-process_detections, latest, labelled, named_if, unnamed, recent,
}
use zero_latency_yolo.Game.Track.Late.{TracksNothing, predict_motion-process_detections}
use zero_latency_yolo.Game.Target.{calculate_best_target, best_of, is_target, target_distance}
use zero_latency_yolo.Game.Target.Closest.{calculate_best_target-IsBest, IsBest}
use zero_latency_yolo.Game.Aim.{predict_motion}

abbrev ready : GameAdapter
ready = record new_adapter { initialized = true }

abbrev seen : ℕ → ℕ → ℕ → Detection
seen x class_id timestamp = record {
  box = record { x = x; y = 1056964608; width = 1028443341; height = 1036831949 };
  confidence = 1063675494;
  class_id = class_id;
  track_id = 0;
  padding = 0;
  timestamp = timestamp;
}

abbrev pair : List Detection
pair = seen 1056964700 1 40 ∷ seen 1056964650 0 40 ∷ []

abbrev frame : GameState
frame = record { frame_id = 7; timestamp = 40; detections = pair }

abbrev late_frame : GameState
late_frame = record { frame_id = 7; timestamp = 15; detections = pair }

abbrev tracking : GameAdapter
tracking = record ready {
  next_track_id = 2;
  clients =
      (
        5,
        record (new_client_state 1) {
          tracked_objects = (1, record (seen 3 0 20) { track_id = 1 }) ∷ [];
        },
      )
      ∷ [];
}

calculate_best_target-IsBest_example :
    (r : Option ℕ) × (calculate_best_target pattern_float ready pair ≡ success r)
    × IsBest pattern_float pair r
calculate_best_target-IsBest_example =
    calculate_best_target-IsBest pattern_float pattern_float-IsOrdered ready pair refl

test_best : calculate_best_target pattern_float ready pair ≡ success (some 1)
unfolding calculate_best_target best_of is_target target_distance
test_best = refl

tracking-Keys : Keys (get_or_create_client_state tracking 5).tracked_objects
unfolding get_or_create_client_state lookup
tracking-Keys = (tt, tt)

stamped :
    (d : Detection)
    → latest 2
        (labelled pattern_float tracking frame)
        (lookup 2 (get_or_create_client_state tracking 5).tracked_objects)
      ≡ some d
    → d.timestamp < 2 ^ 63
unfolding label_detections scaled get_or_create_client_state lookup
stamped d e =
    let same : 40 ≡ d.timestamp = ap (λ o. elim o [ none ↦ 40 | some x ↦ x.timestamp ]) e in
    subst (λ t. t < 2 ^ 63) same (omega arith)

lookup-process_detections_example :
    (c : ClientState) × ((process_detections pattern_float cs16 tracking 5 frame 1).1
      ≡ success (record frame { detections = labelled pattern_float tracking frame }))
    × ((i : ℕ)
        → get_elem? (labelled pattern_float tracking frame) i
          ≡ named_if pattern_float tracking.head_size_factor
              ((2 + unnamed (take i pair)) % 2 ^ 32)
              (get_elem? pair i))
    × (lookup 5 (process_detections pattern_float cs16 tracking 5 frame 1).0.clients ≡ some c)
    × (lookup 2 c.tracked_objects
        ≡ recent 40 (
            latest 2
              (labelled pattern_float tracking frame)
              (lookup 2 (get_or_create_client_state tracking 5).tracked_objects)))
lookup-process_detections_example =
    lookup-process_detections pattern_float cs16 tracking 5 2 frame refl (omega arith) tracking-Keys
      (omega arith) stamped

predict_motion-process_detections_example :
    TracksNothing (process_detections pattern_float csgo ready 5 late_frame 2).0
    × (predict_motion pattern_float
          (process_detections pattern_float csgo ready 5 late_frame 2).0
          (seen 9 0 60)
          70
          80
        ≡ success (record { x = 9; y = 1056964608; width = 1028443341; height = 1036831949 }))
predict_motion-process_detections_example =
    predict_motion-process_detections pattern_float csgo ready 5 late_frame (seen 9 0 60) 70 80 refl
      tt ((ground arith, ground arith), ((ground arith, ground arith), tt))
