-- ===== src/DualEngine/Examples.antt =====
-- The theorems on the dual engine at concrete inputs.
use mathlib.Core.List.Permᴰ
use zero_latency_yolo.Base.{ℕ, ◌≡◌, List, [], ◌∷◌, arith, All, some, get_elem?}
use zero_latency_yolo.Float.{pattern_float}
use zero_latency_yolo.Protocol.{Detection, GameState}
use zero_latency_yolo.DualEngine.{DualEngine, calculate_similarity, find_best_matches}
use zero_latency_yolo.DualEngine.Fuse.{add_server_detections}
use zero_latency_yolo.DualEngine.Similar.{AreSimilar, IsSimilar}
use zero_latency_yolo.DualEngine.Matches.{AreMatches, IsBlocked, find_best_matches_lem}
use zero_latency_yolo.DualEngine.Pipeline.{add_server_detections-ignored}

abbrev unsorted : List (ℕ × ℕ × ℕ) → List (ℕ × ℕ × ℕ)
unsorted cs = cs

abbrev shown : ℕ → Detection
shown x = record {
  box = record { x = x; y = 4; width = 2; height = 2 };
  confidence = 3;
  class_id = 0;
  track_id = 1;
  padding = 0;
  timestamp = 10;
}

find_best_matches_lem_example :
    let matches =
      find_best_matches pattern_float unsorted (shown 4 ∷ shown 8 ∷ []) (shown 5 ∷ []) in
    AreMatches matches
    × All (IsSimilar pattern_float (shown 4 ∷ shown 8 ∷ []) (shown 5 ∷ [])) matches
    × ((i j : ℕ) (d e : Detection)
        → get_elem? (shown 4 ∷ shown 8 ∷ []) i ≡ some d
        → get_elem? (shown 5 ∷ []) j ≡ some e
        → AreSimilar pattern_float d e
        → IsBlocked matches (calculate_similarity pattern_float d e, i, j))
find_best_matches_lem_example =
    find_best_matches_lem pattern_float unsorted (shown 4 ∷ shown 8 ∷ []) (shown 5 ∷ []) Permᴰ.refl

abbrev state_at : ℕ → GameState
state_at now = record { frame_id = 1; timestamp = now; detections = shown 4 ∷ [] }

abbrev dual : DualEngine
dual = record {
  last_server_state = record { frame_id = 0; timestamp = 0; detections = [] };
  current_state = record { frame_id = 0; timestamp = 0; detections = [] };
  last_server_update_time = 0;
  server_correction_weight = 1050253722;
  detection_count = 0;
  prediction_count = 0;
}

add_server_detections-ignored_example :
    add_server_detections (add_server_detections dual (state_at 100) 150).0 (state_at 116) 166
    ≡ ((add_server_detections dual (state_at 100) 150).0, [])
add_server_detections-ignored_example =
    add_server_detections-ignored dual (state_at 100) (state_at 116) 150 166 (omega arith)
      (omega arith) (omega arith)
