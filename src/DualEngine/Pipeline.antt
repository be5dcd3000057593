-- ===== src/DualEngine/Pipeline.antt =====
-- Which states of the server `addServerDetections` of src/client/dual_engine.cpp takes.
use zero_latency_yolo.Base.{ℕ, ◌≤◌, ◌<◌, ◌≡◌, [], arith}
use zero_latency_yolo.Protocol.{GameState}
use zero_latency_yolo.DualEngine.{DualEngine}
use zero_latency_yolo.DualEngine.Fuse.{add_server_detections}

-- After addServerDetections has taken a state, a later state is ignored, and none of its detections
-- is handed on, where it is stamped no earlier than the first and yet before the first arrived.
pub add_server_detections-ignored :
    (s : DualEngine) (first second : GameState) (now later : ℕ)
    → s.last_server_update_time ≤ first.timestamp
    → first.timestamp ≤ second.timestamp
    → second.timestamp < now
    → add_server_detections (add_server_detections s first now).0 second later
      ≡ ((add_server_detections s first now).0, [])
unfolding add_server_detections
add_server_detections-ignored s first second now later taken ordered early =
    ground (arith, taken, ordered, early)
