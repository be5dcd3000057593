-- ===== src/NetworkServer/Frames.antt =====
-- A frame on its way through `handlePacket` of src/network/network_server.cpp to the engine.
use zero_latency_yolo.Base.{ℕ, ◌*◌, ◌≡◌, ◌==◌, Bool, if◌then◌else◌, List, [], ◌∷◌, ◌++◌, length}
use zero_latency_yolo.Protocol.{FrameData, invalid_input}
use zero_latency_yolo.Protocol.Fits.{Fits}
use zero_latency_yolo.Udp.Server.{success, failure}
use zero_latency_yolo.Inference.{Notice, EngineConfig, InferenceTask}
use zero_latency_yolo.NetworkServer.{NetworkServer, Handled, done}

-- Whether a frame has three bytes for each pixel.
abbrev pub is_raw : FrameData → Bool
is_raw f = length f.pixels == f.width * f.height * 3

-- The task that a frame of a client is to become.
abbrev pub task_of : EngineConfig → FrameData → ℕ → ℕ → InferenceTask
task_of config f id now = record {
  request = record {
    client_id = id;
    frame_id = f.frame_id;
    timestamp = f.timestamp;
    width = f.width;
    height = f.height;
    pixels = f.pixels;
    is_keyframe = f.keyframe;
  };
  enqueue_time = now;
  priority = if config.use_priority_scheduling then if f.keyframe then 10 else 5 else 0;
}

-- What becomes of a frame: what is logged, and the tasks of the engine.
abbrev pub IsQueued : NetworkServer → FrameData → ℕ → ℕ → Handled → Type 0
IsQueued s f id now h =
    (s' : NetworkServer) × (notices : List Notice) × (h
      ≡ done s' (if is_raw f then success tt else failure invalid_input) [] notices)
    × (s'.engine.tasks ≡ (
        if is_raw f
        then s.engine.tasks ++ task_of s.engine.config f id now ∷ []
        else s.engine.tasks))
