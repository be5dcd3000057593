-- ===== src/Game/Target.antt =====
-- `calculateBestTarget` of src/game/games/cs16/cs16_game_adapter.cpp and of
-- src/game/games/csgo/csgo_game_adapter.cpp.
pub mod Closest
use zero_latency_yolo.Base.{
  ℕ, suc, ◌+◌, Bool, true, false, List, [], ◌∷◌, Option, none, some, not, ◌||◌, ◌==◌, if◌then◌else◌,
}
use zero_latency_yolo.Float.{Float}
use zero_latency_yolo.Protocol.{Detection, not_initialized}
use zero_latency_yolo.Udp.Server.{Result, success, failure}
use zero_latency_yolo.Game.{GameAdapter}
use zero_latency_yolo.Game.Track.{class_head}

-- 0.5 and the largest finite `float`.
abbrev pub half : ℕ
half = 1056964608

abbrev pub max_float : ℕ
max_float = 2139095039

-- The classes that are aimed at: `CLASS_T`, which is 0, and `CLASS_HEAD`.
unfoldable pub is_target : Detection → Bool
is_target d = d.class_id == 0 || d.class_id == class_head

-- The distance from the centre of the screen, half of it for a head.
unfoldable pub target_distance : Float → Detection → ℕ
target_distance fp d =
    let dx = fp.sub d.box.x half in
    let dy = fp.sub d.box.y half in
    let distance = fp.sqrt (fp.add (fp.mul dx dx) (fp.mul dy dy)) in
    if d.class_id == class_head then fp.mul distance half else distance

-- The loop, with the index that it has come to, `best_index`, where `none` is -1, and
-- `best_distance`.
unfoldable pub best_of : Float → List Detection → ℕ → Option ℕ → ℕ → Option ℕ
best_of fp [] i best distance = best
best_of fp (d ∷ ds) i best distance =
    let skipped = best_of fp ds (i + 1) best distance in
    let taken = best_of fp ds (i + 1) (some i) (target_distance fp d) in
    if not (is_target d)
    then skipped
    else if fp.lt (target_distance fp d) distance
    then taken
    else skipped

-- `calculateBestTarget`.
unfoldable pub calculate_best_target : Float → GameAdapter → List Detection → Result (Option ℕ)
calculate_best_target fp s detections =
    if not s.initialized
    then failure not_initialized
    else success (best_of fp detections 0 none max_float)
