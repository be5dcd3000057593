-- ===== src/Game/Track.antt =====
-- `processDetections` of src/game/games/cs16/cs16_game_adapter.cpp and of
-- src/game/games/csgo/csgo_game_adapter.cpp.
pub mod Laws
pub mod Late
use zero_latency_yolo.Base.{
  ℕ, ◌+◌, Bool, true, false, List, [], ◌∷◌, not, ltb, ◌==◌, if◌then◌else◌, u32, sub64,
}
use zero_latency_yolo.Float.{Float}
use zero_latency_yolo.Protocol.{
  BoundingBox, Detection, GameState, invalid_argument, not_initialized,
}
use zero_latency_yolo.Udp.Server.{Result, success, failure}
use zero_latency_yolo.Udp.Server.Manage.{keys_where, erase_all}
use zero_latency_yolo.Game.{GameAdapter, ClientState, Game, add_tracked_object, cs16, csgo}
use zero_latency_yolo.Game.Adapter.{get_or_create_client_state, put_client_state}

-- `CLASS_HEAD` of src/common/constants.h.
abbrev pub class_head : ℕ
class_head = 2

-- The height of a head is scaled.
unfoldable pub scaled : Float → ℕ → Detection → Detection
scaled fp factor d =
    if d.class_id == class_head
    then record d { box = record (d.box) { height = fp.mul d.box.height factor } }
    else d

-- `processCS16Detections` and `processCSGODetections`, with the counter of track ids.
unfoldable pub label_detections : Float → ℕ → ℕ → List Detection → List Detection × ℕ
label_detections fp factor next [] = ([], next)
label_detections fp factor next (d ∷ ds) =
    let fresh = d.track_id == 0 in
    let (rest, last) = label_detections fp factor (if fresh then u32 (next + 1) else next) ds in
    (scaled fp factor (record d { track_id = if fresh then next else d.track_id }) ∷ rest, last)

unfoldable pub add_all : ClientState → List Detection → ClientState
add_all c [] = c
add_all c (d ∷ ds) = add_all (add_tracked_object c d) ds

unfoldable pub is_expired : ℕ → Detection → Bool
is_expired now d = ltb 100 (sub64 now d.timestamp)

-- What `processDetections` makes of the client's tracked objects.
unfoldable pub tracked : ClientState → List Detection → ℕ → ClientState
tracked c ds now =
    let added = add_all c ds in
    record added {
      tracked_objects =
          erase_all (keys_where (is_expired now) added.tracked_objects) added.tracked_objects;
    }

-- `processDetections`.
unfoldable pub process_detections :
    Float → Game → GameAdapter → ℕ → GameState → ℕ → GameAdapter × Result GameState
process_detections fp game s id raw game_id =
    if not s.initialized
    then (s, failure not_initialized)
    else if not (game_id == game.game_id)
    then (s, failure invalid_argument)
    else let (ds, next) = label_detections fp s.head_size_factor s.next_track_id raw.detections in
      let c = tracked (get_or_create_client_state s id) ds raw.timestamp in
      (
        record (put_client_state s id c) { next_track_id = next },
        success (record raw { detections = ds }),
      )
