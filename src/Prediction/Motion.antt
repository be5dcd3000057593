-- ===== src/Prediction/Motion.antt =====
-- `update` of src/client/prediction_engine.cpp: the velocity and the acceleration of each track, and the
-- removal of old tracks.
use zero_latency_yolo.Base.{
  ℕ, ◌+◌, ◌/◌, List, [], ◌∷◌, Option, none, some, Bool, length, ltb, leb, not, ◌&&◌, ◌||◌,
  if◌then◌else◌, sub64,
}
use zero_latency_yolo.Float.{Float}
use zero_latency_yolo.Protocol.{Detection}
use zero_latency_yolo.Udp.Server.Manage.{keys_where, erase_all}
use zero_latency_yolo.Prediction.{
  PredictionEngine, TrackingHistory, Vector2D, no_motion, seconds, thousandth, back,
}

-- The last element that passes a test.
unfoldable pub last_where : (Detection → Bool) → List Detection → Option Detection
last_where test [] = none
last_where test (d ∷ ds) = elim (last_where test ds) [
  | none ↦ if test d then some d else none
  | some found ↦ some found
]

-- The change from one detection to another, per second.
unfoldable pub speed : Float → Detection → Detection → Vector2D
speed fp earliest latest =
    let dt = seconds fp (sub64 latest.timestamp earliest.timestamp) in
    if fp.lt dt thousandth then no_motion else record {
      x = fp.div (fp.sub latest.box.x earliest.box.x) dt;
      y = fp.div (fp.sub latest.box.y earliest.box.y) dt;
    }

-- `calculateVelocity`.
unfoldable pub calculate_velocity : Float → List Detection → ℕ → Vector2D
calculate_velocity fp [] window = no_motion
calculate_velocity fp (d ∷ []) window = no_motion
calculate_velocity fp (first ∷ (second ∷ more)) window = elim (back (first ∷ (second ∷ more))) [
  | none ↦ no_motion
  | some latest ↦
      elim (last_where (λ d. leb window (sub64 latest.timestamp d.timestamp))
        (first ∷ (second ∷ more))) [
          | none ↦ speed fp first latest
          | some earliest ↦ speed fp earliest latest
        ]
]

-- The two windows of `calculateAcceleration`, the last 50 ms and the 100 ms before them.
unfoldable pub is_recent : ℕ → Detection → Bool
is_recent latest d = leb (sub64 latest d.timestamp) 50

unfoldable pub is_older : ℕ → Detection → Bool
is_older latest d = not (is_recent latest d) && leb (sub64 latest d.timestamp) (100 + 50)

unfoldable pub selected : (Detection → Bool) → List Detection → List Detection
selected test [] = []
selected test (d ∷ ds) = if test d then d ∷ selected test ds else selected test ds

-- `calculateAcceleration`, which does not read its second argument.
unfoldable pub calculate_acceleration : Float → List Detection → Vector2D
calculate_acceleration fp history = elim (back history) [
  | none ↦ no_motion
  | some latest ↦
      let recent = selected (is_recent latest.timestamp) history in
      let older = selected (is_older latest.timestamp) history in
      let recent_velocity = calculate_velocity fp recent 50 in
      let older_velocity = calculate_velocity fp older 100 in
      let dt = seconds fp (50 + 100 / 2) in
      if ltb (length history) 3
        || ltb (length recent) 2
        || ltb (length older) 2
        || fp.lt dt thousandth
      then no_motion
      else record {
        x = fp.div (fp.sub recent_velocity.x older_velocity.x) dt;
        y = fp.div (fp.sub recent_velocity.y older_velocity.y) dt;
      }
]

-- `updateTrack`.
unfoldable pub update_track : Float → TrackingHistory → TrackingHistory
update_track fp t =
    if ltb 0 (length t.history)
    then record t {
      velocity = calculate_velocity fp t.history 100;
      acceleration = calculate_acceleration fp t.history;
    }
    else t

-- The loop of `update`.
unfoldable pub update_tracks : Float → List (ℕ × TrackingHistory) → List (ℕ × TrackingHistory)
update_tracks fp [] = []
update_tracks fp ((id, t) ∷ ts) = (id, update_track fp t) ∷ update_tracks fp ts

unfoldable pub is_old : ℕ → ℕ → TrackingHistory → Bool
is_old max_age now t = ltb max_age (sub64 now t.last_update_time)

-- `pruneOldTracks`.
unfoldable pub prune_old_tracks : PredictionEngine → ℕ → PredictionEngine
prune_old_tracks s now =
    let gone = keys_where (is_old s.max_track_age_ms now) s.tracks in
    record s { tracks = erase_all gone s.tracks; filters = erase_all gone s.filters }

-- `update`.
unfoldable pub update : Float → PredictionEngine → ℕ → PredictionEngine
update fp s now = prune_old_tracks (record s { tracks = update_tracks fp s.tracks }) now
