-- ===== src/Game/Track/Late.antt =====
-- What `processDetections` and `predictMotion` of the game adapters do where the detections are
-- stamped after the frame, as the inference engine stamps them.
use zero_latency_yolo.Base.{
  ℕ, ◌+◌, ◌^◌, ◌<◌, ◌≡◌, refl, ◌∙◌, true, List, [], ◌∷◌, Option, none, some, arith, All, inl, inr,
  u32, ◌==◌, if◌then◌else◌, if-cases, Option-cases, subst, sym,
}
use zero_latency_yolo.Base.Table.{lookup, Keys, All-insert, lookup-All}
use zero_latency_yolo.Float.{Float}
use zero_latency_yolo.Protocol.{Detection, GameState}
use zero_latency_yolo.Udp.Server.{success}
use zero_latency_yolo.Udp.Server.Sweep.{kept}
use zero_latency_yolo.Game.{GameAdapter, ClientState, Game, new_client_state}
use zero_latency_yolo.Game.Adapter.{get_or_create_client_state, put_client_state}
use zero_latency_yolo.Game.Track.{label_detections, scaled, is_expired, tracked, process_detections}
use zero_latency_yolo.Game.Track.Laws.{latest, labelled, lookup-tracked}
use zero_latency_yolo.Game.Aim.{previous_detection, predict_motion}

-- A detection is stamped after a time, before the year 292 million.
abbrev pub IsLate : ℕ → Detection → Type 0
IsLate now d = (now < d.timestamp) × (d.timestamp < 2 ^ 63)

-- No client has a tracked object.
abbrev pub TracksNothing : GameAdapter → Type 0
TracksNothing s = All (λ e. e.1.tracked_objects ≡ []) s.clients

IsLate-scaled :
    (fp : Float) (factor now : ℕ) (d : Detection) → IsLate now d → IsLate now (scaled fp factor d)
unfolding scaled
IsLate-scaled fp factor now d late = if-cases (IsLate now) (d.class_id == 2) (λ _. late) (λ _. late)

All-IsLate-label_detections :
    (fp : Float) (factor now next : ℕ) (ds : List Detection)
    → All (IsLate now) ds
    → All (IsLate now) (label_detections fp factor next ds).0
unfolding label_detections
All-IsLate-label_detections fp factor now next [] h = tt
All-IsLate-label_detections fp factor now next (d ∷ ds) h = (
  IsLate-scaled fp factor now (record d { track_id = if d.track_id == 0 then next else d.track_id })
      h.0,
  All-IsLate-label_detections fp factor now (if d.track_id == 0 then u32 (next + 1) else next) ds
      h.1,
)

kept-late : (now : ℕ) (d : Detection) → IsLate now d → kept (is_expired now) (some d) ≡ none
unfolding is_expired
kept-late now d late = ground (arith, late)

kept-latest :
    (now track_id : ℕ) (ds : List Detection) (old : Option Detection)
    → All (IsLate now) ds
    → kept (is_expired now) old ≡ none
    → kept (is_expired now) (latest track_id ds old) ≡ none
kept-latest now track_id [] old h gone = gone
kept-latest now track_id (d ∷ ds) old h gone =
    kept-latest now track_id ds (if d.track_id == track_id then some d else old) h.1 (
      if-cases (λ o. kept (is_expired now) o ≡ none) (d.track_id == track_id)
        (λ _. kept-late now d h.0) (λ _. gone))

lookup-empty {ℓ} : {V : Type ℓ} (m : List (ℕ × V)) → ((k : ℕ) → lookup k m ≡ none) → m ≡ []
unfolding lookup
lookup-empty [] h = refl
lookup-empty ((k, v) ∷ m) h = ground (arith, h k)

lookup-nil : (k : ℕ) (m : List (ℕ × Detection)) → m ≡ [] → lookup k m ≡ none
unfolding lookup
lookup-nil k [] h = refl
lookup-nil k (e ∷ m) h = cc

tracked-empty :
    (c : ClientState) (ds : List Detection) (now : ℕ)
    → c.tracked_objects ≡ []
    → All (IsLate now) ds
    → (tracked c ds now).tracked_objects ≡ []
tracked-empty c ds now empty late = lookup-empty (tracked c ds now).tracked_objects (λ k.
    lookup-tracked c ds now k (subst Keys (sym empty) tt)
    ∙ kept-latest now k ds (lookup k c.tracked_objects) late
        (ground (arith, lookup-nil k c.tracked_objects empty)))

get_or_create_client_state-empty :
    (s : GameAdapter) (id : ℕ)
    → TracksNothing s
    → (get_or_create_client_state s id).tracked_objects ≡ []
unfolding get_or_create_client_state new_client_state
get_or_create_client_state-empty s id h = elim (Option-cases (lookup id s.clients)) [
  | inl new ↦ ground (arith, new)
  | inr (c, known) ↦
      let empty = lookup-All (λ e. e.1.tracked_objects ≡ []) id c s.clients h known in
      ground (arith, known, empty)
]

previous_detection-none :
    (track_id : ℕ) (clients : List (ℕ × ClientState))
    → All (λ e. e.1.tracked_objects ≡ []) clients
    → previous_detection track_id clients ≡ none
unfolding previous_detection lookup
previous_detection-none track_id [] h = refl
previous_detection-none track_id ((id, c) ∷ clients) h =
    ground (arith, h.0, previous_detection-none track_id clients h.1)

process_detections-state :
    (fp : Float) (game : Game) (s : GameAdapter) (id : ℕ) (raw : GameState)
    → s.initialized ≡ true
    → (process_detections fp game s id raw game.game_id).0
      ≡ record (put_client_state s id
          (tracked (get_or_create_client_state s id) (labelled fp s raw) raw.timestamp)) {
            next_track_id =
                (label_detections fp s.head_size_factor s.next_track_id raw.detections).1;
          }
unfolding process_detections
process_detections-state fp game s id raw ready = ground (arith, ready)

predict_motion-TracksNothing :
    (fp : Float) (s : GameAdapter) (d : Detection) (now target : ℕ)
    → s.initialized ≡ true
    → TracksNothing s
    → predict_motion fp s d now target ≡ success d.box
unfolding predict_motion
predict_motion-TracksNothing fp s d now target ready nothing =
    ground (arith, ready, previous_detection-none d.track_id s.clients nothing)

-- While no client has a tracked object, processDetections with detections that are stamped after
-- the frame leaves it so, and predictMotion then returns the box of the detection unmoved, on an
-- initialised adapter, whatever the times.
pub predict_motion-process_detections :
    (fp : Float) (game : Game) (s : GameAdapter) (id : ℕ) (raw : GameState) (d : Detection)
    (now target : ℕ)
    → s.initialized ≡ true
    → TracksNothing s
    → All (IsLate raw.timestamp) raw.detections
    → TracksNothing (process_detections fp game s id raw game.game_id).0
      × (predict_motion fp (process_detections fp game s id raw game.game_id).0 d now target
          ≡ success d.box)
unfolding put_client_state
predict_motion-process_detections fp game s id raw d now target ready nothing late =
    let c = tracked (get_or_create_client_state s id) (labelled fp s raw) raw.timestamp in
    let next = (label_detections fp s.head_size_factor s.next_track_id raw.detections).1 in
    let after : GameAdapter = record (put_client_state s id c) { next_track_id = next } in
    let stamped =
      All-IsLate-label_detections fp s.head_size_factor raw.timestamp s.next_track_id raw.detections
        late in
    let empty =
      tracked-empty (get_or_create_client_state s id) (labelled fp s raw) raw.timestamp
        (get_or_create_client_state-empty s id nothing) stamped in
    let still = All-insert (λ e. e.1.tracked_objects ≡ []) id c s.clients empty nothing in
    subst (λ t. TracksNothing t × (predict_motion fp t d now target ≡ success d.box))
      (sym (process_detections-state fp game s id raw ready))
      (still, predict_motion-TracksNothing fp after d now target ready still)
