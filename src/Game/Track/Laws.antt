-- ===== src/Game/Track/Laws.antt =====
-- What `processDetections` of the game adapters keeps of a client's tracked objects.
use zero_latency_yolo.Base.{
  ℕ, zero, suc, ◌+◌, ◌%◌, ◌^◌, ◌<◌, ◌≡◌, refl, ◌∙◌, ap, true, List, [], ◌∷◌, Option, none, some,
  arith, ◌==◌, leb, ◌&&◌, u32, take, get_elem?, Bool-cases, inl, inr, if◌then◌else◌,
}
use zero_latency_yolo.Base.Table.{lookup, Keys, Keys-insert, lookup-insert}
use zero_latency_yolo.Float.{Float}
use zero_latency_yolo.Protocol.{Detection, GameState}
use zero_latency_yolo.Udp.Server.{success}
use zero_latency_yolo.Udp.Server.Sweep.{kept, lookup-sweep}
use zero_latency_yolo.Game.{GameAdapter, ClientState, Game, add_tracked_object}
use zero_latency_yolo.Game.Adapter.{get_or_create_client_state, put_client_state}
use zero_latency_yolo.Game.Track.{
  scaled, label_detections, add_all, is_expired, tracked, process_detections,
}

-- The last detection with a track id, or an older one.
abbrev pub latest : ℕ → List Detection → Option Detection → Option Detection
latest track_id [] old = old
latest track_id (d ∷ ds) old = latest track_id ds (if d.track_id == track_id then some d else old)

add_all_lem :
    (ds : List Detection) (c : ClientState) (track_id : ℕ)
    → Keys c.tracked_objects
    → Keys (add_all c ds).tracked_objects
      × (lookup track_id (add_all c ds).tracked_objects
          ≡ latest track_id ds (lookup track_id c.tracked_objects))
unfolding add_all add_tracked_object
add_all_lem [] c track_id h = (h, refl)
add_all_lem (d ∷ ds) c track_id h =
    let (keys, found) =
      add_all_lem ds (add_tracked_object c d) track_id
        (Keys-insert d.track_id d c.tracked_objects h) in
    (keys, found ∙ ap (latest track_id ds) (lookup-insert d.track_id track_id d c.tracked_objects))

-- The frame's detections as they are returned.
abbrev pub labelled : Float → GameAdapter → GameState → List Detection
labelled fp s raw = (label_detections fp s.head_size_factor s.next_track_id raw.detections).0

pub lookup-tracked :
    (c : ClientState) (ds : List Detection) (now track_id : ℕ)
    → Keys c.tracked_objects
    → lookup track_id (tracked c ds now).tracked_objects
      ≡ kept (is_expired now) (latest track_id ds (lookup track_id c.tracked_objects))
unfolding tracked
lookup-tracked c ds now track_id h =
    let (keys, found) = add_all_lem ds c track_id h in
    lookup-sweep (is_expired now) track_id (add_all c ds).tracked_objects keys
    ∙ ap (kept (is_expired now)) found

-- How many detections come without a track id.
abbrev pub unnamed : List Detection → ℕ
unnamed [] = 0
unnamed (d ∷ ds) = if d.track_id == 0 then 1 + unnamed ds else unnamed ds

-- A detection as it is to be returned: one without a track id has a fresh one, and the height of the
-- box of a head (class 2) is scaled.
abbrev pub named : Float → ℕ → ℕ → Detection → Detection
named fp factor fresh d = record d {
  track_id = if d.track_id == 0 then fresh else d.track_id;
  box = if d.class_id == 2 then record (d.box) { height = fp.mul d.box.height factor } else d.box;
}

abbrev pub named_if : Float → ℕ → ℕ → Option Detection → Option Detection
named_if fp factor fresh none = none
named_if fp factor fresh (some d) = some (named fp factor fresh d)

-- A detection that is stamped neither after the time nor more than 100 ms before it.
abbrev pub recent : ℕ → Option Detection → Option Detection
recent now none = none
recent now (some d) = if leb d.timestamp now && leb now (d.timestamp + 100) then some d else none

scaled-named :
    (fp : Float) (factor next : ℕ) (d : Detection)
    → scaled fp factor (record d { track_id = if d.track_id == 0 then next else d.track_id })
      ≡ named fp factor next d
unfolding scaled
scaled-named fp factor next d = ground arith

get_elem?-label_detections :
    (fp : Float) (factor next i : ℕ) (ds : List Detection)
    → next < 2 ^ 32
    → get_elem? (label_detections fp factor next ds).0 i
      ≡ named_if fp factor ((next + unnamed (take i ds)) % 2 ^ 32) (get_elem? ds i)
unfolding label_detections
get_elem?-label_detections fp factor next i [] h = refl
get_elem?-label_detections fp factor next zero (d ∷ ds) h =
    let same : next ≡ (next + 0) % 2 ^ 32 = omega (arith, h) in
    ap some (scaled-named fp factor next d ∙ ap (λ n. named fp factor n d) same)
get_elem?-label_detections fp factor next (suc i) (d ∷ ds) h = elim (Bool-cases (d.track_id == 0)) [
  | inl fresh ↦
      let small : u32 (next + 1) < 2 ^ 32 = omega arith in
      let sum : (u32 (next + 1) + unnamed (take i ds)) % 2 ^ 32
          ≡ (next + (1 + unnamed (take i ds))) % 2 ^ 32 =
        omega arith in
      rw (fresh) (
        get_elem?-label_detections fp factor (u32 (next + 1)) i ds small
        ∙ ap (λ n. named_if fp factor n (get_elem? ds i)) sum)
  | inr own ↦ rw (own) (get_elem?-label_detections fp factor next i ds h)
]

kept-recent :
    (now : ℕ) (o : Option Detection)
    → now < 2 ^ 63
    → ((d : Detection) → o ≡ some d → d.timestamp < 2 ^ 63)
    → kept (is_expired now) o ≡ recent now o
unfolding is_expired
kept-recent now none small stamped = refl
kept-recent now (some d) small stamped = ground (arith, small, stamped d refl)

-- On an initialised adapter and for its own game processDetections returns the state with as many
-- detections, in order: one with a track id keeps it, the others get the next ids of the adapter, in
-- 32 bits, and the boxes of heads are scaled. It stores for the client under each track id the last of
-- these with it, else what was there, if that is stamped neither after the state nor more than 100 ms
-- before it, and otherwise nothing, where no track id stands twice among the client's objects, the
-- next id fits its type and the two stamps are below 2 ^ 63.
pub lookup-process_detections :
    (fp : Float) (game : Game) (s : GameAdapter) (id track_id : ℕ) (raw : GameState)
    → s.initialized ≡ true
    → s.next_track_id < 2 ^ 32
    → Keys (get_or_create_client_state s id).tracked_objects
    → raw.timestamp < 2 ^ 63
    → ((d : Detection)
        → latest track_id
            (labelled fp s raw)
            (lookup track_id (get_or_create_client_state s id).tracked_objects)
          ≡ some d
        → d.timestamp < 2 ^ 63)
    → (c : ClientState) × ((process_detections fp game s id raw game.game_id).1
        ≡ success (record raw { detections = labelled fp s raw }))
      × ((i : ℕ)
          → get_elem? (labelled fp s raw) i
            ≡ named_if fp s.head_size_factor
                ((s.next_track_id + unnamed (take i raw.detections)) % 2 ^ 32)
                (get_elem? raw.detections i))
      × (lookup id (process_detections fp game s id raw game.game_id).0.clients ≡ some c)
      × (lookup track_id c.tracked_objects
          ≡ recent raw.timestamp (
              latest track_id
                (labelled fp s raw)
                (lookup track_id (get_or_create_client_state s id).tracked_objects)))
unfolding process_detections put_client_state
lookup-process_detections fp game s id track_id raw ready fits keys small stamped =
    let c = tracked (get_or_create_client_state s id) (labelled fp s raw) raw.timestamp in
    let last =
      latest track_id (labelled fp s raw)
        (lookup track_id (get_or_create_client_state s id).tracked_objects) in
    (
      c,
      ground (arith, ready),
      (λ i. get_elem?-label_detections fp s.head_size_factor s.next_track_id i raw.detections fits),
      ground (arith, ready, lookup-insert id id c s.clients),
      lookup-tracked (get_or_create_client_state s id) (labelled fp s raw) raw.timestamp track_id
            keys
          ∙ kept-recent raw.timestamp last small stamped,
    )
