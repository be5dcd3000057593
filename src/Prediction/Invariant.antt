-- ===== src/Prediction/Invariant.antt =====
-- What holds of a `PredictionEngine` of src/client/prediction_engine.cpp after any calls.
use zero_latency_yolo.Base.{
  ℕ, ◌-◌, ◌≤◌, ◌≡◌, ◌≢◌, refl, List, [], ◌∷◌, ◌++◌, some, true, length, ltb, ◌==◌, All, All-append,
  All-drop, length-append, length-drop, arith, if-cases, Bool-cases, some-cases, Option-cases, inl,
  inr, get_elem?,
}
use zero_latency_yolo.Base.Table.{
  lookup, insert, erase, Keys, Absent, Keys-insert, All-insert, lookup-All,
}
use zero_latency_yolo.Float.{Float}
use zero_latency_yolo.Protocol.{Detection}
use zero_latency_yolo.Udp.Server.Manage.{keys_where, erase_all}
use zero_latency_yolo.Udp.Server.Sweep.{Keys-erase_all, All-erase_all}
use zero_latency_yolo.Prediction.{
  PredictionEngine, PredictionParams, TrackingHistory, KalmanFilter, new_engine, first_track,
  first_filter, extended, kalman_step, apply_kalman_filter, update_filter, add_detection,
  clear_tracks,
}
use zero_latency_yolo.Prediction.Motion.{
  update_track, update_tracks, prune_old_tracks, update, is_old,
}

-- A track has one to ten detections, which carry its id.
abbrev pub IsTrack : ℕ × TrackingHistory → Type 0
IsTrack (id, t) =
    (id ≢ 0)
    × (1 ≤ length t.history)
    × (length t.history ≤ 10)
    × All (λ d. d.track_id ≡ id) t.history

-- There is one initialised filter for each track, in the same order.
abbrev pub Paired : List (ℕ × TrackingHistory) → List (ℕ × KalmanFilter) → Type 0
Paired [] [] = Unit {0}
Paired [] (f ∷ fs) = ⊥
Paired (t ∷ ts) [] = ⊥
Paired ((k, t) ∷ ts) ((j, f) ∷ fs) = (k ≡ j) × (f.initialized ≡ true) × Paired ts fs

pub record IsEngine (s : PredictionEngine) : Type 0 where
  pub keys : Keys s.tracks
  pub tracked : All IsTrack s.tracks
  pub paired : Paired s.tracks s.filters

pub Paired-insert :
    (k : ℕ) (t : TrackingHistory) (f : KalmanFilter) (ts : List (ℕ × TrackingHistory))
    (fs : List (ℕ × KalmanFilter))
    → f.initialized ≡ true
    → Paired ts fs
    → Paired (insert k t ts) (insert k f fs)
unfolding insert
Paired-insert k t f [] [] i h = (refl, i, tt)
Paired-insert k t f [] (g ∷ fs) i h = elim h [ ]
Paired-insert k t f (u ∷ ts) [] i h = elim h [ ]
Paired-insert k t f ((j, u) ∷ ts) ((l, g) ∷ fs) i h =
    ground (arith, Paired-insert k t f ts fs i h.2)

pub Paired-erase :
    (k : ℕ) (ts : List (ℕ × TrackingHistory)) (fs : List (ℕ × KalmanFilter))
    → Paired ts fs
    → Paired (erase k ts) (erase k fs)
unfolding erase
Paired-erase k [] [] h = tt
Paired-erase k [] (g ∷ fs) h = elim h [ ]
Paired-erase k (u ∷ ts) [] h = elim h [ ]
Paired-erase k ((j, u) ∷ ts) ((l, g) ∷ fs) h = ground (arith, Paired-erase k ts fs h.2)

Paired-erase_all :
    (ks : List ℕ) (ts : List (ℕ × TrackingHistory)) (fs : List (ℕ × KalmanFilter))
    → Paired ts fs
    → Paired (erase_all ks ts) (erase_all ks fs)
unfolding erase_all
Paired-erase_all [] ts fs h = h
Paired-erase_all (k ∷ ks) ts fs h =
    Paired-erase_all ks (erase k ts) (erase k fs) (Paired-erase k ts fs h)

pub Paired-lookup :
    (k : ℕ) (t : TrackingHistory) (ts : List (ℕ × TrackingHistory)) (fs : List (ℕ × KalmanFilter))
    → Paired ts fs
    → lookup k ts ≡ some t
    → (f : KalmanFilter) × (lookup k fs ≡ some f) × (f.initialized ≡ true)
unfolding lookup
Paired-lookup k t [] fs h e = cc
Paired-lookup k t (u ∷ ts) [] h e = elim h [ ]
Paired-lookup k t ((j, u) ∷ ts) ((l, g) ∷ fs) h e = elim (Bool-cases (j == k)) [
  | inl hit ↦ (g, ground arith, ground arith)
  | inr miss ↦
      let (f, found, ready) = Paired-lookup k t ts fs h.2 (ground arith) in (f, ground arith, ready)
]

apply_kalman_filter-initialized :
    (fp : Float) (params : PredictionParams) (history : List Detection) (d : Detection)
    (f : KalmanFilter)
    → f.initialized ≡ true
    → (apply_kalman_filter fp params history d f).initialized ≡ true
unfolding apply_kalman_filter kalman_step
apply_kalman_filter-initialized fp params history d f h =
    elim (Option-cases (get_elem? history (length history - 2))) [
      | inl nothing ↦ rw nothing (ground arith)
      | inr (prev, found) ↦ rw found (ground arith)
    ]

IsTrack-extended :
    (id : ℕ) (t : TrackingHistory) (d : Detection)
    → d.track_id ≡ id
    → IsTrack (id, t)
    → IsTrack (id, record t { history = extended t.history d; last_update_time = d.timestamp })
unfolding extended
IsTrack-extended id t d same (nonzero, some_seen, few, marked) =
    let P : Detection → Type 0 = λ d. d.track_id ≡ id in
    let longer = t.history ++ (d ∷ []) in
    let all = All-append P t.history (d ∷ []) marked (same, tt) in
    (
      nonzero,
      ground (arith, length-append t.history (d ∷ []), length-drop 1 longer),
      ground (arith, length-append t.history (d ∷ []), length-drop 1 longer),
      if-cases (All P) (ltb 10 (length longer)) (λ _. All-drop P 1 longer all) (λ _. all),
    )

pub add_detection-IsEngine :
    (fp : Float) (s : PredictionEngine) (d : Detection)
    → IsEngine s
    → IsEngine (add_detection fp s d)
unfolding add_detection update_filter
add_detection-IsEngine fp s d v =
    if-cases IsEngine (d.track_id == 0) (λ _. v)
      (λ nonzero.
        some-cases IsEngine (lookup d.track_id s.tracks)
          (λ new. record {
            keys = Keys-insert d.track_id (first_track d) s.tracks v.keys;
            tracked =
                All-insert IsTrack d.track_id (first_track d) s.tracks
                  (unfold first_track in (ground arith, omega arith, omega arith, (refl, tt)))
                  v.tracked;
            paired =
                Paired-insert d.track_id (first_track d) (first_filter s.params d) s.tracks
                  s.filters (unfold first_filter in refl) v.paired;
          })
          (λ t old.
            let history = extended t.history d in
            let next = record t { history = history; last_update_time = d.timestamp } in
            let (f, found, ready) = Paired-lookup d.track_id t s.tracks s.filters v.paired old in
            record {
              keys = Keys-insert d.track_id next s.tracks v.keys;
              tracked =
                  All-insert IsTrack d.track_id next s.tracks
                    (IsTrack-extended d.track_id t d refl
                      (lookup-All IsTrack d.track_id t s.tracks v.tracked old))
                    v.tracked;
              paired =
                  rw (found, update_filter)
                    (Paired-insert d.track_id next (apply_kalman_filter fp s.params history d f)
                      s.tracks s.filters
                      (apply_kalman_filter-initialized fp s.params history d f ready) v.paired);
            }))

Absent-update_tracks :
    (fp : Float) (k : ℕ) (ts : List (ℕ × TrackingHistory))
    → Absent k ts
    → Absent k (update_tracks fp ts)
unfolding update_tracks
Absent-update_tracks fp k [] h = tt
Absent-update_tracks fp k ((j, t) ∷ ts) h = (h.0, Absent-update_tracks fp k ts h.1)

Keys-update_tracks :
    (fp : Float) (ts : List (ℕ × TrackingHistory)) → Keys ts → Keys (update_tracks fp ts)
unfolding update_tracks
Keys-update_tracks fp [] h = tt
Keys-update_tracks fp ((j, t) ∷ ts) h =
    (Absent-update_tracks fp j ts h.0, Keys-update_tracks fp ts h.1)

pub history-update_track :
    (fp : Float) (t : TrackingHistory) → (update_track fp t).history ≡ t.history
unfolding update_track
history-update_track fp t =
    if-cases (λ (u : TrackingHistory). u.history ≡ t.history) _ (λ _. refl) (λ _. refl)

IsTrack-update_tracks :
    (fp : Float) (ts : List (ℕ × TrackingHistory))
    → All IsTrack ts
    → All IsTrack (update_tracks fp ts)
unfolding update_tracks
IsTrack-update_tracks fp [] h = tt
IsTrack-update_tracks fp ((j, t) ∷ ts) h = (
  (
    h.0.0,
    rw (history-update_track fp t) (h.0.1),
    rw (history-update_track fp t) (h.0.2),
    rw (history-update_track fp t) (h.0.3),
  ),
  IsTrack-update_tracks fp ts h.1,
)

Paired-update_tracks :
    (fp : Float) (ts : List (ℕ × TrackingHistory)) (fs : List (ℕ × KalmanFilter))
    → Paired ts fs
    → Paired (update_tracks fp ts) fs
unfolding update_tracks
Paired-update_tracks fp [] [] h = tt
Paired-update_tracks fp [] (f ∷ fs) h = elim h [ ]
Paired-update_tracks fp (t ∷ ts) [] h = elim h [ ]
Paired-update_tracks fp ((k, t) ∷ ts) ((j, f) ∷ fs) h =
    (h.0, h.1, Paired-update_tracks fp ts fs h.2)

pub prune_old_tracks-IsEngine :
    (s : PredictionEngine) (now : ℕ) → IsEngine s → IsEngine (prune_old_tracks s now)
unfolding prune_old_tracks
prune_old_tracks-IsEngine s now v =
    let gone = keys_where (is_old s.max_track_age_ms now) s.tracks in
    record {
      keys = Keys-erase_all gone s.tracks v.keys;
      tracked = All-erase_all IsTrack gone s.tracks v.tracked;
      paired = Paired-erase_all gone s.tracks s.filters v.paired;
    }

pub update-IsEngine :
    (fp : Float) (s : PredictionEngine) (now : ℕ) → IsEngine s → IsEngine (update fp s now)
unfolding update
update-IsEngine fp s now v =
    prune_old_tracks-IsEngine (record s { tracks = update_tracks fp s.tracks }) now
      (record {
        keys = Keys-update_tracks fp s.tracks v.keys;
        tracked = IsTrack-update_tracks fp s.tracks v.tracked;
        paired = Paired-update_tracks fp s.tracks s.filters v.paired;
      })

-- The calls that change an engine.
pub data Call : Type 0 where
  add : Detection → Call
  tick : ℕ → Call
  clear : Call

unfoldable pub call : Float → PredictionEngine → Call → PredictionEngine
call fp s (add d) = add_detection fp s d
call fp s (tick now) = update fp s now
call fp s clear = clear_tracks s

unfoldable pub calls : Float → PredictionEngine → List Call → PredictionEngine
calls fp s [] = s
calls fp s (c ∷ cs) = calls fp (call fp s c) cs

call-IsEngine : (fp : Float) (s : PredictionEngine) (c : Call) → IsEngine s → IsEngine (call fp s c)
unfolding call clear_tracks
call-IsEngine fp s (add d) v = add_detection-IsEngine fp s d v
call-IsEngine fp s (tick now) v = update-IsEngine fp s now v
call-IsEngine fp s clear v = record { keys = tt; tracked = tt; paired = tt }

kept-IsEngine :
    (fp : Float) (s : PredictionEngine) (cs : List Call) → IsEngine s → IsEngine (calls fp s cs)
unfolding calls
kept-IsEngine fp s [] v = v
kept-IsEngine fp s (c ∷ cs) v = kept-IsEngine fp (call fp s c) cs (call-IsEngine fp s c v)

-- After any calls of a new engine, in any order: no id has two tracks, each track has one to ten
-- detections, which carry its id, and each track has a filter, which is initialised, and each filter a
-- track.
pub calls-IsEngine :
    (fp : Float) (params : PredictionParams) (cs : List Call)
    → IsEngine (calls fp (new_engine fp params) cs)
calls-IsEngine fp params cs =
    kept-IsEngine fp (new_engine fp params) cs
      (unfold new_engine in record { keys = tt; tracked = tt; paired = tt })
