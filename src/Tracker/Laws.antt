-- ===== src/Tracker/Laws.antt =====
-- What every operation of `MultiObjectTracker` of src/game/kalman_tracker.cpp keeps.
use zero_latency_yolo.Base.{
  ℕ, ◌+◌, ◌≤◌, ◌≡◌, refl, List, [], ◌∷◌, Option, arith, length, length-append, u32, ◌||◌, All,
  if-cases, some-cases, ◌==◌, get_elem?,
}
use zero_latency_yolo.Base.Table.{lookup, insert, Keys, Absent, Keys-insert, All-insert, lookup-All}
use zero_latency_yolo.Float.{Float}
use zero_latency_yolo.Protocol.{BoundingBox, Detection}
use zero_latency_yolo.Tracker.{
  KalmanFilter, KalmanTracker, new_tracker, update_tracker, predict_tracker, with_box,
}
use zero_latency_yolo.Tracker.Match.{
  is_detection_matched, predict_all, cost_row, cost_matrix, match_detections_to_trackers,
}
use zero_latency_yolo.Tracker.Multi.{add_unmatched, update_match, update_matches}

length-with_box :
    (history : List BoundingBox) (box : BoundingBox)
    → length history ≤ 30
    → length (with_box history box) ≤ 30
unfolding with_box
length-with_box [] box h = omega arith
length-with_box (b ∷ bs) box h = ground (arith, h, length-append bs (box ∷ []))

module _ {ℓ} {F : Type ℓ} where
  -- A tracker under its own id, with 30 boxes at most.
  abbrev pub IsTracked : ℕ × KalmanTracker F → Type 0
  IsTracked (id, t) = (t.track_id ≡ id) × (length t.history ≤ 30)

  -- No id stands twice.
  abbrev pub AreTracked : List (ℕ × KalmanTracker F) → Type 0
  AreTracked trackers = Keys trackers × All IsTracked trackers

module _ {ℓ} {F : Type ℓ} (fp : Float) (filter : KalmanFilter F)
    (hungarian : List (List ℕ) → List (Option ℕ)) where
  Absent-predict_all :
      (k timestamp : ℕ) (ts : List (ℕ × KalmanTracker F))
      → Absent k ts
      → Absent k (predict_all fp filter hungarian timestamp ts)
  unfolding predict_all
  Absent-predict_all k timestamp [] h = tt
  Absent-predict_all k timestamp ((id, t) ∷ ts) h = (h.0, Absent-predict_all k timestamp ts h.1)

  predict_tracker-IsTracked :
      (id timestamp : ℕ) (t : KalmanTracker F)
      → IsTracked (id, t)
      → IsTracked (id, (predict_tracker fp filter t timestamp).0)
  unfolding predict_tracker
  predict_tracker-IsTracked id timestamp t h = h

  pub predict_all-AreTracked :
      (timestamp : ℕ) (ts : List (ℕ × KalmanTracker F))
      → AreTracked ts
      → AreTracked (predict_all fp filter hungarian timestamp ts)
  unfolding predict_all
  predict_all-AreTracked timestamp [] h = (tt, tt)
  predict_all-AreTracked timestamp ((id, t) ∷ ts) h =
      let rest = predict_all-AreTracked timestamp ts (h.0.1, h.1.1) in
      (
        (Absent-predict_all id timestamp ts h.0.0, rest.0),
        (predict_tracker-IsTracked id timestamp t h.1.0, rest.1),
      )

  Absent-cost_row :
      (k : ℕ) (d : Detection) (ts : List (ℕ × KalmanTracker F))
      → Absent k ts
      → Absent k (cost_row fp filter hungarian d ts).1
  unfolding cost_row
  Absent-cost_row k d [] h = tt
  Absent-cost_row k d ((id, t) ∷ ts) h = (h.0, Absent-cost_row k d ts h.1)

  cost_row-AreTracked :
      (d : Detection) (ts : List (ℕ × KalmanTracker F))
      → AreTracked ts
      → AreTracked (cost_row fp filter hungarian d ts).1
  unfolding cost_row
  cost_row-AreTracked d [] h = (tt, tt)
  cost_row-AreTracked d ((id, t) ∷ ts) h =
      let rest = cost_row-AreTracked d ts (h.0.1, h.1.1) in
      (
        (Absent-cost_row id d ts h.0.0, rest.0),
        (predict_tracker-IsTracked id d.timestamp t h.1.0, rest.1),
      )

  cost_matrix-AreTracked :
      (ds : List Detection) (ts : List (ℕ × KalmanTracker F))
      → AreTracked ts
      → AreTracked (cost_matrix fp filter hungarian ds ts).1
  unfolding cost_matrix
  cost_matrix-AreTracked [] ts h = h
  cost_matrix-AreTracked (d ∷ ds) ts h =
      cost_matrix-AreTracked ds (cost_row fp filter hungarian d ts).1 (cost_row-AreTracked d ts h)

  pub match_detections_to_trackers-AreTracked :
      (threshold : ℕ) (ds : List Detection) (ts : List (ℕ × KalmanTracker F))
      → AreTracked ts
      → AreTracked (match_detections_to_trackers fp filter hungarian threshold ds ts).1
  unfolding match_detections_to_trackers
  match_detections_to_trackers-AreTracked threshold ds ts h =
      if-cases (λ (r : List (ℕ × ℕ) × List (ℕ × KalmanTracker F)). AreTracked r.1)
        (length ds == 0 || length ts == 0) (λ _. h) (λ _. cost_matrix-AreTracked ds ts h)

  insert-AreTracked :
      (id : ℕ) (t : KalmanTracker F) (ts : List (ℕ × KalmanTracker F))
      → IsTracked (id, t)
      → AreTracked ts
      → AreTracked (insert id t ts)
  insert-AreTracked id t ts p h = (Keys-insert id t ts h.0, All-insert IsTracked id t ts p h.1)

  new_tracker-IsTracked : (d : Detection) (id : ℕ) → IsTracked (id, new_tracker fp filter d id)
  unfolding new_tracker
  new_tracker-IsTracked d id = (refl, omega arith)

  pub add_unmatched-AreTracked :
      (pairs : List (ℕ × ℕ)) (i : ℕ) (ds : List Detection) (next : ℕ)
      (ts : List (ℕ × KalmanTracker F))
      → AreTracked ts
      → AreTracked (add_unmatched fp filter hungarian pairs i ds next ts).1
  unfolding add_unmatched
  add_unmatched-AreTracked pairs i [] next ts h = h
  add_unmatched-AreTracked pairs i (d ∷ ds) next ts h =
      if-cases (λ (r : ℕ × List (ℕ × KalmanTracker F)). AreTracked r.1)
        (is_detection_matched i pairs) (λ _. add_unmatched-AreTracked pairs (i + 1) ds next ts h)
        (λ _.
          add_unmatched-AreTracked pairs (i + 1) ds (u32 (next + 1))
            (insert next (new_tracker fp filter d next) ts)
            (insert-AreTracked next (new_tracker fp filter d next) ts (new_tracker-IsTracked d next)
              h))

  update_tracker-IsTracked :
      (id : ℕ) (t : KalmanTracker F) (d : Detection)
      → IsTracked (id, t)
      → IsTracked (id, update_tracker fp filter t d)
  unfolding update_tracker
  update_tracker-IsTracked id t d h = (h.0, length-with_box t.history d.box h.1)

  update_match-AreTracked :
      (ds : List Detection) (active : List ℕ) (i j : ℕ) (ts : List (ℕ × KalmanTracker F))
      → AreTracked ts
      → AreTracked (update_match fp filter hungarian ds active i j ts)
  unfolding update_match
  update_match-AreTracked ds active i j ts h =
      some-cases AreTracked (get_elem? active j) (λ _. h)
        (λ id _.
          some-cases AreTracked (get_elem? ds i) (λ _. h)
            (λ d _.
              some-cases AreTracked (lookup id ts) (λ _. h)
                (λ t found.
                  insert-AreTracked id (update_tracker fp filter t d) ts
                    (update_tracker-IsTracked id t d (lookup-All IsTracked id t ts h.1 found)) h)))

  pub update_matches-AreTracked :
      (ds : List Detection) (active : List ℕ) (pairs : List (ℕ × ℕ))
      (ts : List (ℕ × KalmanTracker F))
      → AreTracked ts
      → AreTracked (update_matches fp filter hungarian ds active pairs ts)
  unfolding update_matches
  update_matches-AreTracked ds active [] ts h = h
  update_matches-AreTracked ds active ((i, j) ∷ pairs) ts h =
      update_matches-AreTracked ds active pairs (update_match fp filter hungarian ds active i j ts)
        (update_match-AreTracked ds active i j ts h)
