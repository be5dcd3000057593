-- ===== src/Game/Aim.antt =====
-- `predictMotion`, `getAimPoint` and `calculateRecoilCompensation` of
-- src/game/games/cs16/cs16_game_adapter.cpp and of src/game/games/csgo/csgo_game_adapter.cpp.
use Prim.Native.Nat.{min}
use text.Mathlib.Text.{◌==◌ as str_eq}
use zero_latency_yolo.Base.{
  ℕ, ◌+◌, ◌-◌, ◌%◌, ◌^◌, Bool, true, false, List, [], ◌∷◌, Option, none, some, not, ◌&&◌, ◌||◌, ltb,
  leb, ◌==◌, if◌then◌else◌, sub64,
}
use zero_latency_yolo.Base.Table.{lookup}
use zero_latency_yolo.Float.{Float}
use zero_latency_yolo.Protocol.{BoundingBox, Detection, not_initialized}
use zero_latency_yolo.Udp.Server.{Result, success, failure}
use zero_latency_yolo.Game.{GameAdapter, ClientState, WeaponInfo}
use zero_latency_yolo.Game.Weapons.{Locking, done, self_locked, get_weapon_info}
use zero_latency_yolo.Game.Track.{class_head}

-- `MAX_PREDICTION_FRAMES * 16` milliseconds.
abbrev pub max_prediction : ℕ
max_prediction = 192

-- The loop over the clients, for the first that tracks the object.
unfoldable pub previous_detection : ℕ → List (ℕ × ClientState) → Option Detection
previous_detection track_id [] = none
previous_detection track_id ((id, c) ∷ clients) = elim (lookup track_id c.tracked_objects) [
  | some d ↦ some d
  | none ↦ previous_detection track_id clients
]

-- A coordinate moved on by the velocity since the previous detection.
unfoldable pub moved : Float → ℕ → ℕ → ℕ → ℕ → ℕ
moved fp new old elapsed ahead = fp.add new (fp.mul (fp.div (fp.sub new old) elapsed) ahead)

unfoldable pub moved_box : Float → Detection → Detection → ℕ → ℕ → BoundingBox
moved_box fp d previous now target =
    let elapsed = fp.of_uint64 (sub64 now previous.timestamp) in
    let ahead = fp.of_uint64 (target - now) in
    let box : BoundingBox = record (d.box) {
      x = moved fp d.box.x previous.box.x elapsed ahead;
      y = moved fp d.box.y previous.box.y elapsed ahead;
    } in
    if fp.lt 0 elapsed then box else d.box

-- `predictMotion`.
unfoldable pub predict_motion : Float → GameAdapter → Detection → ℕ → ℕ → Result BoundingBox
predict_motion fp s d now target =
    if not s.initialized
    then failure not_initialized
    else if leb target now || ltb max_prediction (target - now)
    then success d.box
    else elim (previous_detection d.track_id s.clients) [
      | none ↦ success d.box
      | some previous ↦ success (moved_box fp d previous now target)
    ]

pub record Point2D : Type 0 where
  pub x : ℕ
  pub y : ℕ

-- An `int` greater than 0, from its bit pattern.
unfoldable pub is_positive : ℕ → Bool
is_positive n = ltb 0 n && ltb n (2 ^ 31)

-- 0.2 of the height above the centre of a player (`CLASS_T` or `CLASS_CT`), the centre otherwise.
unfoldable pub body_point : Float → Detection → Point2D
body_point fp d =
    if d.class_id == 0 || d.class_id == 1
    then record { x = d.box.x; y = fp.sub d.box.y (fp.mul d.box.height 1045220557) }
    else record { x = d.box.x; y = d.box.y }

-- The correction for a weapon: 0.3 of the height for a sniper's rifle that is not aimed at a head.
unfoldable pub weapon_point : Float → Detection → Option WeaponInfo → Point2D
weapon_point fp d none = body_point fp d
weapon_point fp d (some w) =
    if (str_eq w.name "AWP" || str_eq w.name "Scout") && not (d.class_id == class_head)
    then record (body_point fp d) { y = fp.sub d.box.y (fp.mul d.box.height 1050253722) }
    else body_point fp d

-- `getAimPoint`, which holds the mutex of the adapter while it calls `getWeaponInfo`.
unfoldable pub get_aim_point : Float → GameAdapter → Detection → ℕ → Locking (Result Point2D)
get_aim_point fp s d weapon_id =
    if not s.initialized
    then done (failure not_initialized)
    else if is_positive weapon_id
    then elim (get_weapon_info true s weapon_id) [
      | self_locked ↦ self_locked
      | done w ↦ done (success (weapon_point fp d w))
    ]
    else done (success (body_point fp d))

-- `-x` of a `float`.
unfoldable pub negated : ℕ → ℕ
negated x = if ltb x (2 ^ 31) then x + 2 ^ 31 else x - 2 ^ 31

-- The position in the pattern of eight shots, from which the sideways recoil is reckoned.
unfoldable pub pattern_position : ℕ → ℕ
pattern_position shots = if ltb (shots % 8) 4 then shots % 8 else 8 - shots % 8

-- 0.01 and 0.005.
unfoldable pub vertical_recoil : Float → WeaponInfo → ℕ → ℕ
vertical_recoil fp w shots = fp.mul (fp.mul w.recoil_factor (fp.of_int (min shots 10))) 1008981770

unfoldable pub horizontal_recoil : Float → WeaponInfo → ℕ → ℕ
horizontal_recoil fp w shots =
    let recoil = fp.mul (fp.mul w.recoil_factor 1000593162) (fp.of_int (pattern_position shots)) in
    if leb shots 3 then 0 else if shots % 2 == 0 then negated recoil else recoil

-- `calculateRecoilCompensation`; it does nothing for a count that is not positive.
unfoldable pub calculate_recoil_compensation :
    Float → GameAdapter → ℕ → ℕ → Locking (Result Point2D)
calculate_recoil_compensation fp s weapon_id shots =
    if not s.initialized
    then done (failure not_initialized)
    else elim (get_weapon_info false s weapon_id) [
      | self_locked ↦ self_locked
      | done none ↦ done (success (record { x = 0; y = 0 }))
      | done (some w) ↦
          if w.is_auto && ltb 0 shots
          then done (
              success (record { x = horizontal_recoil fp w shots; y = vertical_recoil fp w shots }))
          else done (success (record { x = 0; y = 0 }))
    ]
