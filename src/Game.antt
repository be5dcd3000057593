-- ===== src/Game.antt =====
-- The state of the game adapters: `ClientState`, `WeaponInfo` and `GameAdapterBase` of
-- src/game/base/game_adapter_base.h, with the members that the adapters of src/game/games add.
pub mod Adapter
pub mod Weapons
pub mod Track
pub mod Target
pub mod Aim
pub mod Manager
mod Examples
use Prim.Native.String.{String}
use zero_latency_yolo.Base.{
  ℕ, ◌+◌, Bool, true, false, List, [], ◌∷◌, Option, none, some, not, ◌&&◌, ◌==◌, if◌then◌else◌,
}
use zero_latency_yolo.Base.Table.{lookup, insert, erase}
use zero_latency_yolo.Protocol.{Detection}

pub record WeaponInfo : Type 0 where
  pub id : ℕ
  pub name : String
  pub recoil_factor : ℕ
  pub damage : ℕ
  pub fire_rate : ℕ
  pub is_auto : Bool
  pub priority : ℕ

pub record ClientState : Type 0 where
  pub game_id : ℕ
  pub current_weapon_id : ℕ
  pub is_shooting : Bool
  pub shot_count : ℕ
  pub last_shot_time : ℕ
  pub tracked_objects : List (ℕ × Detection)

-- The members of `GameAdapterBase` and of an adapter, less the random generator, which nothing reads.
pub record GameAdapter : Type 0 where
  pub initialized : Bool
  pub next_track_id : ℕ
  pub clients : List (ℕ × ClientState)
  pub weapons : List (ℕ × WeaponInfo)
  pub aim_target_offset_y : ℕ
  pub head_size_factor : ℕ

-- The adapters for the two games differ in these alone.
pub record Game : Type 0 where
  pub name : String
  pub game_id : ℕ

abbrev pub cs16 : Game
cs16 = record { name = "cs16"; game_id = 1 }

abbrev pub csgo : Game
csgo = record { name = "csgo"; game_id = 2 }

-- `ClientState(gameId)`.
unfoldable pub new_client_state : ℕ → ClientState
new_client_state game_id = record {
  game_id = game_id;
  current_weapon_id = 0;
  is_shooting = false;
  shot_count = 0;
  last_shot_time = 0;
  tracked_objects = [];
}

-- `setCurrentWeaponId`.
unfoldable pub set_current_weapon_id : ClientState → ℕ → ClientState
set_current_weapon_id c weapon_id =
    if c.current_weapon_id == weapon_id
    then c
    else record c { current_weapon_id = weapon_id; shot_count = 0 }

-- `setShooting`.
unfoldable pub set_shooting : ClientState → Bool → ClientState
set_shooting c shooting =
    if not shooting && c.is_shooting
    then record c { is_shooting = shooting; shot_count = 0 }
    else record c { is_shooting = shooting }

-- `addTrackedObject` and `removeTrackedObject`.
unfoldable pub add_tracked_object : ClientState → Detection → ClientState
add_tracked_object c d = record c { tracked_objects = insert d.track_id d c.tracked_objects }

unfoldable pub remove_tracked_object : ClientState → ℕ → ClientState
remove_tracked_object c track_id = record c { tracked_objects = erase track_id c.tracked_objects }

-- The constructor of an adapter: an offset of -0.15 and a factor of 0.7.
abbrev pub new_adapter : GameAdapter
new_adapter = record {
  initialized = false;
  next_track_id = 1;
  clients = [];
  weapons = [];
  aim_target_offset_y = 3189348762;
  head_size_factor = 1060320051;
}
