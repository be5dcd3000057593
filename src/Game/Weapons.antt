-- ===== src/Game/Weapons.antt =====
-- `initialize`, `loadWeaponData` and `getWeaponInfo` of src/game/games/cs16/cs16_game_adapter.cpp and
-- of src/game/games/csgo/csgo_game_adapter.cpp.
use Prim.Native.String.{String}
use text.Mathlib.Text.{◌==◌ as str_eq}
use zero_latency_yolo.Base.{
  ℕ, ◌+◌, Bool, true, false, List, [], ◌∷◌, Option, none, some, if◌then◌else◌, not,
}
use zero_latency_yolo.Base.Table.{lookup, insert}
use zero_latency_yolo.Protocol.{invalid_argument}
use zero_latency_yolo.Udp.Server.{Result, success, failure, Effect, system_startup}
use zero_latency_yolo.Game.{GameAdapter, WeaponInfo, Game}

-- The members of `GameAdaptersConfig` that the adapters read.
pub record WeaponConfig : Type 0 where
  pub recoil_factor : ℕ
  pub priority : ℕ

pub record GameConfig : Type 0 where
  pub enabled : Bool
  pub aim_target_offset_y : ℕ
  pub head_size_factor : ℕ
  pub weapons : List (String × WeaponConfig)

-- The four weapons that the adapters bring.
abbrev pub standard_weapons : List (ℕ × WeaponInfo)
standard_weapons =
    (
      1,
      record {
        id = 1;
        name = "AK47";
        recoil_factor = 1075838976;
        damage = 1108344832;
        fire_rate = 1036831949;
        is_auto = true;
        priority = 1065353216;
      },
    )
    ∷ (
      2,
      record {
        id = 2;
        name = "M4A1";
        recoil_factor = 1073741824;
        damage = 1107558400;
        fire_rate = 1035489772;
        is_auto = true;
        priority = 1065353216;
      },
    )
    ∷ (
      3,
      record {
        id = 3;
        name = "AWP";
        recoil_factor = 0;
        damage = 1122369536;
        fire_rate = 1069547520;
        is_auto = false;
        priority = 1069547520;
      },
    )
    ∷ (
      4,
      record {
        id = 4;
        name = "Deagle";
        recoil_factor = 1077936128;
        damage = 1113063424;
        fire_rate = 1053609165;
        is_auto = false;
        priority = 1067030938;
      },
    )
    ∷ []

unfoldable pub configured_weapon : ℕ → String → WeaponConfig → WeaponInfo
configured_weapon id name config = record {
  id = id;
  name = name;
  recoil_factor = config.recoil_factor;
  damage = 0;
  fire_rate = 0;
  is_auto = true;
  priority = config.priority;
}

-- The loop that looks for a weapon of a name.
unfoldable pub weapon_named : String → List (ℕ × WeaponInfo) → Option ℕ
weapon_named name [] = none
weapon_named name ((id, w) ∷ weapons) =
    if str_eq w.name name then some id else weapon_named name weapons

-- The loop over the configuration, with the next id.
unfoldable pub load_weapons :
    List (String × WeaponConfig) → ℕ → List (ℕ × WeaponInfo) → List (ℕ × WeaponInfo)
load_weapons [] next weapons = weapons
load_weapons ((name, config) ∷ configs) next weapons = elim (weapon_named name weapons) [
  | some id ↦ load_weapons configs next (insert id (configured_weapon id name config) weapons)
  | none ↦
      load_weapons configs (next + 1) (insert next (configured_weapon next name config) weapons)
]

-- `loadWeaponData`.
unfoldable pub load_weapon_data : List (String × WeaponConfig) → List (ℕ × WeaponInfo)
load_weapon_data configs = load_weapons configs 5 standard_weapons

-- `initialize`. `GameAdapterBase::initialize` comes first, and always succeeds.
unfoldable pub initialize :
    Game
    → (String → Option GameConfig)
    → GameAdapter
    → GameAdapter × Result (Unit {0}) × List Effect
initialize game games s =
    let ready = record s { initialized = true } in
    elim (games game.name) [
      | none ↦ (ready, failure invalid_argument, [])
      | some config ↦ if not config.enabled then (ready, failure invalid_argument, []) else (
        record ready {
          aim_target_offset_y = config.aim_target_offset_y;
          head_size_factor = config.head_size_factor;
          weapons = load_weapon_data config.weapons;
        },
        success tt,
        system_startup ∷ [],
      )
    ]

-- A method that takes a `std::mutex`. `self_locked` is that a thread takes the one it holds, which C++
-- leaves undefined: with the usual implementations the thread waits for itself, and does not return.
pub data Locking {ℓ} (A : Type ℓ) : Type ℓ where
  done : A → Locking A
  self_locked : Locking A

-- `getWeaponInfo`, called with the mutex held or not.
unfoldable pub get_weapon_info : Bool → GameAdapter → ℕ → Locking (Option WeaponInfo)
get_weapon_info held s id = if held then self_locked else done (lookup id s.weapons)
