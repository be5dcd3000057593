-- ===== src/ServerConfig/Adapters.antt =====
-- `GameAdaptersConfig` of src/server/config.h as JSON, with `WeaponConfig` and `GameConfig`.
use Prim.Native.String.{String}
use text.Mathlib.Text.{◌==◌ as str_eq}
use text.Mathlib.TextEquality.{eq_iff}
use zero_latency_yolo.Base.{
  ◌≡◌, refl, true, false, List, [], ◌∷◌, Option, none, some, arith, if◌then◌else◌,
}
use zero_latency_yolo.Base.Maybe.{◌>>=◌}
use zero_latency_yolo.Game.Weapons.{WeaponConfig, GameConfig}
use zero_latency_yolo.ServerConfig.Json.{Json, read, assign_all, find_key}

-- `map[key] = value`.
unfoldable pub put {ℓ} : {V : Type ℓ} → String → V → List (String × V) → List (String × V)
put key value [] = (key, value) ∷ []
put key value ((k, old) ∷ more) =
    if str_eq k key then (k, value) ∷ more else (k, old) ∷ put key value more

abbrev pub default_weapon : WeaponConfig
default_weapon = record { recoil_factor = 1065353216; priority = 1065353216 }

-- An offset of -0.15 and a factor of 0.7.
abbrev pub default_game : GameConfig
default_game = record {
  enabled = false;
  aim_target_offset_y = 3189348762;
  head_size_factor = 1060320051;
  weapons = [];
}

-- The default constructor of `GameAdaptersConfig`, with its four weapons.
abbrev pub default_games : List (String × GameConfig)
default_games =
    (
      "cs16",
      record default_game {
        enabled = true;
        weapons =
            ("ak47", record { recoil_factor = 1075838976; priority = 1065353216 })
            ∷ ("m4a1", record { recoil_factor = 1073741824; priority = 1065353216 })
            ∷ ("awp", record { recoil_factor = 0; priority = 1069547520 })
            ∷ ("deagle", record { recoil_factor = 1077936128; priority = 1067030938 })
            ∷ [];
      },
    )
    ∷ []

-- `WeaponConfig::to_json` and `WeaponConfig::from_json`.
unfoldable pub weapon_json : (j : Json) → WeaponConfig → j.Value
weapon_json j w =
    j.object
      (("recoil_factor", j.of_float w.recoil_factor) ∷ ("priority", j.of_float w.priority) ∷ [])

unfoldable pub read_weapon : (j : Json) → WeaponConfig → j.Value → Option WeaponConfig
read_weapon j w v = do
  recoil_factor ← read j j.to_float v "recoil_factor" w.recoil_factor
  priority ← read j j.to_float v "priority" w.priority
  some (record { recoil_factor = recoil_factor; priority = priority })

-- The entries of an object that is written from a map.
unfoldable pub entries {ℓ} :
    (j : Json) {V : Type ℓ} → ((V → j.Value)) → List (String × V) → List (String × j.Value)
entries j write [] = []
entries j write ((k, a) ∷ more) = (k, write a) ∷ entries j write more

-- Each item of an object, read from the defaults and stored under its name.
unfoldable pub put_items :
    (j : Json) {V : Type 0}
    → (j.Value → Option V)
    → List (String × j.Value)
    → List (String × V)
    → Option (List (String × V))
put_items j get [] table = some table
put_items j get ((k, v) ∷ more) table = do a ← get v; put_items j get more (put k a table)

-- `GameConfig::to_json`.
unfoldable pub game_json : (j : Json) → GameConfig → j.Value
game_json j g =
    let weapons = assign_all j (j.object []) (entries j (weapon_json j) g.weapons) in
    j.object (
      ("enabled", j.of_bool g.enabled)
      ∷ ("aim_target_offset_y", j.of_float g.aim_target_offset_y)
      ∷ ("head_size_factor", j.of_float g.head_size_factor)
      ∷ ("weapons", weapons)
      ∷ [])

-- The loop of `GameConfig::from_json` over the weapons, where they are an object.
unfoldable pub read_weapons :
    (j : Json)
    → Option j.Value
    → List (String × WeaponConfig)
    → Option (List (String × WeaponConfig))
read_weapons j none table = some table
read_weapons j (some v) table = elim (j.items v) [
  | none ↦ some table
  | some kvs ↦ put_items j (read_weapon j default_weapon) kvs table
]

-- `GameConfig::from_json`.
unfoldable pub read_game : (j : Json) → GameConfig → j.Value → Option GameConfig
read_game j g v = do
  enabled ← read j j.to_bool v "enabled" g.enabled
  aim_target_offset_y ← read j j.to_float v "aim_target_offset_y" g.aim_target_offset_y
  head_size_factor ← read j j.to_float v "head_size_factor" g.head_size_factor
  weapons ← read_weapons j (j.member v "weapons") g.weapons
  some (record {
    enabled = enabled;
    aim_target_offset_y = aim_target_offset_y;
    head_size_factor = head_size_factor;
    weapons = weapons;
  })

-- `GameAdaptersConfig::to_json`.
unfoldable pub games_json : (j : Json) → List (String × GameConfig) → j.Value
games_json j games = assign_all j (j.object []) (entries j (game_json j) games)

-- `GameAdaptersConfig::from_json`.
unfoldable pub read_games :
    (j : Json) → List (String × GameConfig) → j.Value → Option (List (String × GameConfig))
read_games j games v = elim (j.items v) [
  | none ↦ some games
  | some kvs ↦ put_items j (read_game j default_game) kvs games
]

pub find_key-put {ℓ} :
    {V : Type ℓ} (key wanted : String) (a : V) (table : List (String × V))
    → find_key wanted (put key a table)
      ≡ (if str_eq key wanted then some a else find_key wanted table)
unfolding put
find_key-put key wanted a [] = refl
find_key-put key wanted a ((k, old) ∷ more) =
    ground (arith, eq_iff k key, eq_iff key wanted, eq_iff k wanted, find_key-put key wanted a more)
