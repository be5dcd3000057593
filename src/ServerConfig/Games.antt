-- ===== src/ServerConfig/Games.antt =====
-- The settings of the game adapters of src/server/config.h, written and read back.
use Prim.Native.String.{String}
use zero_latency_yolo.Base.{
  ◌≡◌, refl, ◌∙◌, Option-cases, inl, inr, true, false, List, [], ◌∷◌, Option, none, some,
}
use zero_latency_yolo.Game.Weapons.{WeaponConfig, GameConfig}
use zero_latency_yolo.ServerConfig.Json.{
  Json, IsJson, IsNumber, read-object, assign_all, find_key, distinct,
}
use zero_latency_yolo.ServerConfig.Adapters.{
  default_weapon, default_game, weapon_json, read_weapon, game_json, read_game, read_weapons,
  games_json, read_games, entries,
}
use zero_latency_yolo.ServerConfig.Tables.{written, read_or, read-entries}

-- Weapons with different names and numbers that JSON can hold.
pub record AreWeapons (weapons : List (String × WeaponConfig)) : Type 0 where
  pub once : distinct weapons ≡ true
  pub numbers :
      (name : String) (w : WeaponConfig)
      → find_key name weapons ≡ some w
      → IsNumber w.recoil_factor × IsNumber w.priority

pub record IsGame (g : GameConfig) : Type 0 where
  pub aim_target_offset_y : IsNumber g.aim_target_offset_y
  pub head_size_factor : IsNumber g.head_size_factor
  pub weapons : AreWeapons g.weapons

pub record AreGames (games : List (String × GameConfig)) : Type 0 where
  pub once : distinct games ≡ true
  pub each : (name : String) (g : GameConfig) → find_key name games ≡ some g → IsGame g

-- The settings of a game that agree, with the same weapon under each name.
pub record SameGame (g h : GameConfig) : Type 0 where
  pub enabled : h.enabled ≡ g.enabled
  pub aim_target_offset_y : h.aim_target_offset_y ≡ g.aim_target_offset_y
  pub head_size_factor : h.head_size_factor ≡ g.head_size_factor
  pub weapons : (name : String) → find_key name h.weapons ≡ find_key name g.weapons

-- What is found under a name: the game that was written, or what stood there before.
abbrev pub IsRestored : Option GameConfig → Option GameConfig → Option GameConfig → Type 0
IsRestored none old found = found ≡ old
IsRestored (some g) old found = (h : GameConfig) × (found ≡ some h) × SameGame g h

read_weapon-weapon_json :
    (j : Json) (laws : IsJson j) (w old : WeaponConfig)
    → IsNumber w.recoil_factor
    → IsNumber w.priority
    → read_weapon j old (weapon_json j w) ≡ some w
unfolding read_weapon weapon_json
read_weapon-weapon_json j laws w old recoil priority =
    let ms : List (String × j.Value) =
      ("recoil_factor", j.of_float w.recoil_factor) ∷ ("priority", j.of_float w.priority) ∷ [] in
    rw
      (
        read-object j j.to_float laws ms "recoil_factor" old.recoil_factor w.recoil_factor
            (j.of_float w.recoil_factor) refl refl (laws.float w.recoil_factor recoil),
        read-object j j.to_float laws ms "priority" old.priority w.priority (j.of_float w.priority)
            refl refl (laws.float w.priority priority),
      )
      refl

read_or-written :
    (j : Json) (laws : IsJson j) (weapons : List (String × WeaponConfig)) (name : String)
    → AreWeapons weapons
    → read_or (read_weapon j default_weapon) (written (weapon_json j) (find_key name weapons)) none
      ≡ find_key name weapons
read_or-written j laws weapons name h = elim (Option-cases (find_key name weapons)) [
  | inl missing ↦ rw (missing) refl
  | inr (w, given) ↦
      let (recoil, priority) = h.numbers name w given in
      rw (given) (read_weapon-weapon_json j laws w default_weapon recoil priority)
]

read_game-game_json :
    (j : Json) (laws : IsJson j) (g : GameConfig)
    → IsGame g
    → (h : GameConfig) × (read_game j default_game (game_json j g) ≡ some h) × SameGame g h
unfolding read_game game_json read_weapons
read_game-game_json j laws g is =
    let weapons = assign_all j (j.object []) (entries j (weapon_json j) g.weapons) in
    let ms : List (String × j.Value) =
      ("enabled", j.of_bool g.enabled)
      ∷ ("aim_target_offset_y", j.of_float g.aim_target_offset_y)
      ∷ ("head_size_factor", j.of_float g.head_size_factor)
      ∷ ("weapons", weapons)
      ∷ [] in
    let (kvs, items, found, given, lookups) =
      read-entries j laws (weapon_json j) (read_weapon j default_weapon) g.weapons []
        is.weapons.once
        (λ name w there.
          let (recoil, priority) = is.weapons.numbers name w there in
          (w, read_weapon-weapon_json j laws w default_weapon recoil priority)) in
    (
      record g { weapons = found },
      (rw
          (
            read-object j j.to_bool laws ms "enabled" false g.enabled (j.of_bool g.enabled) refl
                refl (laws.bool g.enabled),
            read-object j j.to_float laws ms "aim_target_offset_y" default_game.aim_target_offset_y
                g.aim_target_offset_y (j.of_float g.aim_target_offset_y) refl refl
                (laws.float g.aim_target_offset_y is.aim_target_offset_y),
            read-object j j.to_float laws ms "head_size_factor" default_game.head_size_factor
                g.head_size_factor (j.of_float g.head_size_factor) refl refl
                (laws.float g.head_size_factor is.head_size_factor),
            laws.member_object ms "weapons" refl,
            items,
            given,
          )
          refl),
      (record {
        enabled = refl;
        aim_target_offset_y = refl;
        head_size_factor = refl;
        weapons = λ name. lookups name ∙ read_or-written j laws g.weapons name is.weapons;
      }),
    )

-- Settings that are written and read over others: each game that was written is found under its
-- name, with its weapons, and each other name keeps its game.
pub read_games-games_json :
    (j : Json) (laws : IsJson j) (games old : List (String × GameConfig))
    → AreGames games
    → (found : List (String × GameConfig)) × (read_games j old (games_json j games) ≡ some found)
      × ((name : String)
          → IsRestored (find_key name games) (find_key name old) (find_key name found))
unfolding read_games games_json
read_games-games_json j laws games old are =
    let (kvs, items, found, given, lookups) =
      read-entries j laws (game_json j) (read_game j default_game) games old are.once
        (λ name g there.
          let (h, back, same) = read_game-game_json j laws g (are.each name g there) in
          (h, back)) in
    (
      found,
      (rw (read_games, items) given),
      (λ name. elim (Option-cases (find_key name games)) [
        | inl missing ↦ rw (lookups name, missing) refl
        | inr (g, there) ↦
            let (h, back, same) = read_game-game_json j laws g (are.each name g there) in
            rw (lookups name, there) (h, back, same)
      ]),
    )
