-- ===== src/Game/Manager.antt =====
-- `GameAdapterManager` of src/game/base/game_adapter_manager.h.
use Prim.Native.String.{String}
use text.Mathlib.Text.{◌==◌ as str_eq}
use zero_latency_yolo.Base.{
  ℕ, Bool, false, List, [], ◌∷◌, Option, none, some, ◌==◌, ◌&&◌, ◌||◌, if◌then◌else◌,
}

-- The factories in the order in which the map is traversed, with the games that each supports.
abbrev pub Factories : Type 0
Factories = List (String × List String)

-- `registerFactory`.
unfoldable pub register_factory : String → List String → Factories → Factories
register_factory name supported [] = (name, supported) ∷ []
register_factory name supported ((key, old) ∷ more) =
    if str_eq key name
    then (name, supported) ∷ more
    else (key, old) ∷ register_factory name supported more

-- `isAdapterAvailable`.
unfoldable pub is_adapter_available : Factories → String → Bool
is_adapter_available [] name = false
is_adapter_available ((key, supported) ∷ more) name =
    str_eq key name || is_adapter_available more name

-- The names that the manager knows for `CS_1_6`, `CSGO` and `VALORANT`.
unfoldable pub names_game : String → ℕ → Bool
names_game name game_id =
    (str_eq name "cs16" && game_id == 1)
    || ((str_eq name "csgo" && game_id == 2) || (str_eq name "valorant" && game_id == 3))

unfoldable pub supports : List String → ℕ → Bool
supports [] game_id = false
supports (name ∷ names) game_id = names_game name game_id || supports names game_id

-- `createAdapterForGame`, less the creation: the name of the factory that is taken.
unfoldable pub factory_for_game : Factories → ℕ → Option String
factory_for_game [] game_id = none
factory_for_game ((key, supported) ∷ more) game_id =
    if supports supported game_id then some key else factory_for_game more game_id
