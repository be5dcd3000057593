-- ===== src/Game/Adapter.antt =====
-- The methods of `GameAdapterBase` of src/game/base/game_adapter_base.h on its clients.
use zero_latency_yolo.Base.{ℕ, ◌+◌, Bool, List, [], ◌∷◌, Option, none, some, if◌then◌else◌, not}
use zero_latency_yolo.Base.Table.{lookup, insert, erase}
use zero_latency_yolo.Protocol.{invalid_argument}
use zero_latency_yolo.Udp.Server.{
  Result, success, failure, Effect, client_connected, client_disconnected,
}
use zero_latency_yolo.Game.{
  GameAdapter, ClientState, new_client_state, set_current_weapon_id, set_shooting,
}

-- `registerClient`.
unfoldable pub register_client : GameAdapter → ℕ → ℕ → GameAdapter × Result (Unit {0}) × List Effect
register_client s id game_id = (
  record s { clients = insert id (new_client_state game_id) s.clients },
  success tt,
  client_connected id ∷ [],
)

-- `unregisterClient`.
unfoldable pub unregister_client : GameAdapter → ℕ → GameAdapter × Result (Unit {0}) × List Effect
unregister_client s id = elim (lookup id s.clients) [
  | none ↦ (s, failure invalid_argument, [])
  | some c ↦ (record s { clients = erase id s.clients }, success tt, client_disconnected id ∷ [])
]

-- `getClientState`.
unfoldable pub get_client_state : GameAdapter → ℕ → Option ClientState
get_client_state s id = lookup id s.clients

-- `getOrCreateClientState`, which also stores a state that it creates.
unfoldable pub get_or_create_client_state : GameAdapter → ℕ → ClientState
get_or_create_client_state s id = elim (lookup id s.clients) [
  | none ↦ new_client_state 0
  | some c ↦ c
]

unfoldable pub put_client_state : GameAdapter → ℕ → ClientState → GameAdapter
put_client_state s id c = record s { clients = insert id c s.clients }

-- `updateClientWeapon`.
unfoldable pub update_client_weapon : GameAdapter → ℕ → ℕ → GameAdapter
update_client_weapon s id weapon_id =
    put_client_state s id (set_current_weapon_id (get_or_create_client_state s id) weapon_id)

-- The part of `updateClientShooting` for a client that shoots; a count of `none` is a negative one.
unfoldable pub count_shots : ClientState → Option ℕ → ClientState
count_shots c (some count) = record c { shot_count = count }
count_shots c none =
    if not c.is_shooting
    then record c { shot_count = 0 }
    else record c { shot_count = c.shot_count + 1 }

-- `updateClientShooting`. (A count of 2 ^ 31, where C++ leaves the sum undefined, does not arise.)
unfoldable pub update_client_shooting : GameAdapter → ℕ → Bool → Option ℕ → ℕ → GameAdapter
update_client_shooting s id shooting count now =
    let c = set_shooting (get_or_create_client_state s id) shooting in
    put_client_state s id
      (if shooting then record (count_shots c count) { last_shot_time = now } else c)
