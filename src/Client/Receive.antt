-- ===== src/Client/Receive.antt =====
-- The two threads of `NetworkClient` of src/client/network.cpp, one round at a time, and
-- `handlePacket`.
use zero_latency_yolo.Base.{ℕ, Bool, true, false, List, [], ◌∷◌, Option, not, ◌&&◌, if◌then◌else◌}
use zero_latency_yolo.Protocol.{Abi, heartbeat, server_info, detection_result, new_packet}
use zero_latency_yolo.Protocol.Deserialize.{Created, created, failed, faulted, create_from_buffer}
use zero_latency_yolo.Udp.{Address, is_same_addr}
use zero_latency_yolo.Game.Weapons.{Locking, done, self_locked}
use zero_latency_yolo.Client.{
  NetworkClient, ClientEffect, result, Called, update_ping, handle_server_info, send_packet,
}

unfoldable pub without_effects : Locking NetworkClient → Locking (NetworkClient × List ClientEffect)
without_effects self_locked = self_locked
without_effects (done c) = done (c, [])

-- The switch of `handlePacket`, with `handleDetectionResult`. An error, and any other packet, is only
-- reported.
unfoldable pub handle_created :
    NetworkClient → Created → ℕ → Locking (NetworkClient × List ClientEffect)
handle_created c (failed code) now = done (c, [])
handle_created c faulted now = done (c, [])
handle_created c (created p) now = elim p.body [
  | heartbeat ping ↦ without_effects (update_ping false c p.timestamp now)
  | server_info info ↦ without_effects (handle_server_info c info p.timestamp now)
  | detection_result state ↦ done (c, if c.has_callback then result state ∷ [] else [])
  | _ ↦ done (c, [])
]

-- `handlePacket`.
unfoldable pub handle_packet :
    Abi → NetworkClient → List ℕ → ℕ → Locking (NetworkClient × List ClientEffect)
handle_packet abi c bytes now =
    let (packet, counter) = create_from_buffer abi c.counter now bytes in
    handle_created (record c { counter = counter }) packet now

-- What `recvfrom` gives the receiving thread; an error is one that only asks for another try, or not.
pub data Incoming : Type 0 where
  arrived : List ℕ → Address → Incoming
  closed : Incoming
  error : Bool → Incoming

-- One round of `receiveThread`, with whether the loop goes on.
unfoldable pub receive_once : Abi → NetworkClient → Incoming → ℕ → Locking Called
receive_once abi c (arrived bytes from) now =
    if c.socket_open && is_same_addr from c.server_addr
    then elim (handle_packet abi c bytes now) [
      | self_locked ↦ self_locked
      | done (c', effects) ↦ done (c', true, effects)
    ]
    else done (c, true, [])
receive_once abi c closed now =
    if c.socket_open then done (record c { connected = false }, false, []) else done (c, true, [])
receive_once abi c (error again) now =
    if c.socket_open && not again
    then done (record c { connected = false }, false, [])
    else done (c, true, [])

-- One round of `heartbeatThread`.
unfoldable pub heartbeat_once : Abi → NetworkClient → ℕ → Option ℕ → Called
heartbeat_once abi c now sent =
    let (p, counter) = new_packet c.counter now 0 (heartbeat 0) in
    let (whole, effects) = send_packet abi c p sent in
    if c.running && c.connected
    then (record c { counter = counter }, true, effects)
    else (c, false, [])
