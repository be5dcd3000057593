-- ===== src/Client.antt =====
-- `NetworkClient` of src/client/network.cpp: its state, and the calls that open, use and close the
-- connection. Winsock's answers are arguments; `now` is the system clock as a call reads it.
pub mod Receive
pub mod Ping
pub mod Unconnected
pub mod History
pub mod Answers
mod Examples
use zero_latency_yolo.Base.{
  ℕ, ◌+◌, ◌*◌, ◌/◌, Bool, true, false, List, [], ◌∷◌, Option, none, some, length, not, ◌&&◌, ◌||◌,
  ◌==◌, ltb, if◌then◌else◌, u16, u32, sub64,
}
use zero_latency_yolo.Protocol.{
  Abi, Packet, ClientInfo, ServerInfo, FrameData, GameState, client_info, frame_data, heartbeat,
  new_packet, server_info,
}
use zero_latency_yolo.Protocol.Serialize.{serialize}
use zero_latency_yolo.Protocol.Deserialize.{Created, created, failed, faulted, create_from_buffer}
use zero_latency_yolo.Udp.{Address}
use zero_latency_yolo.Game.Weapons.{Locking, done, self_locked}

-- The members that the calls change or read; of `status_` the two that are ever written. The counter
-- is that of `SequenceGenerator` in the client's process.
pub record NetworkClient : Type 0 where
  pub server_addr : Address
  pub info : ClientInfo
  pub socket_open : Bool
  pub running : Bool
  pub connected : Bool
  pub sequence_number : ℕ
  pub has_callback : Bool
  pub fps : ℕ
  pub ping : ℕ
  pub counter : ℕ

-- What reaches the outside: a datagram, or a call of the callback.
pub data ClientEffect : Type 0 where
  datagram : Address → List ℕ → ClientEffect
  result : GameState → ClientEffect

-- The constructor, with an address whose host is 0 and a default `ClientInfo`.
unfoldable pub new_client : ℕ → ClientInfo → NetworkClient
new_client port info = record {
  server_addr = record { host = 0; port = port };
  info = info;
  socket_open = false;
  running = false;
  connected = false;
  sequence_number = 0;
  has_callback = false;
  fps = 0;
  ping = 0;
  counter = 1;
}

-- Whether `socket` gives a socket, and `ioctlsocket` makes it non-blocking.
pub record SocketAnswer : Type 0 where
  pub made : Bool
  pub nonblocking : Bool

-- `createSocket`.
unfoldable pub create_socket : NetworkClient → SocketAnswer → NetworkClient × Bool
create_socket c answer =
    let ok = answer.made && answer.nonblocking in (record c { socket_open = ok }, ok)

-- `initialize`, with the answer of `WSAStartup` and the host that `inet_pton` reads, if any.
unfoldable pub initialize : NetworkClient → Bool → Option ℕ → SocketAnswer → NetworkClient × Bool
initialize c winsock host answer = if not winsock then (c, false) else elim host [
  | none ↦ (c, false)
  | some host ↦
      create_socket (record c { server_addr = record { host = host; port = c.server_addr.port } })
        answer
]

-- `sendPacket`; `sent` is what `sendto` returns, or nothing for an error.
unfoldable pub send_packet : Abi → NetworkClient → Packet → Option ℕ → Bool × List ClientEffect
send_packet abi c p sent =
    let content = serialize abi p in
    if not c.socket_open then (false, []) else elim sent [
      | none ↦ (false, [])
      | some n ↦ (n == length content, datagram c.server_addr content ∷ [])
    ]

-- The part of `updatePing` under the lock.
unfoldable pub smoothed_ping : ℕ → ℕ → ℕ
smoothed_ping ping rtt = if ping == 0 then rtt else u16 ((ping * 7 + rtt) / 8)

-- `updatePing`, where the caller holds `status_mutex_` or not.
unfoldable pub update_ping : Bool → NetworkClient → ℕ → ℕ → Locking NetworkClient
update_ping held c send_time receive_time =
    if held
    then self_locked
    else done (record c { ping = smoothed_ping c.ping (u16 (sub64 receive_time send_time)) })

-- `handleServerInfo`, which holds the mutex.
unfoldable pub handle_server_info : NetworkClient → ServerInfo → ℕ → ℕ → Locking NetworkClient
handle_server_info c info timestamp now =
    update_ping true (record c { fps = info.max_fps }) timestamp now

-- What `recvfrom` gives `connect`: an error, or at most 1,024 bytes and their sender, which is also
-- written into `server_addr_`.
abbrev pub Reply : Type 0
Reply = Option (List ℕ × Address)

-- What a call comes to: the client, what it returns, and the effects.
abbrev pub Called : Type 0
Called = NetworkClient × Bool × List ClientEffect

-- The end of `connect`, once the server's information is handled.
unfoldable pub established : List ClientEffect → Locking NetworkClient → Locking Called
established effects self_locked = self_locked
established effects (done c) = done (record c { running = true; connected = true }, true, effects)

unfoldable pub connect_with : Abi → NetworkClient → List ClientEffect → Created → ℕ → Locking Called
connect_with abi c effects (failed code) now = done (c, false, effects)
connect_with abi c effects faulted now = done (c, false, effects)
connect_with abi c effects (created p) now = elim p.body [
  | server_info info ↦ established effects (handle_server_info c info p.timestamp now)
  | _ ↦ done (c, false, effects)
]

-- The wait for the server's answer.
unfoldable pub await_reply : Abi → NetworkClient → List ClientEffect → Reply → ℕ → Locking Called
await_reply abi c effects none now = done (c, false, effects)
await_reply abi c effects (some (bytes, from)) now =
    if length bytes == 0
    then done (record c { server_addr = from }, false, effects)
    else (let (packet, counter) = create_from_buffer abi c.counter now bytes in
        connect_with abi (record c { server_addr = from; counter = counter }) effects packet now)

-- `connect` with a socket.
unfoldable pub connect_open : Abi → NetworkClient → Option ℕ → Reply → ℕ → Locking Called
connect_open abi c sent reply now =
    let (p, counter) = new_packet c.counter now 0 (client_info c.info) in
    let (whole, effects) = send_packet abi c p sent in
    let c' = record c { counter = counter } in
    if whole then await_reply abi c' effects reply now else done (c', false, effects)

-- `connect`.
unfoldable pub connect : Abi → NetworkClient → SocketAnswer → Option ℕ → Reply → ℕ → Locking Called
connect abi c answer sent reply now =
    let (opened, ok) = create_socket c answer in
    if c.connected
    then done (c, true, [])
    else if c.socket_open
    then connect_open abi c sent reply now
    else if ok
    then connect_open abi opened sent reply now
    else done (opened, false, [])

-- `sendCommand`, which sends nothing.
unfoldable pub send_command : NetworkClient → Bool → Bool
send_command c is_disconnect = c.connected || is_disconnect

-- `disconnect`.
unfoldable pub disconnect : NetworkClient → NetworkClient
disconnect c =
    if c.connected then record c { running = false; socket_open = false; connected = false } else c

-- `sendFrame`. The constructor of the packet takes a number from the generator, which `setSequence`
-- then overwrites.
unfoldable pub send_frame : Abi → NetworkClient → FrameData → ℕ → Option ℕ → Called
send_frame abi c frame now sent =
    let (fresh, counter) = new_packet c.counter now 0 (frame_data frame) in
    let p = record fresh { sequence = c.sequence_number } in
    let (whole, effects) = send_packet abi c p sent in
    if not c.connected then (c, false, []) else (
      record c { sequence_number = u32 (c.sequence_number + 1); counter = counter },
      whole,
      effects,
    )

-- `setClientInfo` and `setResultCallback`.
unfoldable pub set_client_info : NetworkClient → ClientInfo → NetworkClient
set_client_info c info = record c { info = info }

unfoldable pub set_result_callback : NetworkClient → Bool → NetworkClient
set_result_callback c given = record c { has_callback = given }
