-- ===== src/Client/Unconnected.antt =====
-- Why a client of src/client/network.cpp never gets a connection: `handleServerInfo` takes
-- `status_mutex_` and calls `updatePing`, which takes it again.
use zero_latency_yolo.Base.{
  ℕ, false, List, Option, none, some, length, ◌≡◌, refl, ◌==◌, arith, if-cases, ◌&&◌,
}
use zero_latency_yolo.Protocol.{
  Abi, heartbeat, client_info, server_info, frame_data, detection_result, error_report, command,
  acknowledgement, new_packet,
}
use zero_latency_yolo.Protocol.Deserialize.{Created, created, failed, faulted, create_from_buffer}
use zero_latency_yolo.Game.Weapons.{Locking, done, self_locked}
use zero_latency_yolo.Client.{
  NetworkClient, ClientEffect, SocketAnswer, Reply, Called, create_socket, send_packet, update_ping,
  handle_server_info, established, connect_with, await_reply, connect_open, connect,
}

-- A call that does not return, or returns false and leaves no connection.
abbrev pub Fails : Locking Called → Type 0
Fails self_locked = Unit {0}
Fails (done (c, ok, effects)) = (ok ≡ false) × (c.connected ≡ false)

Fails-connect_with :
    (abi : Abi) (c : NetworkClient) (effects : List ClientEffect) (packet : Created) (now : ℕ)
    → c.connected ≡ false
    → Fails (connect_with abi c effects packet now)
unfolding connect_with established handle_server_info update_ping
Fails-connect_with abi c effects (failed code) now h = (refl, h)
Fails-connect_with abi c effects faulted now h = (refl, h)
Fails-connect_with abi c effects (created p) now h =
    elim p.body
      as (λ body. Fails (elim body [
        | server_info info ↦ established effects (handle_server_info c info p.timestamp now)
        | _ ↦ done (c, false, effects)
      ])) [
        | server_info info ↦ tt
        | heartbeat ping ↦ (refl, h)
        | client_info info ↦ (refl, h)
        | frame_data frame ↦ (refl, h)
        | detection_result state ↦ (refl, h)
        | error_report code message ↦ (refl, h)
        | command type bytes ↦ (refl, h)
        | acknowledgement sequence ↦ (refl, h)
      ]

Fails-await_reply :
    (abi : Abi) (c : NetworkClient) (effects : List ClientEffect) (reply : Reply) (now : ℕ)
    → c.connected ≡ false
    → Fails (await_reply abi c effects reply now)
unfolding await_reply
Fails-await_reply abi c effects none now h = (refl, h)
Fails-await_reply abi c effects (some (bytes, from)) now h =
    if-cases Fails (length bytes == 0) (λ _. (refl, h))
      (λ _.
        Fails-connect_with abi
          (record c {
            server_addr = from;
            counter = (create_from_buffer abi c.counter now bytes).1;
          })
          effects (create_from_buffer abi c.counter now bytes).0 now h)

Fails-connect_open :
    (abi : Abi) (c : NetworkClient) (sent : Option ℕ) (reply : Reply) (now : ℕ)
    → c.connected ≡ false
    → Fails (connect_open abi c sent reply now)
unfolding connect_open
Fails-connect_open abi c sent reply now h =
    let (p, counter) = new_packet c.counter now 0 (client_info c.info) in
    if-cases Fails (send_packet abi c p sent).0
      (λ _.
        Fails-await_reply abi (record c { counter = counter }) (send_packet abi c p sent).1 reply
          now h)
      (λ _. (refl, h))

-- connect on a client without a connection never returns true, whatever the system and the server
-- answer: it returns false and the client has no connection, or it does not return.
pub connect-Fails :
    (abi : Abi) (c : NetworkClient) (answer : SocketAnswer) (sent : Option ℕ) (reply : Reply)
    (now : ℕ)
    → c.connected ≡ false
    → Fails (connect abi c answer sent reply now)
unfolding connect create_socket
connect-Fails abi c answer sent reply now h =
    if-cases Fails c.connected (λ up. let no : ⊥ = ground (arith, up, h) in elim no [ ])
      (λ _.
        if-cases Fails c.socket_open (λ _. Fails-connect_open abi c sent reply now h)
          (λ _.
            if-cases Fails (answer.made && answer.nonblocking)
              (λ _.
                Fails-connect_open abi
                  (record c { socket_open = answer.made && answer.nonblocking }) sent reply now h)
              (λ _. (refl, h))))
