-- ===== src/Client/History.antt =====
-- Any calls of a `NetworkClient` of src/client/network.cpp one after the other.
use zero_latency_yolo.Base.{
  ℕ, Bool, true, false, List, [], ◌∷◌, Option, none, some, ◌≡◌, refl, arith, if◌then◌else◌,
  if-cases, not, subst, ◌&&◌,
}
use zero_latency_yolo.Protocol.{
  Abi, ClientInfo, FrameData, heartbeat, client_info, server_info, frame_data, detection_result,
  error_report, command, acknowledgement,
}
use zero_latency_yolo.Protocol.Deserialize.{Created, created, failed, faulted, create_from_buffer}
use zero_latency_yolo.Udp.{is_same_addr}
use zero_latency_yolo.Game.Weapons.{Locking, done, self_locked}
use zero_latency_yolo.Client.{
  NetworkClient, ClientEffect, result, SocketAnswer, Reply, Called, new_client, create_socket,
  initialize, update_ping, handle_server_info, connect, disconnect, send_frame, set_client_info,
  set_result_callback,
}
use zero_latency_yolo.Client.Receive.{
  Incoming, arrived, closed, error, without_effects, handle_created, handle_packet, receive_once,
  heartbeat_once,
}
use zero_latency_yolo.Client.Unconnected.{Fails, connect-Fails}

-- A round of the receiving thread that does not return, or leaves no connection.
abbrev LeavesNone : Locking Called → Type 0
LeavesNone self_locked = Unit {0}
LeavesNone (done (c, more, effects)) = c.connected ≡ false

abbrev HandlesNone : Locking (NetworkClient × List ClientEffect) → Type 0
HandlesNone self_locked = Unit {0}
HandlesNone (done (c, effects)) = c.connected ≡ false

HandlesNone-handle_created :
    (c : NetworkClient) (packet : Created) (now : ℕ)
    → c.connected ≡ false
    → HandlesNone (handle_created c packet now)
unfolding handle_created without_effects handle_server_info update_ping
HandlesNone-handle_created c (failed code) now h = h
HandlesNone-handle_created c faulted now h = h
HandlesNone-handle_created c (created p) now h =
    elim p.body
      as (λ body. HandlesNone (elim body [
        | heartbeat ping ↦ without_effects (update_ping false c p.timestamp now)
        | server_info info ↦ without_effects (handle_server_info c info p.timestamp now)
        | detection_result state ↦ done (c, if c.has_callback then result state ∷ [] else [])
        | _ ↦ done (c, [])
      ])) [
        | server_info info ↦ tt
        | heartbeat ping ↦ h
        | client_info info ↦ h
        | frame_data frame ↦ h
        | detection_result state ↦ h
        | error_report code message ↦ h
        | command type bytes ↦ h
        | acknowledgement sequence ↦ h
      ]

-- A packet that is received, whether or not it is handled to the end.
passed_on :
    (o : Locking (NetworkClient × List ClientEffect))
    → HandlesNone o
    → LeavesNone
        (elim o [ self_locked ↦ self_locked | done (c', effects) ↦ done (c', true, effects) ])
passed_on self_locked h = tt
passed_on (done (c, effects)) h = h

LeavesNone-receive_once :
    (abi : Abi) (c : NetworkClient) (incoming : Incoming) (now : ℕ)
    → c.connected ≡ false
    → LeavesNone (receive_once abi c incoming now)
unfolding receive_once handle_packet
LeavesNone-receive_once abi c (arrived bytes from) now h =
    if-cases LeavesNone (c.socket_open && is_same_addr from c.server_addr)
      (λ _. passed_on _ (
        HandlesNone-handle_created
          (record c { counter = (create_from_buffer abi c.counter now bytes).1 })
          (create_from_buffer abi c.counter now bytes).0 now h))
      (λ _. h)
LeavesNone-receive_once abi c closed now h = if-cases LeavesNone c.socket_open (λ _. refl) (λ _. h)
LeavesNone-receive_once abi c (error again) now h =
    if-cases LeavesNone (c.socket_open && not again) (λ _. refl) (λ _. h)

-- The calls of the class, and the rounds of its threads.
pub data Call : Type 0 where
  initializing : Bool → Option ℕ → SocketAnswer → Call
  connecting : SocketAnswer → Option ℕ → Reply → ℕ → Call
  disconnecting : Call
  sending : FrameData → ℕ → Option ℕ → Call
  setting_info : ClientInfo → Call
  setting_callback : Bool → Call
  receiving : Incoming → ℕ → Call
  beating : ℕ → Option ℕ → Call

abbrev client_of : Locking Called → Locking NetworkClient
client_of self_locked = self_locked
client_of (done (c, ok, effects)) = done c

unfoldable pub call : Abi → NetworkClient → Call → Locking NetworkClient
call abi c (initializing winsock host answer) = done (initialize c winsock host answer).0
call abi c (connecting answer sent reply now) = client_of (connect abi c answer sent reply now)
call abi c disconnecting = done (disconnect c)
call abi c (sending frame now sent) = done (send_frame abi c frame now sent).0
call abi c (setting_info info) = done (set_client_info c info)
call abi c (setting_callback given) = done (set_result_callback c given)
call abi c (receiving incoming now) = client_of (receive_once abi c incoming now)
call abi c (beating now sent) = done (heartbeat_once abi c now sent).0

-- Calls one after the other, until one does not return.
unfoldable pub calls : Abi → Locking NetworkClient → List Call → Locking NetworkClient
calls abi o [] = o
calls abi self_locked (e ∷ es) = self_locked
calls abi (done c) (e ∷ es) = calls abi (call abi c e) es

abbrev IsUnconnected : Locking NetworkClient → Type 0
IsUnconnected self_locked = Unit {0}
IsUnconnected (done c) = c.connected ≡ false

client_of-IsUnconnected : (o : Locking Called) → LeavesNone o → IsUnconnected (client_of o)
client_of-IsUnconnected self_locked h = tt
client_of-IsUnconnected (done (c, ok, effects)) h = h

LeavesNone-of-Fails : (o : Locking Called) → Fails o → LeavesNone o
LeavesNone-of-Fails self_locked h = tt
LeavesNone-of-Fails (done (c, ok, effects)) h = h.1

connected-initialize :
    (c : NetworkClient) (winsock : Bool) (host : Option ℕ) (answer : SocketAnswer)
    → (initialize c winsock host answer).0.connected ≡ c.connected
unfolding initialize create_socket
connected-initialize c winsock none answer = ground arith
connected-initialize c winsock (some host) answer = ground arith

call-IsUnconnected :
    (abi : Abi) (c : NetworkClient) (e : Call) → c.connected ≡ false → IsUnconnected (call abi c e)
unfolding call disconnect send_frame set_client_info set_result_callback heartbeat_once
call-IsUnconnected abi c (initializing winsock host answer) h =
    rw (connected-initialize c winsock host answer) h
call-IsUnconnected abi c (connecting answer sent reply now) h =
    client_of-IsUnconnected _ (LeavesNone-of-Fails _ (connect-Fails abi c answer sent reply now h))
call-IsUnconnected abi c disconnecting h = ground arith
call-IsUnconnected abi c (sending frame now sent) h = ground arith
call-IsUnconnected abi c (setting_info info) h = h
call-IsUnconnected abi c (setting_callback given) h = h
call-IsUnconnected abi c (receiving incoming now) h =
    client_of-IsUnconnected _ (LeavesNone-receive_once abi c incoming now h)
call-IsUnconnected abi c (beating now sent) h = ground arith

calls-IsUnconnected :
    (abi : Abi) (es : List Call) (o : Locking NetworkClient)
    → IsUnconnected o
    → IsUnconnected (calls abi o es)
unfolding calls
calls-IsUnconnected abi [] o h = h
calls-IsUnconnected abi (e ∷ es) self_locked h = tt
calls-IsUnconnected abi (e ∷ es) (done c) h =
    calls-IsUnconnected abi es (call abi c e) (call-IsUnconnected abi c e h)

-- After any calls of a new client and any rounds of its threads, all of which return, sendFrame sends
-- nothing and returns false, and so does the thread of the heartbeats: no client ever sends a frame.
pub send_frame-calls :
    (abi : Abi) (port : ℕ) (info : ClientInfo) (es : List Call) (c : NetworkClient)
    (frame : FrameData) (now : ℕ) (sent : Option ℕ)
    → calls abi (done (new_client port info)) es ≡ done c
    → (send_frame abi c frame now sent ≡ (c, false, []))
      × (heartbeat_once abi c now sent ≡ (c, false, []))
unfolding send_frame heartbeat_once
send_frame-calls abi port info es c frame now sent returned =
    let kept =
      calls-IsUnconnected abi es (done (new_client port info)) (unfold new_client in refl) in
    let down : c.connected ≡ false = subst IsUnconnected returned kept in
    (ground (arith, down), ground (arith, down))
