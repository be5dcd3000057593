-- ===== src/Client/Answers.antt =====
-- The packets of the server of src/network/network_server.cpp as the client of src/client/network.cpp
-- takes them.
use zero_latency_yolo.Base.{
  ℕ, ◌≤◌, ◌<◌, ◌≡◌, refl, ◌∙◌, ap, true, false, List, [], ◌∷◌, some, arith, length,
}
use zero_latency_yolo.Base.Table.{lookup}
use zero_latency_yolo.Float.{Float}
use zero_latency_yolo.Protocol.{
  Abi, Packet, ServerInfo, GameState, server_info, detection_result, client_info, new_packet,
}
use zero_latency_yolo.Protocol.Serialize.{serialize}
use zero_latency_yolo.Protocol.Deserialize.{created, create_from_buffer}
use zero_latency_yolo.Protocol.Fits.{Fits}
use zero_latency_yolo.Protocol.Delivery.{create_from_buffer-serialize, length-serialize}
use zero_latency_yolo.Udp.{Address, ClientConnection}
use zero_latency_yolo.Udp.Server.{success, packet_sent}
use zero_latency_yolo.Udp.Server as Udp
use zero_latency_yolo.Udp.Server.Send.{taken}
use zero_latency_yolo.Game.{Game, ClientState}
use zero_latency_yolo.Game.Track.{label_detections}
use zero_latency_yolo.Game.Weapons.{done, self_locked}
use zero_latency_yolo.NetworkServer.{NetworkServer, on_inference_result}
use zero_latency_yolo.NetworkServer as Server
use zero_latency_yolo.NetworkServer.Heartbeat.{reply}
use zero_latency_yolo.NetworkServer.Results.{result_packet, on_inference_result_lem}
use zero_latency_yolo.Client.{
  NetworkClient, ClientEffect, Reply, datagram, result, SocketAnswer, update_ping,
  handle_server_info, established, connect_with, await_reply, connect_open, connect, send_packet,
}
use zero_latency_yolo.Client.Receive.{handle_packet, handle_created}

-- What the client makes of bytes that are a packet.
handle_packet-created :
    (abi : Abi) (c : NetworkClient) (bytes : List ℕ) (p : Packet) (now : ℕ)
    → (create_from_buffer abi c.counter now bytes).0 ≡ created p
    → handle_packet abi c bytes now
      ≡ handle_created
          (record c { counter = (create_from_buffer abi c.counter now bytes).1 })
          (created p)
          now
unfolding handle_packet
handle_packet-created abi c bytes p now made =
    ap
      (λ packet.
        handle_created (record c { counter = (create_from_buffer abi c.counter now bytes).1 })
          packet now)
      made

handle_created-result :
    (c : NetworkClient) (p : Packet) (state : GameState) (now : ℕ)
    → p.body ≡ detection_result state
    → c.has_callback ≡ true
    → handle_created c (created p) now ≡ done (c, result state ∷ [])
unfolding handle_created
handle_created-result c p state now same watched = ground (arith, same, watched)

-- A result for a client that the UDP server and the initialised game adapter know, under the game of
-- the adapter: the running server with an open socket, which does not aggregate, sends one datagram to
-- the client's address, where the socket takes it whole and the packet fits its types and the 16 bits
-- of its length; a client with a callback hands the callback the result with the detections as the
-- adapter labels them, and changes nothing but its counter of sequence numbers.
pub handle_packet-result :
    (abi : Abi) (fp : Float) (game : Game) (s : NetworkServer) (id : ℕ) (state : GameState)
    (now : ℕ) (connection : ClientConnection) (client : ClientState) (c : NetworkClient)
    (received : ℕ)
    → lookup id s.network.clients ≡ some connection
    → lookup id s.adapter.clients ≡ some client
    → client.game_id ≡ game.game_id
    → s.adapter.initialized ≡ true
    → s.network.socket_open ≡ true
    → s.network.running ≡ true
    → s.network.config.use_packet_aggregation ≡ false
    → length (serialize abi (result_packet fp s state now)) ≤ 65536
    → Fits abi (result_packet fp s state now)
    → c.has_callback ≡ true
    → let r = result_packet fp s state now in
      let bytes = serialize abi r in
      let shown : GameState = record state {
        detections =
            (label_detections fp s.adapter.head_size_factor s.adapter.next_track_id
              state.detections).0;
      } in
      (s' : NetworkServer) × (counter : ℕ) × (on_inference_result abi fp game s id state now
          (taken (length bytes))
        ≡ Server.done s' (success tt) (Udp.datagram connection.address bytes ∷ packet_sent ∷ []) [])
      × (handle_packet abi c bytes received
          ≡ done (record c { counter = counter }, result shown ∷ []))
handle_packet-result abi fp game s id state now connection client c received known registered same
      ready opened running single small fits watched =
    let r = result_packet fp s state now in
    let bytes = serialize abi r in
    let (s', sent, made) =
      on_inference_result_lem abi fp game s id state now connection client c.counter received known
        registered same ready opened running single small fits in
    let counter = (create_from_buffer abi c.counter received bytes).1 in
    (
      s',
      counter,
      sent,
      handle_packet-created abi c bytes r received made
          ∙ handle_created-result (record c { counter = counter }) r _ received refl watched,
    )

connect_with-server_info :
    (abi : Abi) (c : NetworkClient) (effects : List ClientEffect) (p : Packet) (info : ServerInfo)
    (now : ℕ)
    → p.body ≡ server_info info
    → connect_with abi c effects (created p) now ≡ self_locked
unfolding connect_with established handle_server_info update_ping
connect_with-server_info abi c effects p info now same = ground (arith, same)

await_reply-created :
    (abi : Abi) (c : NetworkClient) (effects : List ClientEffect) (bytes : List ℕ) (p : Packet)
    (from : Address) (now : ℕ)
    → 0 < length bytes
    → (create_from_buffer abi c.counter now bytes).0 ≡ created p
    → await_reply abi c effects (some (bytes, from)) now
      ≡ connect_with abi
          (record c {
            server_addr = from;
            counter = (create_from_buffer abi c.counter now bytes).1;
          })
          effects
          (created p)
          now
unfolding await_reply
await_reply-created abi c effects bytes p from now long made = ground (arith, long, made)

connect-await_reply :
    (abi : Abi) (c : NetworkClient) (answer : SocketAnswer) (reply : Reply) (now : ℕ)
    → c.connected ≡ false
    → c.socket_open ≡ true
    → let (p, counter) = new_packet c.counter now 0 (client_info c.info) in
      connect abi c answer (some (length (serialize abi p))) reply now
      ≡ await_reply abi
          (record c { counter = counter })
          (datagram c.server_addr (serialize abi p) ∷ [])
          reply
          now
unfolding connect connect_open send_packet
connect-await_reply abi c answer reply now down opened = ground (arith, down, opened)

-- The server's information as the answer makes connect wait for a mutex that it holds: where the
-- client has an open socket and no connection, and its datagram is taken whole, connect does not
-- return.
pub connect-self_locked :
    (abi : Abi) (c : NetworkClient) (answer : SocketAnswer) (p : Packet) (info : ServerInfo)
    (from : Address) (now : ℕ)
    → c.connected ≡ false
    → c.socket_open ≡ true
    → Fits abi p
    → p.body ≡ server_info info
    → connect abi c answer
        (some (length (serialize abi (new_packet c.counter now 0 (client_info c.info)).0)))
        (some (serialize abi p, from))
        now
      ≡ self_locked
connect-self_locked abi c answer p info from now down opened fits same =
    let (greeting, counter) = new_packet c.counter now 0 (client_info c.info) in
    let waiting : NetworkClient = record c { counter = counter } in
    let effects = datagram c.server_addr (serialize abi greeting) ∷ [] in
    connect-await_reply abi c answer (some (serialize abi p, from)) now down opened
    ∙ await_reply-created abi waiting effects (serialize abi p) p from now
        (omega (arith, length-serialize abi p))
        (create_from_buffer-serialize abi counter now p fits)
    ∙ connect_with-server_info abi _ effects p info now same
