-- ===== src/NetworkServer/Results.antt =====
-- A result of the engine on its way through `onInferenceResult` of src/network/network_server.cpp to
-- the client.
use zero_latency_yolo.Base.{ℕ, ◌+◌, ◌≤◌, ◌≡◌, ◌∙◌, true, false, [], ◌∷◌, some, arith, length, u32}
use zero_latency_yolo.Base.Table.{lookup}
use zero_latency_yolo.Float.{Float}
use zero_latency_yolo.Protocol.{Abi, Packet, GameState, detection_result, new_packet, next_sequence}
use zero_latency_yolo.Protocol.Serialize.{serialize}
use zero_latency_yolo.Protocol.Deserialize.{created, create_from_buffer}
use zero_latency_yolo.Protocol.Delivery.{create_from_buffer-serialize}
use zero_latency_yolo.Protocol.Fits.{Fits}
use zero_latency_yolo.Udp.{ClientConnection}
use zero_latency_yolo.Udp.Server.{success, datagram, packet_sent}
use zero_latency_yolo.Udp.Server.Send.{taken}
use zero_latency_yolo.Game.{GameAdapter, ClientState, Game}
use zero_latency_yolo.Game.Adapter.{get_client_state}
use zero_latency_yolo.Game.Track.{process_detections, label_detections}
use zero_latency_yolo.NetworkServer.{NetworkServer, done, send_packet, on_inference_result}
use zero_latency_yolo.NetworkServer.Heartbeat.{send_packet_whole}

-- The packet with a result: its detections as the game adapter labels them.
abbrev pub result_packet : Float → NetworkServer → GameState → ℕ → Packet
result_packet fp s state now = record {
  sequence = s.counter;
  timestamp = now;
  body = detection_result (record state {
    detections =
        (label_detections fp s.adapter.head_size_factor s.adapter.next_track_id state.detections).0;
  });
}

on_inference_result-send_packet :
    (abi : Abi) (fp : Float) (game : Game) (s : NetworkServer) (id : ℕ) (state : GameState)
    (now : ℕ) (c : ClientConnection) (client : ClientState) (answer : _)
    → lookup id s.network.clients ≡ some c
    → lookup id s.adapter.clients ≡ some client
    → client.game_id ≡ game.game_id
    → s.adapter.initialized ≡ true
    → (adapter : GameAdapter) × (on_inference_result abi fp game s id state now answer
        ≡ send_packet abi
            (record s { adapter = adapter; counter = u32 (s.counter + 1) })
            (result_packet fp s state now)
            c.address
            now
            answer)
unfolding on_inference_result process_detections get_client_state new_packet next_sequence
on_inference_result-send_packet abi fp game s id state now c client answer known registered same
      ready =
    (
      (process_detections fp game s.adapter id state client.game_id).0,
      ground (arith, known, registered, same, ready),
    )

-- A result for a client that the UDP server and the initialised game adapter know, under the game of
-- the adapter: the running server with an open socket, which does not aggregate, reports success and
-- sends one datagram to the client's address, of which the client's packet factory makes the result,
-- with the detections as the adapter labels them, where these and the counter fit their types, the
-- packet the 16 bits of its length, and the socket takes the datagram whole.
pub on_inference_result_lem :
    (abi : Abi) (fp : Float) (game : Game) (s : NetworkServer) (id : ℕ) (state : GameState)
    (now : ℕ) (c : ClientConnection) (client : ClientState) (counter arrival : ℕ)
    → lookup id s.network.clients ≡ some c
    → lookup id s.adapter.clients ≡ some client
    → client.game_id ≡ game.game_id
    → s.adapter.initialized ≡ true
    → s.network.socket_open ≡ true
    → s.network.running ≡ true
    → s.network.config.use_packet_aggregation ≡ false
    → length (serialize abi (result_packet fp s state now)) ≤ 65536
    → Fits abi (result_packet fp s state now)
    → let r = result_packet fp s state now in
      (s' : NetworkServer) × (on_inference_result abi fp game s id state now
          (taken (length (serialize abi r)))
        ≡ done s' (success tt) (datagram c.address (serialize abi r) ∷ packet_sent ∷ []) [])
      × ((create_from_buffer abi counter arrival (serialize abi r)).0 ≡ created r)
on_inference_result_lem abi fp game s id state now c client counter arrival known registered same
      ready opened running single small fits =
    let r = result_packet fp s state now in
    let (adapter, handed) =
      on_inference_result-send_packet abi fp game s id state now c client
        (taken (length (serialize abi r))) known registered same ready in
    let (s', sent) =
      send_packet_whole abi (record s { adapter = adapter; counter = u32 (s.counter + 1) }) r
        c.address now opened running single small in
    (s', handed ∙ sent, create_from_buffer-serialize abi counter arrival r fits)
