-- ===== src/NetworkServer.antt =====
-- `NetworkServer` of src/network/network_server.cpp, which ties the UDP server, the packets, the game
-- adapter and the inference engine together. `now` is the system clock as a call reads it, `answer`
-- what `sendto` returns.
pub mod Heartbeat
pub mod Frames
pub mod Results
pub mod Examples
use zero_latency_yolo.Base.{
  ℕ, ◌+◌, ◌*◌, ◌^◌, Bool, true, false, List, [], ◌∷◌, ◌++◌, Option, none, some, length, not, ◌||◌,
  ltb, leb, ◌==◌, if◌then◌else◌, u64,
}
use zero_latency_yolo.Base.Table.{lookup}
use zero_latency_yolo.Float.{Float}
use zero_latency_yolo.Protocol.{
  Abi, Packet, Body, ClientInfo, ServerInfo, FrameData, GameState, heartbeat, client_info,
  server_info, frame_data, detection_result, error_report, command, acknowledgement, new_packet,
  header_size, version_number, invalid_input,
}
use zero_latency_yolo.Protocol.Serialize.{serialize}
use zero_latency_yolo.Protocol.Deserialize.{created, failed, faulted, create_from_buffer}
use zero_latency_yolo.Udp.{Address}
use zero_latency_yolo.Udp.Server.{
  ReliableUdpServer, Result, success, failure, Effect, find_client_by_addr, get_client_count,
}
use zero_latency_yolo.Udp.Server as Network
use zero_latency_yolo.Udp.Server.Send.{SendResult}
use zero_latency_yolo.Udp.Server.Send as Send
use zero_latency_yolo.Game.{GameAdapter, ClientState, Game}
use zero_latency_yolo.Game.Adapter as Adapter
use zero_latency_yolo.Game.Track.{process_detections}
use zero_latency_yolo.Inference.{InferenceRequest, OnnxInferenceEngine, Notice, submit_inference}

-- The components that the server holds, the counter of `SequenceGenerator`, and the statistics.
pub record NetworkServer : Type 0 where
  pub network : ReliableUdpServer
  pub engine : OnnxInferenceEngine
  pub adapter : GameAdapter
  pub counter : ℕ
  pub packets_received : ℕ
  pub packets_sent : ℕ
  pub bytes_received : ℕ
  pub bytes_sent : ℕ

-- What a handler comes to, with what reaches the outside; or a step that C++ leaves undefined.
pub data Handled : Type 0 where
  done : NetworkServer → Result (Unit {0}) → List Effect → List Notice → Handled
  undefined : Handled

-- What `sendPacket` makes of the answer of the UDP server.
unfoldable pub after_send :
    NetworkServer → ℕ → ReliableUdpServer × Result (Unit {0}) × List Effect → Handled
after_send s size (network, failure code, effects) =
    done (record s { network = network }) (failure code) effects []
after_send s size (network, success _, effects) =
    done
      (record s {
        network = network;
        packets_sent = u64 (s.packets_sent + 1);
        bytes_sent = u64 (s.bytes_sent + size);
      })
      (success tt) effects []

-- `sendPacket`, in the default mode, which is reliable.
unfoldable pub send_packet : Abi → NetworkServer → Packet → Address → ℕ → SendResult → Handled
send_packet abi s p a now answer =
    let content = serialize abi p in
    after_send s (length content) (Send.send_packet s.network content a true now answer)

-- `handleHeartbeat`.
unfoldable pub handle_heartbeat : Abi → NetworkServer → ℕ → Address → ℕ → SendResult → Handled
handle_heartbeat abi s ping a now answer = elim (find_client_by_addr s.network a) [
  | none ↦ done s (success tt) [] []
  | some id ↦
      let (response, counter) = new_packet s.counter now 0 (heartbeat ping) in
      send_packet abi (record s { counter = counter }) response a now answer
]

-- What the server says of itself; the padding, which C++ leaves unset, is 0. The version of the model
-- is 1.0.
abbrev pub own_info : ServerInfo
own_info = record {
  server_id = 1;
  protocol_version = version_number;
  model_version = 1065353216;
  max_clients = 10;
  padding = 0;
  max_fps = 60;
  status = 0;
  tail_padding = 0;
}

-- `handleClientInfo`; the game adapter's answer is only logged.
unfoldable pub handle_client_info :
    Abi → NetworkServer → ClientInfo → Address → ℕ → SendResult → Handled
handle_client_info abi s info a now answer =
    let (network, registered, connected) = Network.register_client s.network a info now in
    elim registered [
      | failure code ↦ done (record s { network = network }) (failure code) connected []
      | success id ↦
          let (adapter, _, adapted) = Adapter.register_client s.adapter id info.game_id in
          let (response, counter) = new_packet s.counter now 0 (server_info own_info) in
          after (connected ++ adapted) (
            send_packet abi (record s { network = network; adapter = adapter; counter = counter })
              response a now answer)
    ]
  where
    after : List Effect → Handled → Handled
    after earlier (done s result effects notices) = done s result (earlier ++ effects) notices
    after earlier undefined = undefined

unfoldable pub request_of : FrameData → ℕ → InferenceRequest
request_of frame id = record {
  client_id = id;
  frame_id = frame.frame_id;
  timestamp = frame.timestamp;
  width = frame.width;
  height = frame.height;
  pixels = frame.pixels;
  is_keyframe = frame.keyframe;
}

-- `handleFrameData`; `width * height * 3` is an `int`.
unfoldable pub handle_frame_data : NetworkServer → FrameData → ℕ → ℕ → Handled
handle_frame_data s frame id now =
    if length frame.pixels == 0 || frame.width == 0 || frame.height == 0
    then done s (failure invalid_input) [] []
    else if leb (2 ^ 31) (frame.width * frame.height * 3)
    then undefined
    else if not (length frame.pixels == frame.width * frame.height * 3)
    then done s (failure invalid_input) [] []
    else let (engine, result, notices) = submit_inference s.engine (request_of frame id) now in
      done (record s { engine = engine }) result [] notices

-- The switch of `handlePacket`.
unfoldable pub handle_body : Abi → NetworkServer → Body → Address → ℕ → SendResult → Handled
handle_body abi s (heartbeat ping) a now answer = handle_heartbeat abi s ping a now answer
handle_body abi s (client_info info) a now answer = handle_client_info abi s info a now answer
handle_body abi s (frame_data frame) a now answer = elim (find_client_by_addr s.network a) [
  | none ↦ done s (success tt) [] []
  | some id ↦ handle_frame_data s frame id now
]
handle_body abi s (server_info info) a now answer = done s (success tt) [] []
handle_body abi s (detection_result state) a now answer = done s (success tt) [] []
handle_body abi s (error_report code message) a now answer = done s (success tt) [] []
handle_body abi s (command type content) a now answer = done s (success tt) [] []
handle_body abi s (acknowledgement sequence) a now answer = done s (success tt) [] []

-- `handlePacket`; its results are those that are logged.
unfoldable pub handle_packet : Abi → NetworkServer → List ℕ → Address → ℕ → SendResult → Handled
handle_packet abi s content a now answer =
    let (made, counter) = create_from_buffer abi s.counter now content in
    if ltb (length content) header_size then done s (success tt) [] [] else elim made [
      | faulted ↦ undefined
      | failed code ↦ done (record s { counter = counter }) (success tt) [] []
      | created p ↦
          handle_body abi
            (record s {
              counter = counter;
              packets_received = u64 (s.packets_received + 1);
              bytes_received = u64 (s.bytes_received + length content);
            })
            p.body a now answer
    ]

-- `onInferenceResult`. The address of a client, which it asks of a method `getClientInfo` that the
-- UDP server does not declare, is that of the client's connection. The result is what is logged.
unfoldable pub on_inference_result :
    Abi → Float → Game → NetworkServer → ℕ → GameState → ℕ → SendResult → Handled
on_inference_result abi fp game s id state now answer = elim (lookup id s.network.clients) [
  | none ↦ done s (success tt) [] []
  | some c ↦ elim (Adapter.get_client_state s.adapter id) [
    | none ↦ done s (success tt) [] []
    | some client ↦
        let (adapter, processed) = process_detections fp game s.adapter id state client.game_id in
        elim processed [
          | failure code ↦ done (record s { adapter = adapter }) (success tt) [] []
          | success processed_state ↦
              let (response, counter) =
                new_packet s.counter now 0 (detection_result processed_state) in
              send_packet abi (record s { adapter = adapter; counter = counter }) response c.address
                now answer
        ]
  ]
]

-- `getClientCount`.
unfoldable pub get_server_client_count : NetworkServer → ℕ
get_server_client_count s = get_client_count s.network
