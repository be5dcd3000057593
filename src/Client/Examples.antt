-- ===== src/Client/Examples.antt =====
-- The theorems on the client's network at concrete inputs.
use zero_latency_yolo.Base.{ℕ, ◌≡◌, refl, true, false, List, [], ◌∷◌, some, length, arith}
use zero_latency_yolo.Float.{pattern_float}
use zero_latency_yolo.Protocol.{
  Packet, ClientInfo, FrameData, GameState, client_info, server_info, new_packet,
}
use zero_latency_yolo.Protocol.Serialize.{serialize, body_size}
use zero_latency_yolo.Protocol.Fits.{Fits}
use zero_latency_yolo.Protocol.Delivery.{length-serialize}
use zero_latency_yolo.Protocol.Examples.{sample_abi}
use zero_latency_yolo.Udp.Server.{success, packet_sent}
use zero_latency_yolo.Udp.Server as Udp
use zero_latency_yolo.Udp.Server.Send.{taken}
use zero_latency_yolo.Udp.Examples.{sample_client, peer}
use zero_latency_yolo.Game.{new_client_state, cs16}
use zero_latency_yolo.Game.Weapons.{done, self_locked}
use zero_latency_yolo.NetworkServer.{NetworkServer, on_inference_result}
use zero_latency_yolo.NetworkServer as Server
use zero_latency_yolo.NetworkServer.Heartbeat.{reply}
use zero_latency_yolo.Game.Track.{label_detections}
use zero_latency_yolo.NetworkServer.Results.{result_packet}
use zero_latency_yolo.NetworkServer.Examples.{
  server, ping_packet, state, known, registered, game_one, result_packet-Fits, result_packet-size,
}
use zero_latency_yolo.Client.{
  NetworkClient, SocketAnswer, new_client, create_socket, initialize, connect, disconnect,
  send_frame, result,
}
use zero_latency_yolo.Client.Receive.{handle_packet, heartbeat_once}
use zero_latency_yolo.Client.Ping.{IsBetween, ping_after, ping_after_bounds}
use zero_latency_yolo.Client.Unconnected.{Fails, connect-Fails}
use zero_latency_yolo.Client.History.{
  Call, initializing, disconnecting, call, calls, send_frame-calls,
}
use zero_latency_yolo.Client.Answers.{handle_packet-result, connect-self_locked}

abbrev own : ClientInfo
own = record {
  client_id = 0;
  protocol_version = 1;
  screen_width = 1920;
  screen_height = 1080;
  game_id = 1;
  padding = 0;
}

abbrev ready : NetworkClient
ready = record {
  server_addr = peer;
  info = own;
  socket_open = true;
  running = false;
  connected = false;
  sequence_number = 0;
  has_callback = true;
  fps = 0;
  ping = 8;
  counter = 3;
}

abbrev usable : SocketAnswer
usable = record { made = true; nonblocking = true }

abbrev greeting : Packet
greeting = record {
  sequence = 9;
  timestamp = 100;
  body = server_info (record {
    server_id = 1;
    protocol_version = 1;
    model_version = 1;
    max_clients = 16;
    padding = 0;
    max_fps = 60;
    status = 0;
    tail_padding = 0;
  });
}

greeting-Fits : Fits sample_abi greeting
unfolding body_size
greeting-Fits = omega arith

connect-Fails_example :
    Fails (connect sample_abi ready usable (some 40) (some (1 ∷ 2 ∷ [], peer)) 7)
connect-Fails_example =
    connect-Fails sample_abi ready usable (some 40) (some (1 ∷ 2 ∷ [], peer)) 7 refl

connect-self_locked_example :
    connect sample_abi ready usable
      (some (length (serialize sample_abi (new_packet 3 101 0 (client_info own)).0)))
      (some (serialize sample_abi greeting, peer))
      101
    ≡ self_locked
connect-self_locked_example =
    connect-self_locked sample_abi ready usable greeting
      (record {
        server_id = 1;
        protocol_version = 1;
        model_version = 1;
        max_clients = 16;
        padding = 0;
        max_fps = 60;
        status = 0;
        tail_padding = 0;
      })
      peer 101 refl refl greeting-Fits refl

abbrev frame : FrameData
frame = record {
  frame_id = 1;
  timestamp = 50;
  width = 1;
  height = 1;
  pixels = 1 ∷ 2 ∷ 3 ∷ [];
  keyframe = true;
}

abbrev started : List Call
started = initializing true (some 5) usable ∷ (disconnecting ∷ [])

abbrev after_start : NetworkClient
after_start = record {
  server_addr = record { host = 5; port = 27015 };
  info = own;
  socket_open = true;
  running = false;
  connected = false;
  sequence_number = 0;
  has_callback = false;
  fps = 0;
  ping = 0;
  counter = 1;
}

started_lem : calls sample_abi (done (new_client 27015 own)) started ≡ done after_start
unfolding calls call new_client initialize create_socket disconnect
started_lem = refl

send_frame-calls_example :
    (send_frame sample_abi after_start frame 60 (some 200) ≡ (after_start, false, []))
    × (heartbeat_once sample_abi after_start 60 (some 200) ≡ (after_start, false, []))
send_frame-calls_example =
    send_frame-calls sample_abi 27015 own started after_start frame 60 (some 200) started_lem

ping_after_bounds_example : IsBetween 10 90 (ping_after 0 (20 ∷ (90 ∷ (10 ∷ []))))
ping_after_bounds_example =
    ping_after_bounds 10 90 20 (90 ∷ (10 ∷ [])) (omega arith) (omega arith)
      ((omega arith, omega arith), ((omega arith, omega arith), tt))

abbrev answer_bytes : List ℕ
answer_bytes =
    serialize sample_abi (reply sample_abi server (serialize sample_abi ping_packet) 30 95)

abbrev result_bytes : List ℕ
result_bytes = serialize sample_abi (result_packet pattern_float server state 95)

handle_packet-result_example :
    let shown : GameState = record state {
      detections =
          (label_detections pattern_float server.adapter.head_size_factor
            server.adapter.next_track_id state.detections).0;
    } in
    (s' : NetworkServer) × (counter : ℕ) × (on_inference_result sample_abi pattern_float cs16 server
        1 state 95
        (taken (length result_bytes))
      ≡ Server.done s' (success tt) (Udp.datagram peer result_bytes ∷ packet_sent ∷ []) [])
    × (handle_packet sample_abi ready result_bytes 120
        ≡ done (record ready { counter = counter }, result shown ∷ []))
handle_packet-result_example =
    handle_packet-result sample_abi pattern_float cs16 server 1 state 95 sample_client
      (new_client_state 1) ready 120 known registered game_one refl refl refl refl
      (omega (
        arith,
        length-serialize sample_abi (result_packet pattern_float server state 95),
        result_packet-size,
      ))
      result_packet-Fits refl
