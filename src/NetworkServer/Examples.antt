-- ===== src/NetworkServer/Examples.antt =====
-- The theorems on the network server at concrete inputs.
use zero_latency_yolo.Base.{◌<◌, ◌≡◌, refl, true, false, [], ◌∷◌, some, arith, length}
use zero_latency_yolo.Base.Table.{lookup}
use zero_latency_yolo.Float.{pattern_float}
use zero_latency_yolo.Protocol.{Packet, FrameData, GameState, heartbeat, frame_data}
use zero_latency_yolo.Protocol.Serialize.{serialize, body_size}
use zero_latency_yolo.Protocol.Deserialize.{created, create_from_buffer}
use zero_latency_yolo.Protocol.Fits.{Fits}
use zero_latency_yolo.Protocol.Examples.{sample_abi}
use zero_latency_yolo.Udp.{is_same_addr}
use zero_latency_yolo.Udp.Server.{ReliableUdpServer, success, datagram, packet_sent, client_at}
use zero_latency_yolo.Udp.Server.Send.{taken}
use zero_latency_yolo.Udp.Examples.{sample_config, sample_server, sample_client, peer}
use zero_latency_yolo.Game.{GameAdapter, new_adapter, new_client_state}
use zero_latency_yolo.Game.Track.{label_detections, scaled}
use zero_latency_yolo.Inference.{OnnxInferenceEngine}
use zero_latency_yolo.NetworkServer.{NetworkServer, done, handle_packet}
use zero_latency_yolo.NetworkServer.Heartbeat.{reply, handle_packet-heartbeat}
use zero_latency_yolo.NetworkServer.Results.{result_packet}

abbrev pub network : ReliableUdpServer
network = record sample_server { config = record sample_config { use_packet_aggregation = false } }

abbrev pub engine : OnnxInferenceEngine
engine = record {
  config = record {
    worker_threads = 2;
    model_width = 416;
    model_height = 416;
    confidence_threshold = 3;
    nms_threshold = 30;
    use_priority_scheduling = true;
  };
  running = true;
  simulation_mode = false;
  workers = 2;
  tasks = [];
  queue_high_water_mark = 0;
  has_callback = true;
  inference_count = 0;
  inference_errors = 0;
  total_inference_time_ms = 0;
  latency_history = [];
  avg_inference_latency_ms = 0;
  p99_inference_latency_ms = 0;
}

abbrev pub adapter : GameAdapter
adapter = record new_adapter { initialized = true; clients = (1, new_client_state 1) ∷ [] }

abbrev pub server : NetworkServer
server = record {
  network = network;
  engine = engine;
  adapter = adapter;
  counter = 17;
  packets_received = 0;
  packets_sent = 0;
  bytes_received = 0;
  bytes_sent = 0;
}

abbrev pub ping_packet : Packet
ping_packet = record { sequence = 4; timestamp = 90; body = heartbeat 30 }

pub ping_packet-Fits : Fits sample_abi ping_packet
unfolding body_size
ping_packet-Fits = omega arith

pub at_peer : client_at peer network.clients ≡ some (1, sample_client)
unfolding client_at is_same_addr
at_peer = refl

handle_packet-heartbeat_example :
    (s' : NetworkServer) × (handle_packet sample_abi server
        (serialize sample_abi ping_packet)
        peer
        95
        (taken (
          length (
            serialize sample_abi
              (reply sample_abi server (serialize sample_abi ping_packet) 30 95))))
      ≡ done s'
          (success tt)
          (datagram peer (
              serialize sample_abi
                (reply sample_abi server (serialize sample_abi ping_packet) 30 95))
            ∷ packet_sent
            ∷ [])
          [])
    × ((create_from_buffer sample_abi 6 99 (
          serialize sample_abi
            (reply sample_abi server (serialize sample_abi ping_packet) 30 95))).0
        ≡ created (reply sample_abi server (serialize sample_abi ping_packet) 30 95))
    × ((reply sample_abi server (serialize sample_abi ping_packet) 30 95).body ≡ heartbeat 30)
    × ((reply sample_abi server (serialize sample_abi ping_packet) 30 95).timestamp ≡ 95)
handle_packet-heartbeat_example =
    handle_packet-heartbeat sample_abi server ping_packet 30 peer 95 1 sample_client 6 99
      ping_packet-Fits refl refl refl refl at_peer (omega arith) (omega arith)

abbrev frame : FrameData
frame = record {
  frame_id = 8;
  timestamp = 91;
  width = 1;
  height = 2;
  pixels = 1 ∷ 2 ∷ 3 ∷ 4 ∷ 5 ∷ 6 ∷ [];
  keyframe = true;
}

abbrev frame_packet : Packet
frame_packet = record { sequence = 5; timestamp = 92; body = frame_data frame }

abbrev pub state : GameState
state = record {
  frame_id = 8;
  timestamp = 91;
  detections =
      record {
        box = record { x = 9; y = 9; width = 2; height = 2 };
        confidence = 5;
        class_id = 0;
        track_id = 0;
        padding = 0;
        timestamp = 94;
      }
      ∷ [];
}

pub result_packet-Fits : Fits sample_abi (result_packet pattern_float server state 95)
unfolding body_size label_detections scaled
result_packet-Fits = omega arith

pub known : lookup 1 network.clients ≡ some sample_client
unfolding lookup
known = refl

pub registered : lookup 1 adapter.clients ≡ some (new_client_state 1)
unfolding lookup
registered = refl

pub result_packet-size :
    body_size sample_abi (result_packet pattern_float server state 95).body < 200
unfolding body_size label_detections scaled
result_packet-size = omega arith

pub game_one : (new_client_state 1).game_id ≡ 1
unfolding new_client_state
game_one = refl
