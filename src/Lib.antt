-- ===== src/Lib.antt =====
-- A verification library for the Zero-Latency YOLO server: the wire protocol, the reliable UDP layer,
-- the queue between threads, the game adapters, the inference engine, the server that ties them
-- together, the Kalman tracker, and the client's connection, settings, predictions and fusion of
-- detections.
--
-- The program. A client captures the screen and sends frames to the server in packets of the
-- protocol (src/common/protocol.h). The server receives datagrams in a thread of
-- `ReliableUdpServer` (src/network/reliable_udp.cpp), which checks and acknowledges them and hands
-- them to a packet handler; a second thread removes clients that are silent and sends again what was
-- not acknowledged. The handler (src/network/network_server.cpp) parses packets with `PacketFactory`,
-- answers heartbeats, registers clients and hands frames to the inference engine (src/inference),
-- whose threads run the model and call back with detections; the game adapter (src/game) labels and
-- tracks these, and the server sends them to the client, where `DualEngine` (src/client) fuses them
-- with predictions. A tracker with Kalman filters stands beside these (src/game/kalman_tracker.cpp).
--
-- The files.
--   Base: Boolean tests, lists, machine words, exclusive or, association lists for
--     `std::unordered_map` (Base/Table), chains of results that may be missing (Base/Maybe) and
--     permuted lists (Base/Perms), and numbers as text (Base/Decimal).
--   Crc: `calculateCRC16` of src/common/protocol.h; Crc/Detect: what it detects.
--   Wire: bytes of numbers, `std::vector::resize` and `memcpy`; Wire/Reader: reading a buffer, where
--     a read past the end is `none`; Wire/Write and Wire/Laws: their laws.
--   Protocol: the structs of src/common/types.h, the packet classes, the outcome of a parse.
--     Protocol/Structs, Protocol/Serialize and Protocol/Deserialize: `Packet::serialize`,
--     `Packet::deserialize`, each class's `serializeBody` and `deserializeBody`, `validate` and
--     `PacketFactory::createFromBuffer`. Protocol/Fits: when the members hold values of their types.
--     Protocol/Safety, RoundTrip, Delivery, Corruption: proofs. Protocol/Examples: tests.
--   Udp: the data of src/network/reliable_udp.h. Udp/Double: sums of two products of `double`, as
--     far as `updateRtt` needs them. Udp/Connection: the methods of `ClientConnection`;
--     Connection/Rtt and Connection/Window: proofs. Udp/Server: `ReliableUdpServer`, its life and
--     its clients; Server/Send: `sendPacket`; Server/Receive: `handleReceivedPacket`, `handleAck`,
--     `sendAck`; Server/Manage: the management thread. Server/Clients, Sweep, Retransmit,
--     RetransmitAll, Acks, Sending: what the methods do. Server/Valid, Addresses, Invariant,
--     Preserve, History: the invariant and its preservation. Udp/Order: `isSequenceNewer`. Udp/Examples: tests.
--   Queue: `ConcurrentQueue`; Queue/Fifo and Queue/Bounds: proofs; Queue/Examples: tests.
--   EventBus: `EventBus` of src/common/event_bus.h; EventBus/Order: a proof; EventBus/Examples: a test.
--   Float: the operations on `float`, and what holds of its comparisons.
--   Game: the state of the adapters of src/game/base and src/game/games. Game/Adapter: the methods of
--     `GameAdapterBase`; Game/Weapons: `initialize`, `loadWeaponData`, `getWeaponInfo`; Game/Track:
--     `processDetections`; Game/Target: `calculateBestTarget`; Game/Aim: `predictMotion`,
--     `getAimPoint`, `calculateRecoilCompensation`; Game/Manager: `GameAdapterManager`. Track/Laws,
--     Track/Late, Target/Closest: proofs; Game/Examples: tests.
--   Inference: `OnnxInferenceEngine` of src/inference, its start, its end and submissions.
--     Inference/Preprocess, Postprocess and Nms: `preProcess`, `postProcess`, `applyNMS`;
--     Inference/Engine: `runInference` and the turns of the threads. Each has its proofs in a child
--     Laws, as far as it has any; Inference/Examples: tests.
--   Tracker: `KalmanTracker` of src/game/kalman_tracker.cpp; Tracker/Match and Tracker/Multi:
--     `MultiObjectTracker`; Tracker/Laws and Tracker/Stale: proofs; Tracker/Examples: a test.
--   DualEngine: the matching of `DualEngine` of src/client/dual_engine.cpp; DualEngine/Fuse:
--     `fuseDetections` and the methods that change the state; DualEngine/Similar, Matches and
--     DualEngine/Pipeline: proofs; DualEngine/Examples: tests.
--   NetworkServer: `NetworkServer`; NetworkServer/Heartbeat, Frames and Results: packets on their way
--     through all the components; NetworkServer/Examples: tests.
--   Client: `NetworkClient` of src/client/network.cpp; Client/Receive: a round of each of its threads,
--     and `handlePacket`; Client/Ping, Unconnected, History and Answers: proofs; Client/Examples: tests.
--   ClientConfig: `ClientConfig` of src/server/config.h; ClientConfig/Save and Load:
--     `saveClientConfig` and `loadClientConfig` of src/client/config.cpp; ClientConfig/Lines and
--     RoundTrip: proofs; ClientConfig/Examples: tests.
--   ServerConfig: the structs of src/server/config.h as JSON, one file for each; ServerConfig/Json:
--     what is used of the JSON library; ServerConfig/Tables and Games: maps that are written and read
--     back, proofs; ServerConfig/Manager: `ConfigManager`; ServerConfig/Examples: tests.
--   Prediction: `PredictionEngine` of src/client/prediction_engine.cpp; Prediction/Motion: `update`;
--     Prediction/Predict: `predictState`; Prediction/Dual: the calls of `DualEngine` that go through
--     both engines, and a proof; Prediction/Invariant and Shape: proofs; Prediction/Examples: tests.
--
-- The model. Each method is a function from the state to the new state, what C++ returns, and the
-- list of what goes out (datagrams, events, calls of the handler). The clock and what system calls
-- answer are arguments. Integers keep their widths: `u8`, `u16`, `u32` and `u64` cut a sum,
-- `sub32` and `sub64` are the differences that wrap. A value of type `float` is its bit pattern. The
-- layout of the structs is the packed one for the header and that of x86-64 for the others, padding
-- included. The numbers that the repository leaves open or contradictory (the value of
-- `PacketType::ACK`, which is not declared, and the size of `ErrorCode`, of which there are two) are
-- the parameter `Abi`. No loop of the
-- code runs on fuel: all follow lists or numbers (the digits of a number are printed in at most as many
-- rounds as the number).
--
-- Not modelled: sockets and `initialize` beyond success and failure, what the receiving thread of the
-- UDP server does when `recvfrom` fails (it opens the socket again), threads and mutexes (each method
-- is one step; that a thread takes a `std::mutex` that it holds, which C++ leaves undefined, is
-- modelled as a wait for itself for the game adapters and the client, and not for
-- `ReliableUdpServer::sendPacket`), the log, the printout `getStatus`, the order in which an
-- `unordered_map` is traversed (it is the order of the list, which is arbitrary), the priority queue,
-- the memory pool, the older interface of the game adapters (src/game/game_adapter.h), the steps of
-- the lock-free `WorkQueue`, loading and monitoring of the model, the random detections of the
-- simulation, the JSON of src/client/config.cpp and, of the client, capture, display and input. The
-- operations on `float`, their printing and reading, the JSON library, what Winsock and the file
-- system answer, the run of the model, the filter and the assignment of OpenCV and `std::sort` are
-- parameters, with what is used of them as hypotheses.
pub mod Base
pub mod Crc
pub mod Wire
pub mod Protocol
pub mod Udp
pub mod Queue
pub mod Float
pub mod Game
pub mod Inference
pub mod NetworkServer
pub mod Tracker
pub mod DualEngine
pub mod EventBus
pub mod Prediction
pub mod Client
pub mod ClientConfig
pub mod ServerConfig
