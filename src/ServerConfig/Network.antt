-- ===== src/ServerConfig/Network.antt =====
-- `NetworkConfig` of src/server/config.h as JSON.
use Prim.Native.String.{String}
use zero_latency_yolo.Base.{ℕ, ◌^◌, ◌<◌, ◌≡◌, refl, Bool, true, List, [], ◌∷◌, Option, some}
use zero_latency_yolo.Base.Maybe.{◌>>=◌}
use zero_latency_yolo.ServerConfig.Json.{Json, IsJson, read, read-object}

pub record NetworkConfig : Type 0 where
  pub port : ℕ
  pub web_port : ℕ
  pub recv_buffer_size : ℕ
  pub send_buffer_size : ℕ
  pub timeout_ms : ℕ
  pub heartbeat_interval_ms : ℕ
  pub max_retries : ℕ
  pub use_reliable_udp : Bool

-- The default constructor.
abbrev pub defaults : NetworkConfig
defaults = record {
  port = 7788;
  web_port = 3000;
  recv_buffer_size = 1048576;
  send_buffer_size = 1048576;
  timeout_ms = 5000;
  heartbeat_interval_ms = 1000;
  max_retries = 3;
  use_reliable_udp = true;
}

-- The members that `to_json` writes.
abbrev pub members : (j : Json) → NetworkConfig → List (String × j.Value)
members j c =
    ("port", j.of_unsigned c.port)
    ∷ ("web_port", j.of_unsigned c.web_port)
    ∷ ("recv_buffer_size", j.of_unsigned c.recv_buffer_size)
    ∷ ("send_buffer_size", j.of_unsigned c.send_buffer_size)
    ∷ ("timeout_ms", j.of_unsigned c.timeout_ms)
    ∷ ("heartbeat_interval_ms", j.of_unsigned c.heartbeat_interval_ms)
    ∷ ("max_retries", j.of_unsigned c.max_retries)
    ∷ ("use_reliable_udp", j.of_bool c.use_reliable_udp)
    ∷ []

-- `to_json`.
unfoldable pub to_json : (j : Json) → NetworkConfig → j.Value
to_json j c = j.object (members j c)

-- `from_json`.
unfoldable pub from_json : (j : Json) → NetworkConfig → j.Value → Option NetworkConfig
from_json j c v = do
  port ← read j (j.to_unsigned 16) v "port" c.port
  web_port ← read j (j.to_unsigned 16) v "web_port" c.web_port
  recv_buffer_size ← read j (j.to_unsigned 32) v "recv_buffer_size" c.recv_buffer_size
  send_buffer_size ← read j (j.to_unsigned 32) v "send_buffer_size" c.send_buffer_size
  timeout_ms ← read j (j.to_unsigned 32) v "timeout_ms" c.timeout_ms
  heartbeat_interval_ms ←
      read j (j.to_unsigned 32) v "heartbeat_interval_ms" c.heartbeat_interval_ms
  max_retries ← read j (j.to_unsigned 8) v "max_retries" c.max_retries
  use_reliable_udp ← read j j.to_bool v "use_reliable_udp" c.use_reliable_udp
  some (record {
    port = port;
    web_port = web_port;
    recv_buffer_size = recv_buffer_size;
    send_buffer_size = send_buffer_size;
    timeout_ms = timeout_ms;
    heartbeat_interval_ms = heartbeat_interval_ms;
    max_retries = max_retries;
    use_reliable_udp = use_reliable_udp;
  })

-- The numbers fit their types.
pub record Fits (c : NetworkConfig) : Type 0 where
  pub port : c.port < 2 ^ 16
  pub web_port : c.web_port < 2 ^ 16
  pub recv_buffer_size : c.recv_buffer_size < 2 ^ 32
  pub send_buffer_size : c.send_buffer_size < 2 ^ 32
  pub timeout_ms : c.timeout_ms < 2 ^ 32
  pub heartbeat_interval_ms : c.heartbeat_interval_ms < 2 ^ 32
  pub max_retries : c.max_retries < 2 ^ 8

-- What to_json writes is read back whole, whatever there was before.
pub from_json-to_json :
    (j : Json) (laws : IsJson j) (c old : NetworkConfig)
    → Fits c
    → from_json j old (to_json j c) ≡ some c
unfolding from_json to_json
from_json-to_json j laws c old h =
    rw
      (
        read-object j (j.to_unsigned 16) laws (members j c) "port" old.port c.port
            (j.of_unsigned c.port) refl refl (laws.unsigned 16 c.port h.port),
        read-object j (j.to_unsigned 16) laws (members j c) "web_port" old.web_port c.web_port
            (j.of_unsigned c.web_port) refl refl (laws.unsigned 16 c.web_port h.web_port),
        read-object j (j.to_unsigned 32) laws (members j c) "recv_buffer_size" old.recv_buffer_size
            c.recv_buffer_size (j.of_unsigned c.recv_buffer_size) refl refl
            (laws.unsigned 32 c.recv_buffer_size h.recv_buffer_size),
        read-object j (j.to_unsigned 32) laws (members j c) "send_buffer_size" old.send_buffer_size
            c.send_buffer_size (j.of_unsigned c.send_buffer_size) refl refl
            (laws.unsigned 32 c.send_buffer_size h.send_buffer_size),
        read-object j (j.to_unsigned 32) laws (members j c) "timeout_ms" old.timeout_ms c.timeout_ms
            (j.of_unsigned c.timeout_ms) refl refl (laws.unsigned 32 c.timeout_ms h.timeout_ms),
        read-object j (j.to_unsigned 32) laws (members j c) "heartbeat_interval_ms"
            old.heartbeat_interval_ms c.heartbeat_interval_ms
            (j.of_unsigned c.heartbeat_interval_ms) refl refl
            (laws.unsigned 32 c.heartbeat_interval_ms h.heartbeat_interval_ms),
        read-object j (j.to_unsigned 8) laws (members j c) "max_retries" old.max_retries
            c.max_retries (j.of_unsigned c.max_retries) refl refl
            (laws.unsigned 8 c.max_retries h.max_retries),
        read-object j j.to_bool laws (members j c) "use_reliable_udp" old.use_reliable_udp
            c.use_reliable_udp (j.of_bool c.use_reliable_udp) refl refl
            (laws.bool c.use_reliable_udp),
      )
      refl
