-- ===== src/Wire.antt =====
-- Byte buffers as src/common/protocol.h uses them: the object representation of integers on a
-- little-endian machine, `std::vector<uint8_t>::resize`, and `std::memcpy` into and out of a buffer.
pub mod Reader
pub mod Laws
pub mod Write
use zero_latency_yolo.Base.{
  ℕ, zero, suc, ◌+◌, ◌-◌, ◌*◌, ◌/◌, ◌%◌, List, [], ◌∷◌, ◌++◌, length, take, drop, replicate,
}

-- The bytes of a `w`-byte integer, lowest first.
unfoldable pub le : ℕ → ℕ → List ℕ
le zero n = []
le (suc w) n = (n % 256) ∷ le w (n / 256)

unfoldable pub from_le : List ℕ → ℕ
from_le [] = 0
from_le (b ∷ bs) = b + 256 * from_le bs

-- New bytes are zero.
unfoldable pub resize : ℕ → List ℕ → List ℕ
resize size buffer = take size buffer ++ replicate (size - length buffer) 0

-- `std::memcpy(buffer.data() + offset, src, length)` for a destination inside the buffer.
unfoldable pub write_at : ℕ → List ℕ → List ℕ → List ℕ
write_at offset src buffer = take offset buffer ++ (src ++ drop (offset + length src) buffer)

-- Fields copied one after the other: `memcpy(data + offset, ...); offset += size;`.
unfoldable pub write_fields : List ℕ → ℕ → List (List ℕ) → List ℕ
write_fields buffer offset [] = buffer
write_fields buffer offset (field ∷ fields) =
    write_fields (write_at offset field buffer) (offset + length field) fields

-- The fields one after the other.
abbrev pub joined : List (List ℕ) → List ℕ
joined [] = []
joined (field ∷ fields) = field ++ joined fields
