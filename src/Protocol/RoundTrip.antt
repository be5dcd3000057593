-- ===== src/Protocol/RoundTrip.antt =====
-- A packet that `Packet::serialize` prints is what `Packet::deserialize` reads back.
pub mod Bodies
use zero_latency_yolo.Base.{
  ℕ, ◌+◌, ◌-◌, ◌*◌, ◌^◌, ◌%◌, ◌≤◌, ◌<◌, ◌≡◌, refl, sym, ap, ◌∙◌, List, [], ◌∷◌, ◌++◌, some, length,
  arith, u16, ltb, ◌==◌, if◌then◌else◌, length-append, drop,
}
use zero_latency_yolo.Wire.{le, write_at, joined}
use zero_latency_yolo.Wire.Write.{write_fields_lem}
use zero_latency_yolo.Wire.Laws.{field-Parses}
use zero_latency_yolo.Wire.Reader.{◌>>=◌, pure, get_le}
use zero_latency_yolo.Crc.{calculate_crc16}
use zero_latency_yolo.Crc.Detect.{calculate_crc16-lt}
use zero_latency_yolo.Protocol.{
  Abi, Body, heartbeat, acknowledgement, Packet, Outcome, ok, packet_type, magic_number,
  version_number, header_size,
}
use zero_latency_yolo.Protocol.Serialize.{
  body_fields, body_size, serialize_body, header_bytes, checksum_of, serialize,
}
use zero_latency_yolo.Protocol.Deserialize.{
  PacketHeader, read_header, recomputed, is_valid_header, deserialize_body, deserialize_with,
  deserialize,
}
use zero_latency_yolo.Protocol.Fits.{Fits, FitsBody, length-body_fields}

abbrev pub body_bytes : Abi → Packet → List ℕ
body_bytes abi p = joined (body_fields abi p.body)

-- What the checksum is taken of: the packet with a zero in its place.
abbrev pub unchecked : Abi → Packet → List ℕ
unchecked abi p =
    header_bytes (packet_type abi p.body) (u16 (length (body_bytes abi p))) p.sequence p.timestamp 0
    ++ body_bytes abi p

sized_lem :
    (type size sequence timestamp : ℕ) (body : List ℕ)
    → write_at 6 (le 2 size) (header_bytes type 0 sequence timestamp 0 ++ body)
      ≡ header_bytes type size sequence timestamp 0 ++ body
unfolding write_at header_bytes le
sized_lem type size sequence timestamp body = refl

checked_lem :
    (type size sequence timestamp old checksum : ℕ) (body : List ℕ)
    → write_at 20 (le 2 checksum) (header_bytes type size sequence timestamp old ++ body)
      ≡ header_bytes type size sequence timestamp checksum ++ body
unfolding write_at header_bytes le
checked_lem type size sequence timestamp old checksum body = refl

pub length-header_bytes :
    (type size sequence timestamp checksum : ℕ) (body : List ℕ)
    → length (header_bytes type size sequence timestamp checksum ++ body) ≡ 22 + length body
unfolding header_bytes le
length-header_bytes type size sequence timestamp checksum body = omega arith

-- A printed packet is its header, with the size of the body and the checksum, and its body.
pub serialize_lem :
    (abi : Abi) (p : Packet)
    → serialize abi p
      ≡ header_bytes
          (packet_type abi p.body)
          (u16 (length (body_bytes abi p)))
          p.sequence
          p.timestamp
          (checksum_of (unchecked abi p))
        ++ body_bytes abi p
unfolding serialize serialize_body
serialize_lem abi p =
    rw
      (
        write_fields_lem head (body_fields abi p.body) (body_size abi p.body)
            (length-body_fields abi p.body),
        length-header_bytes type 0 p.sequence p.timestamp 0 body,
        minus,
        sized_lem type (u16 (length body)) p.sequence p.timestamp body,
      )
      (checked_lem type (u16 (length body)) p.sequence p.timestamp 0 _ body)
  where
    type : ℕ
    type = packet_type abi p.body

    body : List ℕ
    body = body_bytes abi p

    head : List ℕ
    head = header_bytes type 0 p.sequence p.timestamp 0

    minus : 22 + length body - 22 ≡ length body
    minus = omega arith

pub read_header_lem :
    (type size sequence timestamp checksum : ℕ) (body : List ℕ)
    → type < 2 ^ 8
    → size < 2 ^ 16
    → sequence < 2 ^ 32
    → timestamp < 2 ^ 64
    → checksum < 2 ^ 16
    → read_header (header_bytes type size sequence timestamp checksum ++ body)
      ≡ some (
        record {
          magic = magic_number;
          version = version_number;
          type = type;
          size = size;
          sequence = sequence;
          timestamp = timestamp;
          checksum = checksum;
        },
        body,
      )
unfolding read_header header_bytes
read_header_lem type size sequence timestamp checksum body ht hs hq hm hc =
    field-Parses 4 magic_number _ _ _ (omega arith)
      (field-Parses 1 version_number _ _ _ (omega arith) (
        field-Parses 1 type _ _ _ ht (
          field-Parses 2 size _ _ _ hs (
            field-Parses 4 sequence _ _ _ hq (
              field-Parses 8 timestamp _ _ _ hm
                (field-Parses 2 checksum _ [] _ hc (λ rest. refl)))))))
      body

pub recomputed_lem :
    (type size sequence timestamp checksum : ℕ) (body : List ℕ)
    → recomputed (header_bytes type size sequence timestamp checksum ++ body)
      ≡ checksum_of (header_bytes type size sequence timestamp 0 ++ body)
unfolding recomputed header_bytes write_at le
recomputed_lem type size sequence timestamp checksum body = refl

pub packet_type-lt : (abi : Abi) (b : Body) → packet_type abi b < 2 ^ 8
unfolding packet_type
packet_type-lt abi (heartbeat ping) = omega arith
packet_type-lt abi (acknowledgement n) = omega (arith, abi.ack_byte)
packet_type-lt abi b = omega arith

pub checksum_of-lt : (bytes : List ℕ) → checksum_of bytes < 2 ^ 16
unfolding checksum_of
checksum_of-lt bytes = calculate_crc16-lt (drop 2 bytes)

-- A packet object takes over whatever passes every check of the header.
deserialize_accepts :
    (abi : Abi) (q : Packet) (bytes body : List ℕ) (h : PacketHeader) (b : Body)
    → read_header bytes ≡ some (h, body)
    → h.magic ≡ magic_number
    → h.version ≡ version_number
    → header_size + h.size ≡ length bytes
    → h.type ≡ packet_type abi q.body
    → recomputed bytes ≡ h.checksum
    → deserialize_body abi q.body body h.size ≡ (b, ok)
    → deserialize abi q bytes
      ≡ (record { sequence = h.sequence; timestamp = h.timestamp; body = b }, ok)
unfolding deserialize deserialize_with is_valid_header
deserialize_accepts abi q bytes body h b read em ev es et ec parsed = ground (arith, read, parsed)

-- What is left for `deserialize` after the header of a printed packet: parsing the body into the
-- object.
pub deserialize-serialize_body :
    (abi : Abi) (q p : Packet)
    → Fits abi p
    → packet_type abi q.body ≡ packet_type abi p.body
    → deserialize_body abi q.body (body_bytes abi p) (body_size abi p.body) ≡ (p.body, ok)
    → deserialize abi q (serialize abi p) ≡ (p, ok)
deserialize-serialize_body abi q p fits same parsed = rw (serialize_lem abi p) (
    deserialize_accepts abi q _ body _ p.body
      (read_header_lem type size p.sequence p.timestamp sum body (packet_type-lt abi p.body)
        (omega arith) fits.sequence fits.timestamp (checksum_of-lt (unchecked abi p)))
      refl refl
      (omega (
        arith,
        length-header_bytes type size p.sequence p.timestamp sum body,
        whole,
        length-body_fields abi p.body,
      ))
      (sym same) (recomputed_lem type size p.sequence p.timestamp sum body)
      (ap (deserialize_body abi q.body body) whole ∙ parsed))
  where
    body : List ℕ
    body = body_bytes abi p

    type : ℕ
    type = packet_type abi p.body

    size : ℕ
    size = u16 (length body)

    sum : ℕ
    sum = checksum_of (unchecked abi p)

    whole : size ≡ body_size abi p.body
    whole = omega (arith, length-body_fields abi p.body, fits.size)
