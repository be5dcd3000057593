-- ===== src/Protocol/Safety.antt =====
-- Parsing of src/common/protocol.h stays inside the buffer, whatever bytes arrive.
use zero_latency_yolo.Base.{
  ℕ, ◌+◌, ◌-◌, ◌*◌, ◌≤◌, ◌≡◌, ◌≢◌, List, ◌||◌, length, ltb, ◌==◌, arith, if-cases, ltb-false→le,
  ==→≡, not, subst, sym,
}
use zero_latency_yolo.Wire.Reader.{Reader, get_bytes, get_le, get_many}
use zero_latency_yolo.Wire.Laws.{
  Needs, field-Needs, pure-Needs, >>=-Needs, get_bytes-Needs, get_le-Needs, get_many-Needs,
}
use zero_latency_yolo.Protocol.{
  Abi, packet_type, FrameData, GameState, Body, Packet, Outcome, fault, header_size, heartbeat,
  client_info, server_info, frame_data, detection_result, error_report, command, acknowledgement,
}
use zero_latency_yolo.Protocol.Structs.{
  read_client_info, read_server_info, read_box, read_detection,
}
use zero_latency_yolo.Protocol.Deserialize.{
  loaded, read_frame_head, parse_frame, read_state_head, parse_state, parse_tagged, parse_fixed,
  deserialize_body, PacketHeader, is_valid_header, read_header, deserialize_with, deserialize,
  recomputed,
}

read_client_info-Needs : Needs 16 read_client_info
unfolding read_client_info
read_client_info-Needs = field-Needs 4 12 16 _ (omega arith) λ a.
    field-Needs 4 8 12 _ (omega arith) λ b. field-Needs 2 6 8 _ (omega arith) λ c.
      field-Needs 2 4 6 _ (omega arith) λ d.
        field-Needs 1 3 4 _ (omega arith) λ e. field-Needs 3 0 3 _ (omega arith) λ f. pure-Needs _

read_server_info-Needs : Needs 20 read_server_info
unfolding read_server_info
read_server_info-Needs = field-Needs 4 16 20 _ (omega arith) λ a.
    field-Needs 4 12 16 _ (omega arith) λ b. field-Needs 4 8 12 _ (omega arith) λ c.
      field-Needs 1 7 8 _ (omega arith) λ d. field-Needs 1 6 7 _ (omega arith) λ e.
        field-Needs 2 4 6 _ (omega arith) λ f.
          field-Needs 1 3 4 _ (omega arith) λ g. field-Needs 3 0 3 _ (omega arith) λ h. pure-Needs _

read_box-Needs : Needs 16 read_box
unfolding read_box
read_box-Needs = field-Needs 4 12 16 _ (omega arith) λ a.
    field-Needs 4 8 12 _ (omega arith) λ b.
      field-Needs 4 4 8 _ (omega arith) λ c. field-Needs 4 0 4 _ (omega arith) λ d. pure-Needs _

read_detection-Needs : Needs 40 read_detection
unfolding read_detection
read_detection-Needs = >>=-Needs 16 24 40 read_box _ (omega arith) read_box-Needs λ box.
    field-Needs 4 20 24 _ (omega arith) λ a. field-Needs 4 16 20 _ (omega arith) λ b.
      field-Needs 4 12 16 _ (omega arith) λ c.
        field-Needs 4 8 12 _ (omega arith) λ d. field-Needs 8 0 8 _ (omega arith) λ e. pure-Needs _

read_frame_head-Needs : Needs 17 read_frame_head
unfolding read_frame_head
read_frame_head-Needs = field-Needs 4 13 17 _ (omega arith) λ a.
    field-Needs 8 5 13 _ (omega arith) λ b. field-Needs 2 3 5 _ (omega arith) λ c.
      field-Needs 2 1 3 _ (omega arith) λ d. field-Needs 1 0 1 _ (omega arith) λ e. pure-Needs _

read_state_head-Needs : Needs 14 read_state_head
unfolding read_state_head
read_state_head-Needs =
    field-Needs 4 10 14 _ (omega arith) λ a.
      field-Needs 8 2 10 _ (omega arith) λ b. field-Needs 2 0 2 _ (omega arith) λ c. pure-Needs _

pub read_header-Needs : Needs 22 read_header
unfolding read_header
read_header-Needs = field-Needs 4 18 22 _ (omega arith) λ a.
    field-Needs 1 17 18 _ (omega arith) λ b. field-Needs 1 16 17 _ (omega arith) λ c.
      field-Needs 2 14 16 _ (omega arith) λ d. field-Needs 4 10 14 _ (omega arith) λ e.
        field-Needs 8 2 10 _ (omega arith) λ f. field-Needs 2 0 2 _ (omega arith) λ g. pure-Needs _

abbrev IsSafe {ℓ} : {A : Type ℓ} → A × Outcome → Type 0
IsSafe r = r.1 ≢ fault

-- A read that has its bytes goes on, to an end that is safe.
loaded-IsSafe {ℓ} :
    {A : Type ℓ} (k : ℕ) (m : Reader A) (bytes : List ℕ) (body : Body)
    (next : A → List ℕ → Body × Outcome)
    → Needs k m
    → k ≤ length bytes
    → ((a : A) (rest : List ℕ) → length rest + k ≡ length bytes → IsSafe (next a rest))
    → IsSafe (loaded (m bytes) body next)
loaded-IsSafe k m bytes body next needs h safe =
    let (a, rest, e, l) = needs bytes h in
    subst (λ o. IsSafe (loaded o body next)) (sym e) (safe a rest l)

parse_fixed-IsSafe {ℓ} :
    {A : Type ℓ} (make : A → Body) (k : ℕ) (read : Reader A) (body : Body) (bytes : List ℕ)
    (size : ℕ)
    → Needs k read
    → size ≡ length bytes
    → IsSafe (parse_fixed make k read body bytes size)
unfolding parse_fixed
parse_fixed-IsSafe make k read body bytes size needs h =
    if-cases IsSafe (size == k)
      (λ e.
        loaded-IsSafe k read bytes body _ needs (omega (arith, ==→≡ size k e)) (λ a rest l x. cc))
      (λ _ x. cc)

parse_tagged-IsSafe :
    (make : ℕ → List ℕ → Body) (w tag : ℕ) (content bytes : List ℕ) (size : ℕ)
    → size ≡ length bytes
    → IsSafe (parse_tagged make w tag content bytes size)
unfolding parse_tagged
parse_tagged-IsSafe make w tag content bytes size h =
    if-cases IsSafe (ltb size (w + 2)) (λ _ x. cc)
      λ e.
        let long = ltb-false→le size (w + 2) e in
        loaded-IsSafe w (get_le w) bytes _ _ (get_le-Needs w) (omega arith) λ tag' rest l.
          loaded-IsSafe 2 (get_le 2) rest _ _ (get_le-Needs 2) (omega arith) λ count rest' l'.
            if-cases IsSafe (ltb size (w + 2 + count)) (λ _ x. cc)
              λ e'.
                loaded-IsSafe count (get_bytes count) rest' _ _ (get_bytes-Needs count)
                  (omega (arith, ltb-false→le size (w + 2 + count) e')) λ content' _ _ x. cc

parse_frame-IsSafe :
    (f : FrameData) (bytes : List ℕ) (size : ℕ)
    → size ≡ length bytes
    → IsSafe (parse_frame f bytes size)
unfolding parse_frame
parse_frame-IsSafe f bytes size h =
    if-cases IsSafe (ltb size 17) (λ _ x. cc)
      λ e.
        let long = ltb-false→le size 17 e in
        loaded-IsSafe 17 read_frame_head bytes _ _ read_frame_head-Needs (omega arith)
          λ head rest l.
            if-cases IsSafe (head.width == 0 || head.height == 0) (λ _ x. cc)
              λ _.
                loaded-IsSafe (size - 17) (get_bytes (size - 17)) rest _ _
                  (get_bytes-Needs (size - 17)) (omega arith) λ pixels _ _ x. cc

parse_state-IsSafe :
    (s : GameState) (bytes : List ℕ) (size : ℕ)
    → size ≡ length bytes
    → IsSafe (parse_state s bytes size)
unfolding parse_state
parse_state-IsSafe s bytes size h =
    if-cases IsSafe (ltb size 14) (λ _ x. cc)
      λ e.
        let long = ltb-false→le size 14 e in
        loaded-IsSafe 14 read_state_head bytes _ _ read_state_head-Needs (omega arith)
          λ head rest l.
            if-cases IsSafe (ltb size (14 + head.2 * 40)) (λ _ x. cc)
              λ e'.
                loaded-IsSafe (head.2 * 40) (get_many head.2 read_detection) rest _ _
                  (get_many-Needs head.2 40 read_detection read_detection-Needs)
                  (omega (arith, ltb-false→le size (14 + head.2 * 40) e')) λ detections _ _ x. cc

deserialize_body-IsSafe :
    (abi : Abi) (body : Body) (bytes : List ℕ) (size : ℕ)
    → size ≡ length bytes
    → IsSafe (deserialize_body abi body bytes size)
unfolding deserialize_body
deserialize_body-IsSafe abi (heartbeat ping) bytes size h =
    parse_fixed-IsSafe heartbeat 4 (get_le 4) _ bytes size (get_le-Needs 4) h
deserialize_body-IsSafe abi (client_info i) bytes size h =
    parse_fixed-IsSafe client_info 16 read_client_info _ bytes size read_client_info-Needs h
deserialize_body-IsSafe abi (server_info i) bytes size h =
    parse_fixed-IsSafe server_info 20 read_server_info _ bytes size read_server_info-Needs h
deserialize_body-IsSafe abi (frame_data f) bytes size h = parse_frame-IsSafe f bytes size h
deserialize_body-IsSafe abi (detection_result s) bytes size h = parse_state-IsSafe s bytes size h
deserialize_body-IsSafe abi (error_report code message) bytes size h =
    parse_tagged-IsSafe error_report abi.error_code_size code message bytes size h
deserialize_body-IsSafe abi (command type content) bytes size h =
    parse_tagged-IsSafe command 1 type content bytes size h
deserialize_body-IsSafe abi (acknowledgement n) bytes size h =
    parse_fixed-IsSafe acknowledgement 4 (get_le 4) _ bytes size (get_le-Needs 4) h

deserialize_with-IsSafe :
    (abi : Abi) (p : Packet) (h : PacketHeader) (body bytes : List ℕ)
    → length body + 22 ≡ length bytes
    → IsSafe (deserialize_with abi p h body bytes)
unfolding deserialize_with
deserialize_with-IsSafe abi p h body bytes l =
    if-cases IsSafe (not (is_valid_header h)) (λ _ e. cc)
      λ _.
        if-cases IsSafe (not (header_size + h.size == length bytes)) (λ _ e. cc)
          λ sized.
            if-cases IsSafe (not (h.type == packet_type abi p.body)) (λ _ e. cc)
              λ _.
                if-cases IsSafe (not (recomputed bytes == h.checksum)) (λ _ e. cc)
                  λ _. deserialize_body-IsSafe abi p.body body h.size (ground arith)

-- For every packet object and every byte sequence, `Packet::deserialize` ends without reading past
-- the end of the buffer.
pub deserialize-ne-fault :
    (abi : Abi) (p : Packet) (bytes : List ℕ) → (deserialize abi p bytes).1 ≢ fault
unfolding deserialize
deserialize-ne-fault abi p bytes =
    if-cases IsSafe (ltb (length bytes) header_size) (λ _ e. cc)
      λ e.
        let (h, body, r, l) = read_header-Needs bytes (ltb-false→le (length bytes) 22 e) in
        rw r (deserialize_with-IsSafe abi p h body bytes l)
