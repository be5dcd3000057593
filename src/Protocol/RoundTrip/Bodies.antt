-- ===== src/Protocol/RoundTrip/Bodies.antt =====
-- Each body that `serializeBody` prints is what `deserializeBody` reads back, whatever the object
-- held before.
use zero_latency_yolo.Base.{
  ℕ, ◌+◌, ◌-◌, ◌*◌, ◌^◌, ◌<◌, ◌≡◌, refl, sym, ap, ◌∙◌, subst, List, [], ◌∷◌, ◌++◌, map, some,
  length, arith, u16, ◌==◌, if◌then◌else◌, append-nil, Bool, true, false,
}
use zero_latency_yolo.Wire.{le, joined}
use zero_latency_yolo.Wire.Laws.{
  Parses, field-Parses, get_bytes-Parses, get_many-Parses, >>=-Parses, get_le_step, field_step,
}
use zero_latency_yolo.Wire.Reader.{Reader, get_le, get_bytes, get_many}
use zero_latency_yolo.Protocol.{
  Abi, BoundingBox, Detection, FrameData, GameState, ClientInfo, ServerInfo, Body, ok, packet_type,
  heartbeat, client_info, server_info, frame_data, detection_result, error_report, command,
  acknowledgement,
}
use zero_latency_yolo.Protocol.Structs.{
  client_info_bytes, server_info_bytes, detection_bytes, read_client_info, read_server_info,
  read_box, read_detection,
}
use zero_latency_yolo.Protocol.Serialize.{body_fields, body_size}
use zero_latency_yolo.Protocol.Deserialize.{
  FrameHead, read_frame_head, parse_frame, read_state_head, parse_state, parse_tagged, parse_fixed,
  deserialize_body,
}
use zero_latency_yolo.Protocol.Fits.{
  FitsClient, FitsServer, FitsDetection, FitsFrame, FitsState, FitsBody,
}

read_client_info-Parses :
    (i : ClientInfo) → FitsClient i → Parses read_client_info (client_info_bytes i) i
unfolding read_client_info client_info_bytes
read_client_info-Parses i h = field-Parses 4 i.client_id _ _ _ h.client_id (
    field-Parses 4 i.protocol_version _ _ _ h.protocol_version (
      field-Parses 2 i.screen_width _ _ _ h.screen_width (
        field-Parses 2 i.screen_height _ _ _ h.screen_height (
          field-Parses 1 i.game_id _ _ _ h.game_id
            (field-Parses 3 i.padding _ [] _ h.padding (λ rest. refl))))))

read_server_info-Parses :
    (i : ServerInfo) → FitsServer i → Parses read_server_info (server_info_bytes i) i
unfolding read_server_info server_info_bytes
read_server_info-Parses i h = field-Parses 4 i.server_id _ _ _ h.server_id (
    field-Parses 4 i.protocol_version _ _ _ h.protocol_version (
      field-Parses 4 i.model_version _ _ _ h.model_version (
        field-Parses 1 i.max_clients _ _ _ h.max_clients (
          field-Parses 1 i.padding _ _ _ h.padding (
            field-Parses 2 i.max_fps _ _ _ h.max_fps (
              field-Parses 1 i.status _ _ _ h.status
                (field-Parses 3 i.tail_padding _ [] _ h.tail_padding (λ rest. refl))))))))

box_bytes : BoundingBox → List ℕ
box_bytes b = joined (le 4 b.x ∷ le 4 b.y ∷ le 4 b.width ∷ le 4 b.height ∷ [])

rest_bytes : Detection → List ℕ
rest_bytes d =
    joined (
      le 4 d.confidence
      ∷ le 4 d.class_id
      ∷ le 4 d.track_id
      ∷ le 4 d.padding
      ∷ le 8 d.timestamp
      ∷ [])

detection_bytes_split : (d : Detection) → detection_bytes d ≡ box_bytes d.box ++ rest_bytes d
unfolding detection_bytes box_bytes rest_bytes le
detection_bytes_split d = refl

read_box-Parses : (d : Detection) → FitsDetection d → Parses read_box (box_bytes d.box) d.box
unfolding read_box box_bytes
read_box-Parses d h = field-Parses 4 d.box.x _ _ _ h.x (
    field-Parses 4 d.box.y _ _ _ h.y (
      field-Parses 4 d.box.width _ _ _ h.width
        (field-Parses 4 d.box.height _ [] _ h.height (λ rest. refl))))

read_detection-Parses :
    (d : Detection) → FitsDetection d → Parses read_detection (detection_bytes d) d
unfolding read_detection rest_bytes
read_detection-Parses d h =
    subst (λ bytes. Parses read_detection bytes d) (sym (detection_bytes_split d))
      (>>=-Parses read_box _ (box_bytes d.box) (rest_bytes d) d.box d (read_box-Parses d h) (
        field-Parses 4 d.confidence _ _ _ h.confidence (
          field-Parses 4 d.class_id _ _ _ h.class_id (
            field-Parses 4 d.track_id _ _ _ h.track_id (
              field-Parses 4 d.padding _ _ _ h.padding
                (field-Parses 8 d.timestamp _ [] _ h.timestamp (λ rest. refl)))))))

head_of : FrameData → FrameHead
head_of f = record {
  frame_id = f.frame_id;
  timestamp = f.timestamp;
  width = f.width;
  height = f.height;
  keyframe = f.keyframe;
}

flag_read : (b : Bool) → ((if b then 1 else 0) == 1) ≡ b
flag_read true = refl
flag_read false = refl

parse_fixed_lem {ℓ} :
    {A : Type ℓ} (make : A → Body) (k : ℕ) (m : Reader A) (old : Body) (bytes : List ℕ) (a : A)
    → m bytes ≡ some (a, [])
    → parse_fixed make k m old bytes k ≡ (make a, ok)
unfolding parse_fixed
parse_fixed_lem make k m old bytes a e = ground (arith, e)

-- Bytes at the end of the buffer are taken as they are.
get_content : (content : List ℕ) → get_bytes (length content) (content ++ []) ≡ some (content, [])
get_content content = get_bytes-Parses content []

parse_tagged_lem :
    (make : ℕ → List ℕ → Body) (w tag old : ℕ) (content before : List ℕ)
    → tag < 256 ^ w
    → length content < 2 ^ 16
    → parse_tagged make w old before
        (joined (le w tag ∷ le 2 (u16 (length content)) ∷ content ∷ []))
        (w + 2 + length content)
      ≡ (make tag content, ok)
unfolding parse_tagged
parse_tagged_lem make w tag old content before ht hs =
    let small : u16 (length content) ≡ length content = omega arith in
    ground (
      arith,
      get_le_step w tag (joined (le 2 (u16 (length content)) ∷ content ∷ [])) ht,
      get_le_step 2 (u16 (length content)) (content ++ []) (omega arith),
      small,
      get_content content,
    )

read_frame_head_lem :
    (f : FrameData) (rest : List ℕ)
    → FitsFrame f
    → read_frame_head (
        le 4 f.frame_id
        ++ (le 8 f.timestamp
            ++ (le 2 f.width ++ (le 2 f.height ++ (le 1 (if f.keyframe then 1 else 0) ++ rest)))))
      ≡ some (head_of f, rest)
unfolding read_frame_head head_of
read_frame_head_lem f rest h =
    field_step 4 f.frame_id _ _ h.frame_id
    ∙ field_step 8 f.timestamp _ _ h.timestamp
    ∙ field_step 2 f.width _ _ h.width
    ∙ field_step 2 f.height _ _ h.height
    ∙ field_step 1 (if f.keyframe then 1 else 0) _ _ (ground arith)
    ∙ ap (λ b. some (record (head_of f) { keyframe = b }, rest)) (flag_read f.keyframe)

parse_frame_lem :
    (f old : FrameData)
    → FitsFrame f
    → parse_frame old
        (le 4 f.frame_id
          ++ (le 8 f.timestamp
              ++ (le 2 f.width
                  ++ (le 2 f.height ++ (le 1 (if f.keyframe then 1 else 0) ++ (f.pixels ++ []))))))
        (17 + length f.pixels)
      ≡ (frame_data f, ok)
unfolding parse_frame head_of
parse_frame_lem f old h =
    let room : 17 + length f.pixels - 17 ≡ length f.pixels = omega arith in
    ground (arith, room, read_frame_head_lem f (f.pixels ++ []) h, get_content f.pixels)

read_state_head_lem :
    (frame_id timestamp count : ℕ) (rest : List ℕ)
    → frame_id < 2 ^ 32
    → timestamp < 2 ^ 64
    → count < 2 ^ 16
    → read_state_head (le 4 frame_id ++ (le 8 timestamp ++ (le 2 count ++ rest)))
      ≡ some ((frame_id, timestamp, count), rest)
unfolding read_state_head
read_state_head_lem frame_id timestamp count rest hf ht hc =
    field_step 4 frame_id _ _ hf ∙ field_step 8 timestamp _ _ ht ∙ field_step 2 count _ _ hc

get_detections :
    (s : GameState)
    → FitsState s
    → get_many (length s.detections) read_detection (joined (map detection_bytes s.detections))
      ≡ some (s.detections, [])
get_detections s h = rw (← append-nil (joined (map detection_bytes s.detections))) (
    get_many-Parses read_detection detection_bytes FitsDetection read_detection-Parses s.detections
      h.detections [])

parse_state_lem :
    (s old : GameState)
    → FitsState s
    → length s.detections < 2 ^ 16
    → parse_state old
        (le 4 s.frame_id
          ++ (le 8 s.timestamp
              ++ (le 2 (u16 (length s.detections)) ++ joined (map detection_bytes s.detections))))
        (14 + length s.detections * 40)
      ≡ (detection_result s, ok)
unfolding parse_state
parse_state_lem s old h few =
    let small : u16 (length s.detections) ≡ length s.detections = omega arith in
    ground (
      arith,
      small,
      read_state_head_lem s.frame_id s.timestamp (u16 (length s.detections))
          (joined (map detection_bytes s.detections)) h.frame_id h.timestamp (omega arith),
      get_detections s h,
    )

-- An object of the packet's class reads its printed body back.
pub deserialize_body-body_fields :
    (abi : Abi) (old b : Body)
    → FitsBody abi b
    → body_size abi b < 2 ^ 16
    → packet_type abi old ≡ packet_type abi b
    → deserialize_body abi old (joined (body_fields abi b)) (body_size abi b) ≡ (b, ok)
unfolding deserialize_body body_fields body_size packet_type
deserialize_body-body_fields abi (heartbeat x) (heartbeat ping) h s e =
    parse_fixed_lem heartbeat 4 (get_le 4) _ _ ping (get_le_step 4 ping [] h)
deserialize_body-body_fields abi (client_info x) (client_info i) h s e =
    parse_fixed_lem client_info 16 read_client_info _ _ i (read_client_info-Parses i h [])
deserialize_body-body_fields abi (server_info x) (server_info i) h s e =
    parse_fixed_lem server_info 20 read_server_info _ _ i (read_server_info-Parses i h [])
deserialize_body-body_fields abi (frame_data x) (frame_data f) h s e = parse_frame_lem f x h
deserialize_body-body_fields abi (detection_result x) (detection_result g) h s e =
    parse_state_lem g x h (omega arith)
deserialize_body-body_fields abi (error_report c m) (error_report code message) h s e =
    parse_tagged_lem error_report abi.error_code_size code c message m h (omega arith)
deserialize_body-body_fields abi (command t c) (command type content) h s e =
    parse_tagged_lem command 1 type t content c h (omega arith)
deserialize_body-body_fields abi (acknowledgement x) (acknowledgement n) h s e =
    parse_fixed_lem acknowledgement 4 (get_le 4) _ _ n (get_le_step 4 n [] h)
deserialize_body-body_fields abi old b h s e = absurd (omega (arith, abi.ack_new))
