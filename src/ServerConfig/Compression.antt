-- ===== src/ServerConfig/Compression.antt =====
-- The member "compression" of the settings of src/server/config.h as JSON.
use Prim.Native.String.{String}
use zero_latency_yolo.Base.{◌^◌, ◌<◌, ◌≡◌, refl, List, [], ◌∷◌, Option, some}
use zero_latency_yolo.Base.Maybe.{◌>>=◌}
use zero_latency_yolo.ServerConfig.Json.{Json, IsJson, read, read-object}
use zero_latency_yolo.ClientConfig.{CompressionSettings}

-- The members that `to_json` writes.
abbrev pub members : (j : Json) → CompressionSettings → List (String × j.Value)
members j c =
    ("quality", j.of_unsigned c.quality)
    ∷ ("keyframe_interval", j.of_unsigned c.keyframe_interval)
    ∷ ("use_difference_encoding", j.of_bool c.use_difference_encoding)
    ∷ ("use_roi_encoding", j.of_bool c.use_roi_encoding)
    ∷ ("roi_padding", j.of_unsigned c.roi_padding)
    ∷ []

-- `to_json`.
unfoldable pub to_json : (j : Json) → CompressionSettings → j.Value
to_json j c = j.object (members j c)

-- `from_json`.
unfoldable pub from_json : (j : Json) → CompressionSettings → j.Value → Option CompressionSettings
from_json j c v = do
  quality ← read j (j.to_unsigned 8) v "quality" c.quality
  keyframe_interval ← read j (j.to_unsigned 8) v "keyframe_interval" c.keyframe_interval
  use_difference_encoding ← read j j.to_bool v "use_difference_encoding" c.use_difference_encoding
  use_roi_encoding ← read j j.to_bool v "use_roi_encoding" c.use_roi_encoding
  roi_padding ← read j (j.to_unsigned 8) v "roi_padding" c.roi_padding
  some (record {
    quality = quality;
    keyframe_interval = keyframe_interval;
    use_difference_encoding = use_difference_encoding;
    use_roi_encoding = use_roi_encoding;
    roi_padding = roi_padding;
  })

-- The numbers fit their types.
pub record Fits (c : CompressionSettings) : Type 0 where
  pub quality : c.quality < 2 ^ 8
  pub keyframe_interval : c.keyframe_interval < 2 ^ 8
  pub roi_padding : c.roi_padding < 2 ^ 8

-- What to_json writes is read back whole, whatever there was before.
pub from_json-to_json :
    (j : Json) (laws : IsJson j) (c old : CompressionSettings)
    → Fits c
    → from_json j old (to_json j c) ≡ some c
unfolding from_json to_json
from_json-to_json j laws c old h =
    rw
      (
        read-object j (j.to_unsigned 8) laws (members j c) "quality" old.quality c.quality
            (j.of_unsigned c.quality) refl refl (laws.unsigned 8 c.quality h.quality),
        read-object j (j.to_unsigned 8) laws (members j c) "keyframe_interval" old.keyframe_interval
            c.keyframe_interval (j.of_unsigned c.keyframe_interval) refl refl
            (laws.unsigned 8 c.keyframe_interval h.keyframe_interval),
        read-object j j.to_bool laws (members j c) "use_difference_encoding"
            old.use_difference_encoding c.use_difference_encoding
            (j.of_bool c.use_difference_encoding) refl refl (laws.bool c.use_difference_encoding),
        read-object j j.to_bool laws (members j c) "use_roi_encoding" old.use_roi_encoding
            c.use_roi_encoding (j.of_bool c.use_roi_encoding) refl refl
            (laws.bool c.use_roi_encoding),
        read-object j (j.to_unsigned 8) laws (members j c) "roi_padding" old.roi_padding
            c.roi_padding (j.of_unsigned c.roi_padding) refl refl
            (laws.unsigned 8 c.roi_padding h.roi_padding),
      )
      refl
