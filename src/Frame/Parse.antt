-- ===== src/Frame/Parse.antt =====
-- src/frame/frame.ts: `parseFrameHeader`, `parseFrame` and `decodeFrame`, with `validateFrameType`
-- of src/schemas.ts. An octet is below 256, as in a `Uint8Array`.
use browsercore_http.Common.{
  ℕ, ◌+◌, ◌*◌, ◌/◌, ◌%◌, ◌^◌, Bool, false, not, Option, none, some, List, [], ◌∷◌, ltb, leb, ◌==◌,
  if◌then◌else◌, length, take, drop, get_elem?, bit_and, Outcome, ok, err, ◌>>=◌, frame_parse_error,
}
use browsercore_http.Frame.Types.{
  Frame, data_frame, headers_frame, priority_frame, rst_stream_frame, settings_frame,
  push_promise_frame, ping_frame, goaway_frame, window_update_frame, continuation_frame, Settings,
}
use browsercore_http.Frame.Words.{head_uint32, head_uint64, get_uint32}
use browsercore_http.Frame.Serialize.{frame_header_length}

pub record FrameHeader : Type 0 where
  pub type_byte : ℕ
  pub flags : ℕ
  pub stream_id : ℕ
  pub len : ℕ

-- `buf.length < FRAME_HEADER_LENGTH` is the last clause.
unfoldable pub parse_frame_header : List ℕ → Outcome FrameHeader
parse_frame_header (l2 ∷ l1 ∷ l0 ∷ t ∷ f ∷ a ∷ b ∷ c ∷ d ∷ rest) = ok (record {
  type_byte = t;
  flags = f;
  stream_id = (a * 2 ^ 24 + b * 2 ^ 16 + c * 256 + d) % 2 ^ 31;
  len = l2 * 2 ^ 16 + l1 * 256 + l0;
})
parse_frame_header _ = err (frame_parse_error 0)

-- `(flags & mask) !== 0`
abbrev pub flag_set : ℕ → ℕ → Bool
flag_set flags mask = not (bit_and flags mask == 0)

-- `FRAME_TYPE_VALUES` is 0x0 to 0x9.
unfoldable pub validate_frame_type : ℕ → Option ℕ
validate_frame_type type_byte = if leb type_byte 0x9 then some type_byte else none

-- `settings[id] = value` on an object whose keys are integers, which keeps them in ascending order.
unfoldable pub set_setting : ℕ → ℕ → Settings → Settings
set_setting id value [] = (id, value) ∷ []
set_setting id value ((key, old) ∷ settings) =
    if id == key
    then (id, value) ∷ settings
    else if ltb id key
    then (id, value) ∷ (key, old) ∷ settings
    else (key, old) ∷ set_setting id value settings

-- `for (let i = 0; i + 6 <= payload.length; i += 6)`
unfoldable pub read_settings : List ℕ → Settings → Settings
unfolding set_setting
read_settings (a ∷ b ∷ c ∷ d ∷ e ∷ f ∷ rest) settings =
    read_settings rest (set_setting (a * 256 + b) (c * 2 ^ 24 + d * 2 ^ 16 + e * 256 + f) settings)
read_settings _ settings = settings

unfoldable pub get_or_zero : Option ℕ → ℕ
get_or_zero none = 0
get_or_zero (some x) = x

unfoldable pub decode_priority : ℕ → ℕ → List ℕ → Outcome Frame
decode_priority flags stream_id payload = head_uint32 payload >>= λ dep_raw. ok (
    priority_frame (record {
      flags = flags;
      stream_id = stream_id;
      exclusive = not (dep_raw / 2 ^ 31 % 2 == 0);
      stream_dependency = dep_raw % 2 ^ 31;
      weight = get_or_zero (get_elem? payload 4);
    }))

unfoldable pub decode_settings : ℕ → List ℕ → Frame
decode_settings flags payload = settings_frame (record {
  flags = flags;
  stream_id = 0;
  ack = flag_set flags 0x1;
  settings = read_settings payload [];
  settings_order = none;
  grease = false;
})

unfoldable pub decode_push_promise : ℕ → ℕ → List ℕ → Outcome Frame
decode_push_promise flags stream_id payload = head_uint32 payload >>= λ raw. ok (
    push_promise_frame (record {
      flags = flags;
      stream_id = stream_id;
      end_headers = flag_set flags 0x4;
      padded = flag_set flags 0x8;
      promised_stream_id = raw % 2 ^ 31;
      payload = drop 4 payload;
    }))

unfoldable pub decode_goaway : ℕ → List ℕ → Outcome Frame
decode_goaway flags payload = head_uint32 payload >>= λ last_raw.
    (get_uint32 payload 4 >>= λ error_code. ok (
      goaway_frame (record {
        flags = flags;
        stream_id = 0;
        last_stream_id = last_raw % 2 ^ 31;
        error_code = error_code;
        debug_data = drop 8 payload;
      })))

-- The `switch` on the type byte.
unfoldable pub decode_frame : ℕ → ℕ → ℕ → List ℕ → Outcome Frame
unfolding validate_frame_type
decode_frame type_byte flags stream_id payload = elim (validate_frame_type type_byte) [
  | none ↦ ok (data_frame (record { flags = flags; stream_id = stream_id; payload = payload }))
  | some t ↦
      if t == 0x0
      then ok (data_frame (record { flags = flags; stream_id = stream_id; payload = payload }))
      else if t == 0x1
      then ok (
          headers_frame (record {
            flags = flags;
            stream_id = stream_id;
            end_headers = flag_set flags 0x4;
            end_stream = flag_set flags 0x1;
            padded = flag_set flags 0x8;
            payload = payload;
          }))
      else if t == 0x2
      then decode_priority flags stream_id payload
      else if t == 0x3
      then (head_uint32 payload >>= λ error_code. ok (
          rst_stream_frame
            (record { flags = flags; stream_id = stream_id; error_code = error_code })))
      else if t == 0x4
      then ok (decode_settings flags payload)
      else if t == 0x5
      then decode_push_promise flags stream_id payload
      else if t == 0x6
      then (head_uint64 payload >>= λ opaque. ok (
          ping_frame (record {
            flags = flags;
            stream_id = 0;
            ack = flag_set flags 0x1;
            opaque_data = opaque;
          })))
      else if t == 0x7
      then decode_goaway flags payload
      else if t == 0x8
      then (head_uint32 payload >>= λ raw. ok (
          window_update_frame (record {
            flags = flags;
            stream_id = stream_id;
            window_size_increment = raw % 2 ^ 31;
          })))
      else ok (
          continuation_frame (record {
            flags = flags;
            stream_id = stream_id;
            end_headers = flag_set flags 0x4;
            payload = payload;
          }))
]

unfoldable pub parse_frame : List ℕ → Outcome Frame
parse_frame buf = parse_frame_header buf >>= λ header.
    let payload_end = frame_header_length + header.len in
    if ltb (length buf) payload_end
    then err (frame_parse_error frame_header_length)
    else decode_frame header.type_byte header.flags header.stream_id
        (take header.len (drop frame_header_length buf))
