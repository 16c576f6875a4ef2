-- ===== src/Frame/Serialize.antt =====
-- src/frame/frame.ts: `serializeFrame`. `& 0x7fffffff` is the rest by 2 ^ 31. The nibble is what
-- `generateHttp2GreaseValue` (src/utils.ts) draws at random for a GREASE setting.
use browsercore_http.Common.{
  ℕ, ◌+◌, ◌*◌, ◌/◌, ◌%◌, ◌^◌, Bool, false, Option, none, some, List, [], ◌∷◌, ◌++◌, ◌==◌,
  if◌then◌else◌, length, ◌||◌,
}
use browsercore_http.Frame.Types.{
  Frame, data_frame, headers_frame, priority_frame, rst_stream_frame, settings_frame,
  push_promise_frame, ping_frame, goaway_frame, window_update_frame, continuation_frame, Settings,
  SettingsFrame, type_of, flags_of, stream_id_of,
}
use browsercore_http.Frame.Words.{put_uint8, put_uint16, put_uint32, put_uint64}

abbrev pub frame_header_length : ℕ
frame_header_length = 9

-- `((n & 0xf) << 4) | 0x0a`, twice.
unfoldable pub generate_http2_grease_value : ℕ → ℕ
generate_http2_grease_value nibble = let byte = nibble % 16 * 16 + 0x0a in byte * 256 + byte

unfoldable pub setting : ℕ → Settings → Option ℕ
setting id [] = none
setting id ((key, value) ∷ settings) = if key == id then some value else setting id settings

unfoldable pub includes : ℕ → List ℕ → Bool
includes id [] = false
includes id (x ∷ order) = x == id || includes id order

-- `for (const id of order)`
unfoldable pub listed_settings : List ℕ → Settings → Settings
listed_settings [] settings = []
listed_settings (id ∷ order) settings =
    let rest = listed_settings order settings in
    elim (setting id settings) [ none ↦ rest | some value ↦ (id, value) ∷ rest ]

-- The settings that the explicit order does not cover.
unfoldable pub uncovered_settings : List ℕ → Settings → Settings
uncovered_settings order [] = []
uncovered_settings order ((key, value) ∷ settings) =
    let rest = uncovered_settings order settings in
    if includes key order then rest else (key, value) ∷ rest

unfoldable pub collect_settings_entries : ℕ → SettingsFrame → Settings
unfolding generate_http2_grease_value listed_settings uncovered_settings setting includes
collect_settings_entries nibble frame =
    let first : Settings =
      if frame.grease then (generate_http2_grease_value nibble, 0) ∷ [] else [] in
    first ++ elim frame.settings_order [
      | none ↦ frame.settings
      | some order ↦ listed_settings order frame.settings ++ uncovered_settings order frame.settings
    ]

unfoldable pub put_settings : Settings → List ℕ
put_settings [] = []
put_settings ((id, value) ∷ entries) = put_uint16 id ++ (put_uint32 value ++ put_settings entries)

unfoldable pub serialize_payload : ℕ → Frame → List ℕ
serialize_payload nibble (data_frame f) = f.payload
serialize_payload nibble (headers_frame f) = f.payload
serialize_payload nibble (push_promise_frame f) = f.payload
serialize_payload nibble (continuation_frame f) = f.payload
serialize_payload nibble (priority_frame f) =
    let exclusive : ℕ = if f.exclusive then 0x80000000 else 0 in
    put_uint32 (exclusive + f.stream_dependency % 2 ^ 31) ++ put_uint8 f.weight
serialize_payload nibble (rst_stream_frame f) = put_uint32 f.error_code
serialize_payload nibble (settings_frame f) =
    if f.ack then [] else put_settings (collect_settings_entries nibble f)
serialize_payload nibble (ping_frame f) = put_uint64 f.opaque_data
serialize_payload nibble (goaway_frame f) =
    put_uint32 (f.last_stream_id % 2 ^ 31) ++ (put_uint32 f.error_code ++ f.debug_data)
serialize_payload nibble (window_update_frame f) = put_uint32 (f.window_size_increment % 2 ^ 31)

-- The nine octets in front of a payload of that length.
unfoldable pub put_header : ℕ → ℕ → ℕ → ℕ → List ℕ
put_header len type_byte flags stream_id =
    (len / 2 ^ 16 % 256)
    ∷ (len / 256 % 256)
    ∷ (len % 256)
    ∷ (type_byte % 256)
    ∷ (flags % 256)
    ∷ put_uint32 (stream_id % 2 ^ 31)

unfoldable pub serialize_frame : ℕ → Frame → List ℕ
serialize_frame nibble frame =
    let payload = serialize_payload nibble frame in
    put_header (length payload) (type_of frame) (flags_of frame) (stream_id_of frame) ++ payload
