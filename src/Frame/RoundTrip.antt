-- ===== src/Frame/RoundTrip.antt =====
-- src/frame/frame.ts: `parseFrame` reads back what `serializeFrame` wrote.
use browsercore_http.Common.{
  ℕ, ◌+◌, ◌/◌, ◌%◌, ◌^◌, ◌<◌, ◌≡◌, refl, ap, ◌∙◌, arith, Bool, true, false, some, List, [], ◌++◌,
  length, ok, append-nil, append_assoc, length-append, take-length-append, ◌==◌, if◌then◌else◌,
  Bool-cases, get_elem?, inl, inr, ◌⊎◌,
}
use browsercore_http.Common.{not}
use browsercore_http.Frame.Types.{
  PriorityFrame, GoawayFrame, SettingsFrame, Frame, data_frame, headers_frame, priority_frame,
  rst_stream_frame, settings_frame, push_promise_frame, ping_frame, goaway_frame,
  window_update_frame, continuation_frame, type_of, flags_of, stream_id_of,
}
use browsercore_http.Frame.Words.{
  get_elem?-put_uint32, get-put_uint32, drop-put_uint32, put_uint8, put_uint32, put_uint64,
  head_uint32, head_uint64, head-put_uint32, head-put_uint64,
}
use browsercore_http.Frame.Serialize.{
  put_settings, put_header, serialize_payload, serialize_frame, collect_settings_entries,
}
use browsercore_http.Frame.Parse.{
  read_settings, decode_frame, parse_frame, decode_priority, decode_goaway, decode_settings,
  get_or_zero,
}
use browsercore_http.Frame.Wire.{
  IsWire, parse-put_header, length-put_header, drop_header, read-put_settings,
}

pub type_of-lt : (f : Frame) → type_of f < 256
unfolding type_of
type_of-lt (data_frame f) = omega arith
type_of-lt (headers_frame f) = omega arith
type_of-lt (priority_frame f) = omega arith
type_of-lt (rst_stream_frame f) = omega arith
type_of-lt (settings_frame f) = omega arith
type_of-lt (push_promise_frame f) = omega arith
type_of-lt (ping_frame f) = omega arith
type_of-lt (goaway_frame f) = omega arith
type_of-lt (window_update_frame f) = omega arith
type_of-lt (continuation_frame f) = omega arith

-- The header parses, and leaves the payload to `decodeFrame`.
pub parse-serialize_header :
    (nibble : ℕ) (f : Frame) (rest : List ℕ)
    → flags_of f < 256
    → stream_id_of f < 2 ^ 31
    → length (serialize_payload nibble f) < 2 ^ 24
    → parse_frame (serialize_frame nibble f ++ rest)
      ≡ decode_frame (type_of f) (flags_of f) (stream_id_of f) (serialize_payload nibble f)
unfolding parse_frame serialize_frame
parse-serialize_header nibble f rest hf hs hl =
    let payload = serialize_payload nibble f in
    let front = put_header (length payload) (type_of f) (flags_of f) (stream_id_of f) in
    let whole : (front ++ payload) ++ rest ≡ front ++ (payload ++ rest) =
      append_assoc front payload rest in
    ground (
      arith,
      whole,
      parse-put_header (length payload) (type_of f) (flags_of f) (stream_id_of f) (payload ++ rest)
          hl (type_of-lt f) hf hs,
      drop_header (length payload) (type_of f) (flags_of f) (stream_id_of f) (payload ++ rest),
      take-length-append payload rest,
      length-append front (payload ++ rest),
      length-append payload rest,
      length-put_header (length payload) (type_of f) (flags_of f) (stream_id_of f),
    )

head_only : (v : ℕ) → v < 2 ^ 32 → head_uint32 (put_uint32 v) ≡ ok v
head_only v h = rw (append-nil (put_uint32 v)) at (head-put_uint32 v [] h)

head_opaque : (v : ℕ) → v < 2 ^ 64 → head_uint64 (put_uint64 v) ≡ ok v
head_opaque v h = rw (append-nil (put_uint64 v)) at (head-put_uint64 v [] h)

-- The exclusive bit and the dependency, in one word.
abbrev dependency_word : Bool → ℕ → ℕ
dependency_word exclusive dep = (if exclusive then 0x80000000 else 0) + dep % 2 ^ 31

dependency_word_parts :
    (exclusive : Bool) (dep : ℕ)
    → dep < 2 ^ 31
    → (dependency_word exclusive dep < 2 ^ 32)
      × (not (dependency_word exclusive dep / 2 ^ 31 % 2 == 0) ≡ exclusive)
      × (dependency_word exclusive dep % 2 ^ 31 ≡ dep)
dependency_word_parts true dep h = (omega arith, ground arith, omega arith)
dependency_word_parts false dep h = (omega arith, ground arith, omega arith)

priority_back :
    (f : PriorityFrame)
    → IsWire (priority_frame f)
    → decode_priority f.flags f.stream_id (
        put_uint32 ((if f.exclusive then 0x80000000 else 0) + f.stream_dependency % 2 ^ 31)
        ++ put_uint8 f.weight)
      ≡ ok (priority_frame f)
unfolding decode_priority get_or_zero
priority_back f w =
    let raw = dependency_word f.exclusive f.stream_dependency in
    let (bound, top, low) = dependency_word_parts f.exclusive f.stream_dependency w.0 in
    let weight : get_elem? (put_uint8 f.weight) 0 ≡ some f.weight =
      unfold put_uint8 in ap some (omega arith) in
    rw
      (
        head-put_uint32 raw (put_uint8 f.weight) bound,
        get_elem?-put_uint32 raw (put_uint8 f.weight),
        weight,
      )
      (λ i. ok (priority_frame (record f { exclusive = top i; stream_dependency = low i })))

goaway_back :
    (f : GoawayFrame)
    → IsWire (goaway_frame f)
    → decode_goaway f.flags
        (put_uint32 (f.last_stream_id % 2 ^ 31) ++ (put_uint32 f.error_code ++ f.debug_data))
      ≡ ok (goaway_frame f)
unfolding decode_goaway
goaway_back f w =
    let last = f.last_stream_id % 2 ^ 31 in
    let behind = put_uint32 f.error_code ++ f.debug_data in
    ground (
      arith,
      head-put_uint32 last behind (omega arith),
      get-put_uint32 last behind,
      head-put_uint32 f.error_code f.debug_data w.2,
      drop-put_uint32 4 last behind,
      drop-put_uint32 0 f.error_code f.debug_data,
    )

none_read : read_settings [] [] ≡ []
unfolding read_settings
none_read = refl

unacked : (f : SettingsFrame) → f.ack ≡ true → (f.ack ≡ false) ⊎ (f.settings ≡ []) → f.settings ≡ []
unacked f acked (inl plain) = absurd (ground (arith, acked, plain))
unacked f acked (inr empty) = empty

settings_back :
    (nibble : ℕ) (f : SettingsFrame)
    → IsWire (settings_frame f)
    → decode_settings f.flags
        (if f.ack then [] else put_settings (collect_settings_entries nibble f))
      ≡ settings_frame f
unfolding decode_settings collect_settings_entries
settings_back nibble f (sid, ack, empty, order, grease, ordered) = elim (Bool-cases f.ack) [
  | inl acked ↦ ground (arith, unacked f acked empty, acked, none_read)
  | inr plain ↦ ground (arith, plain, read-put_settings 0 f.settings [] ordered tt)
]

decode-serialize_payload :
    (nibble : ℕ) (f : Frame)
    → IsWire f
    → decode_frame (type_of f) (flags_of f) (stream_id_of f) (serialize_payload nibble f) ≡ ok f
unfolding decode_frame type_of flags_of stream_id_of serialize_payload
decode-serialize_payload nibble (data_frame f) w = refl
decode-serialize_payload nibble (headers_frame f) w = ground arith
decode-serialize_payload nibble (priority_frame f) w = priority_back f w
decode-serialize_payload nibble (rst_stream_frame f) w = rw (head_only f.error_code w)
decode-serialize_payload nibble (settings_frame f) w = ap ok (settings_back nibble f w)
decode-serialize_payload nibble (push_promise_frame f) w = absurd w
decode-serialize_payload nibble (ping_frame f) w = ground (arith, head_opaque f.opaque_data)
decode-serialize_payload nibble (goaway_frame f) w = goaway_back f w
decode-serialize_payload nibble (window_update_frame f) w =
    ground (arith, head_only (f.window_size_increment % 2 ^ 31) (omega arith))
decode-serialize_payload nibble (continuation_frame f) w = ground arith

-- `parseFrame` reads back each frame but PUSH_PROMISE whose fields fit the wire format, whatever
-- follows it in the buffer.
pub parse_frame-serialize_frame :
    (nibble : ℕ) (f : Frame) (rest : List ℕ)
    → IsWire f
    → flags_of f < 256
    → stream_id_of f < 2 ^ 31
    → length (serialize_payload nibble f) < 2 ^ 24
    → parse_frame (serialize_frame nibble f ++ rest) ≡ ok f
parse_frame-serialize_frame nibble f rest w hf hs hl =
    parse-serialize_header nibble f rest hf hs hl ∙ decode-serialize_payload nibble f w
