-- ===== src/Stream/Receive.antt =====
-- src/stream/stream.ts: the handlers of received frames. A handler may throw, and the state that
-- it has made by then stays: the result is the manager with what was thrown.
use browsercore_http.Common.{
  ℕ, ◌-◌, Bool, true, false, not, Option, none, some, List, [], ◌∷◌, ◌++◌, ◌==◌, ltb, if◌then◌else◌,
  length, take, drop, Text, Error, ok, err, stuck, rst_stream_error, goaway_received_error, bit_and,
}
use browsercore_http.Common.Int.{pos, ◌-ℤ◌}
use browsercore_http.Common.Table
use browsercore_http.Frame.Types.{
  DataFrame, HeadersFrame, RstStreamFrame, SettingsFrame, PushPromiseFrame, PingFrame, GoawayFrame,
  ContinuationFrame, settings_frame, ping_frame, window_update_frame,
}
use browsercore_http.Hpack.Helpers.{decode_headers}
use browsercore_http.Stream.Types.{
  FlowControlWindow, Manager, ManagedStream, Streams, StreamState, closed, open_state,
  remote_reserved, idle, local_reserved, local_half_closed, remote_half_closed, settings_ack,
  ping_ack, goaway_event, push, new_stream, default_initial_window_size,
}
use browsercore_http.Stream.Settle.{
  transition_on_end_stream, put_stream, emit_event, send_frame, reject_stream,
  maybe_resolve_response,
}
use browsercore_http.Stream.Settings.{apply_remote_settings}

pub record Step : Type 0 where
  pub manager : Manager
  pub thrown : Option Error

abbrev pub done : Manager → Step
done m = record { manager = m; thrown = none }

unfoldable pub send_settings_ack : Manager → Manager
unfolding send_frame
send_settings_ack = send_frame (
    settings_frame (record {
      flags = 0x1;
      stream_id = 0;
      ack = true;
      settings = [];
      settings_order = none;
      grease = false;
    }))

unfoldable pub send_ping_ack : ℕ → Manager → Manager
unfolding send_frame
send_ping_ack opaque_data =
    send_frame
      (ping_frame (record { flags = 0x1; stream_id = 0; ack = true; opaque_data = opaque_data }))

unfoldable pub send_window_update : ℕ → ℕ → Manager → Manager
unfolding send_frame
send_window_update stream_id increment = send_frame (
    window_update_frame
      (record { flags = 0; stream_id = stream_id; window_size_increment = increment }))

unfoldable pub is_closed : StreamState → Bool
is_closed (closed reason) = true
is_closed idle = false
is_closed local_reserved = false
is_closed remote_reserved = false
is_closed open_state = false
is_closed local_half_closed = false
is_closed remote_half_closed = false

-- The application data of a DATA payload: `subarray(1, length - padLen)` where the frame is padded.
unfoldable pub strip_padding : ℕ → List ℕ → List ℕ
strip_padding flags payload =
    let pad_len : ℕ = elim payload [ [] ↦ 0 | x ∷ rest ↦ x ] in
    let end = length payload - pad_len in
    if bit_and flags 0x8 == 0
    then payload
    else if ltb 0 end
    then take (end - 1) (drop 1 payload)
    else []

-- `stream.endStreamSeen = true` and `transitionOnEndStream(stream)`.
unfoldable pub end_of_stream : ManagedStream → ManagedStream
unfolding transition_on_end_stream
end_of_stream s = record s { end_stream_seen = true; state = transition_on_end_stream s.state }

unfoldable pub push_header_bytes : List ℕ → ManagedStream → ManagedStream
push_header_bytes payload s = record s { pending_header_bytes = s.pending_header_bytes ++ payload }

-- `decodePendingHeaders`: the block is taken whether or not it decodes. A block always decodes or
-- throws, so the last case does not arise.
unfoldable pub decode_pending_headers : ManagedStream → ManagedStream × Option Error
decode_pending_headers s =
    let taken : ManagedStream = record s { pending_header_bytes = [] } in
    elim (decode_headers s.pending_header_bytes) [
      | ok decoded ↦ (record taken { response_headers = decoded; headers_complete = true }, none)
      | err e ↦ (taken, some e)
      | stuck ↦ (taken, none)
    ]

-- The first HEADERS of a pushed response.
unfoldable pub promote : StreamState → StreamState
promote remote_reserved = open_state
promote idle = idle
promote local_reserved = local_reserved
promote open_state = open_state
promote local_half_closed = local_half_closed
promote remote_half_closed = remote_half_closed
promote (closed reason) = closed reason

unfoldable pub handle_settings : SettingsFrame → Manager → Manager
unfolding send_settings_ack emit_event
handle_settings frame m =
    if frame.ack
    then emit_event settings_ack m
    else send_settings_ack (apply_remote_settings frame.settings m)

unfoldable pub handle_ping : PingFrame → Manager → Manager
unfolding send_ping_ack emit_event
handle_ping frame m =
    if frame.ack
    then emit_event (ping_ack frame.opaque_data) m
    else send_ping_ack frame.opaque_data m

unfoldable pub handle_rst_stream : RstStreamFrame → Manager → Manager
unfolding reject_stream
handle_rst_stream frame m = elim (Table.find frame.stream_id m.streams) [
  | none ↦ m
  | some s ↦ reject_stream s (rst_stream_error frame.stream_id frame.error_code) m
]

-- The loop of `handleGoaway` over the streams that are there when it begins.
unfoldable pub reject_above : ℕ → Error → Streams → Manager → Manager
unfolding reject_stream
reject_above last_stream_id error [] m = m
reject_above last_stream_id error ((id, s) ∷ streams) m =
    reject_above last_stream_id error streams
      (if ltb last_stream_id id then reject_stream s error m else m)

unfoldable pub handle_goaway : GoawayFrame → Manager → Manager
unfolding emit_event reject_above
handle_goaway frame m =
    reject_above frame.last_stream_id
      (goaway_received_error frame.last_stream_id frame.error_code frame.debug_data) m.streams
      (emit_event (goaway_event frame.last_stream_id frame.error_code frame.debug_data) m)

unfoldable pub handle_push_promise : PushPromiseFrame → Manager → Step
unfolding emit_event put_stream new_stream push_header_bytes decode_pending_headers
handle_push_promise frame m =
    let window : FlowControlWindow = record {
      size = pos default_initial_window_size;
      initial_size = default_initial_window_size;
    } in
    let promised =
      push_header_bytes frame.payload (new_stream frame.promised_stream_id window window true) in
    let (decoded, thrown) = decode_pending_headers promised in
    if frame.end_headers
    then (elim thrown [
      | none ↦ done (emit_event (push decoded.id decoded.response_headers) (put_stream decoded m))
      | some e ↦ record { manager = put_stream decoded m; thrown = some e }
    ])
    else (let m' = put_stream promised m in
        done (record m' {
          pending_push_continuation =
              Table.set frame.stream_id frame.promised_stream_id m'.pending_push_continuation;
        }))

module _ (to_number : Text → Option ℕ) where
  unfoldable pub handle_data : DataFrame → Manager → Manager
  unfolding send_window_update strip_padding end_of_stream put_stream maybe_resolve_response
      is_closed
  handle_data frame m = elim (Table.find frame.stream_id m.streams) [
    | none ↦ m
    | some s ↦
        let frame_len = length frame.payload in
        let counted : Manager = record m {
          connection_receive_window = m.connection_receive_window -ℤ pos frame_len;
        } in
        let credited = send_window_update 0 frame_len counted in
        let credited' =
          if is_closed s.state then credited else send_window_update s.id frame_len credited in
        let chunk = strip_padding frame.flags frame.payload in
        let received : ManagedStream = record s {
          remote_window = record {
            size = s.remote_window.size -ℤ pos frame_len;
            initial_size = s.remote_window.initial_size;
          };
          response_chunks =
              if ltb 0 (length chunk) then s.response_chunks ++ (chunk ∷ []) else s.response_chunks;
        } in
        if bit_and frame.flags 0x1 == 0
        then put_stream received credited'
        else (let ended = end_of_stream received in
            maybe_resolve_response to_number ended (put_stream ended credited'))
  ]

  unfoldable pub handle_headers : HeadersFrame → Manager → Step
  unfolding push_header_bytes decode_pending_headers promote end_of_stream put_stream
      maybe_resolve_response
  handle_headers frame m = elim (Table.find frame.stream_id m.streams) [
    | none ↦ done m
    | some s ↦
        let buffered = push_header_bytes frame.payload s in
        let (decoded, thrown) = decode_pending_headers buffered in
        let opened : ManagedStream = record decoded { state = promote decoded.state } in
        let ended = if frame.end_stream then end_of_stream opened else opened in
        if not frame.end_headers then done (put_stream buffered m) else elim thrown [
          | some e ↦ record { manager = put_stream decoded m; thrown = some e }
          | none ↦ done (maybe_resolve_response to_number ended (put_stream ended m))
        ]
  ]

  unfoldable pub handle_continuation : ContinuationFrame → Manager → Step
  unfolding push_header_bytes decode_pending_headers emit_event put_stream maybe_resolve_response
  handle_continuation frame m =
      let promised_id = Table.find frame.stream_id m.pending_push_continuation in
      let target : ℕ = elim promised_id [ none ↦ frame.stream_id | some id ↦ id ] in
      elim (Table.find target m.streams) [
        | none ↦ done m
        | some s ↦
            let buffered = push_header_bytes frame.payload s in
            let (decoded, thrown) = decode_pending_headers buffered in
            let pending : List (ℕ × ℕ) = elim promised_id [
              | none ↦ m.pending_push_continuation
              | some id ↦ Table.delete frame.stream_id m.pending_push_continuation
            ] in
            let m' : Manager = record m { pending_push_continuation = pending } in
            if not frame.end_headers then done (put_stream buffered m) else elim thrown [
              | some e ↦ record { manager = put_stream decoded m'; thrown = some e }
              | none ↦
                  let shown =
                    if decoded.is_push_promise
                    then emit_event (push decoded.id decoded.response_headers)
                        (put_stream decoded m')
                    else put_stream decoded m' in
                  done (maybe_resolve_response to_number decoded shown)
            ]
      ]
