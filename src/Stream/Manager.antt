-- ===== src/Stream/Manager.antt =====
-- src/stream/stream.ts: `dispatch` and the operations that the connection calls.
use browsercore_http.Common.{
  ℕ, ◌+◌, Bool, true, false, Option, none, some, List, [], ◌∷◌, ◌++◌, ltb, if◌then◌else◌, length,
  Text, Error, rst_stream_error,
}
use browsercore_http.Common.Int.{pos}
use browsercore_http.Common.Table
use browsercore_http.Frame.Types.{
  Frame, data_frame, headers_frame, priority_frame, rst_stream_frame, settings_frame,
  push_promise_frame, ping_frame, goaway_frame, window_update_frame, continuation_frame,
}
use browsercore_http.Stream.Types.{
  FlowControlWindow, Manager, Streams, new_stream, default_initial_window_size, rejected,
}
use browsercore_http.Stream.Settle.{put_stream, reject_stream}
use browsercore_http.Stream.Settings.{drain_stream, handle_window_update}
use browsercore_http.Stream.Receive.{
  Step, done, handle_data, handle_headers, handle_rst_stream, handle_settings, handle_push_promise,
  handle_ping, handle_goaway, handle_continuation,
}

-- `handlePriority` does nothing.
unfoldable pub dispatch : (Text → Option ℕ) → Frame → Manager → Step
dispatch to_number (data_frame f) m = done (handle_data to_number f m)
dispatch to_number (headers_frame f) m = handle_headers to_number f m
dispatch to_number (priority_frame f) m = done m
dispatch to_number (rst_stream_frame f) m = done (handle_rst_stream f m)
dispatch to_number (settings_frame f) m = done (handle_settings f m)
dispatch to_number (push_promise_frame f) m = handle_push_promise f m
dispatch to_number (ping_frame f) m = done (handle_ping f m)
dispatch to_number (goaway_frame f) m = done (handle_goaway f m)
dispatch to_number (window_update_frame f) m = done (handle_window_update f m)
dispatch to_number (continuation_frame f) m = handle_continuation to_number f m

-- The new id, with the manager. Ids count up from 1 and do not wrap: a double has no sign bit to
-- run into, so the source's guard against a negative id never fires.
unfoldable pub open_stream : Manager → ℕ × Manager
unfolding new_stream put_stream
open_stream m =
    let id = m.next_stream_id in
    let local : FlowControlWindow = record {
      size = pos m.remote_initial_window_size;
      initial_size = m.remote_initial_window_size;
    } in
    let remote : FlowControlWindow = record {
      size = pos default_initial_window_size;
      initial_size = default_initial_window_size;
    } in
    (id, put_stream (new_stream id local remote false) (record m { next_stream_id = id + 2 }))

unfoldable pub apply_window_update : ℕ → ℕ → Manager → Manager
apply_window_update stream_id increment m =
    handle_window_update
      (record { flags = 0; stream_id = stream_id; window_size_increment = increment }) m

unfoldable pub send_data : ℕ → List ℕ → Bool → Manager → Manager
send_data stream_id bytes end_stream m = elim (Table.find stream_id m.streams) [
  | none ↦ m
  | some s ↦
      let queue = if ltb 0 (length bytes) then s.send_queue ++ bytes else s.send_queue in
      let ending = if end_stream then true else s.send_queue_end_stream in
      drain_stream (record s { send_queue = queue; send_queue_end_stream = ending }) m
]

-- `resolver` names the two callbacks.
unfoldable pub expect_response : ℕ → ℕ → Manager → Manager
unfolding put_stream
expect_response stream_id resolver m = elim (Table.find stream_id m.streams) [
  | none ↦ record m {
    settled = m.settled ++ (rejected resolver (rst_stream_error stream_id 0x1) ∷ []);
  }
  | some s ↦ put_stream (record s { resolver = some resolver }) m
]

-- The loop of `abortAll` over the streams that are there when it begins.
unfoldable pub reject_each : Error → Streams → Manager → Manager
unfolding reject_stream
reject_each error [] m = m
reject_each error ((id, s) ∷ streams) m = reject_each error streams (reject_stream s error m)

unfoldable pub abort_all : Error → Manager → Manager
unfolding reject_each
abort_all error m = let m' = reject_each error m.streams m in record m' { streams = [] }
