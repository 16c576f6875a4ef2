-- ===== src/Stream/Credit/Runs.antt =====
-- src/stream/stream.ts: what the connection asks of the manager, in any order, and the octets that
-- all of it sends.
use browsercore_http.Common.{
  ℕ, ◌+◌, ◌-◌, ◌≤◌, ◌≡◌, refl, ap, ◌∙◌, arith, Bool, Option, List, [], ◌∷◌, ◌==◌, if◌then◌else◌,
  inl, inr, Option-cases, Bool-cases, Text, Error,
}
use browsercore_http.Common.Int.{pos}
use browsercore_http.Common.Table
use browsercore_http.Frame.Types.{
  Frame, data_frame, headers_frame, priority_frame, rst_stream_frame, settings_frame,
  push_promise_frame, ping_frame, goaway_frame, window_update_frame, continuation_frame,
  SettingsFrame,
}
use browsercore_http.Stream.Types.{Manager, create_stream_manager, default_initial_window_size}
use browsercore_http.Stream.Receive.{handle_settings}
use browsercore_http.Stream.Settle.{emit_event, put_stream}
use browsercore_http.Stream.Settings.{apply_remote_settings}
use browsercore_http.Stream.Manager.{
  dispatch, open_stream, apply_window_update, send_data, expect_response, reject_each, abort_all,
}
use browsercore_http.Stream.Credit.{
  Balanced, octets_sent, connection_increment, same_credit, drain_stream-Balanced,
  apply_remote_settings-Balanced, handle_window_update-Balanced,
}
use browsercore_http.Stream.Credit.Handlers.{
  Keeps, Keeps-same, send_settings_ack-Keeps, handle_ping-Keeps, handle_rst_stream-Keeps,
  handle_goaway-Keeps, reject_each-Keeps, handle_push_promise-Keeps, handle_data-Keeps,
  handle_headers-Keeps, handle_continuation-Keeps,
}

-- What a frame from the peer adds to the connection's credit.
abbrev pub frame_credit : Frame → ℕ
frame_credit (data_frame f) = 0
frame_credit (headers_frame f) = 0
frame_credit (priority_frame f) = 0
frame_credit (rst_stream_frame f) = 0
frame_credit (settings_frame f) = 0
frame_credit (push_promise_frame f) = 0
frame_credit (ping_frame f) = 0
frame_credit (goaway_frame f) = 0
frame_credit (window_update_frame f) = connection_increment f
frame_credit (continuation_frame f) = 0

pub kept : (credit : ℕ) (m n : Manager) → Keeps m n → Balanced credit m → Balanced credit n
kept credit m n k b = rw (k.window, k.payload) b

kept_more : (credit : ℕ) (m n : Manager) → Keeps m n → Balanced credit m → Balanced (credit + 0) n
kept_more credit m n k b = same_credit credit n (kept credit m n k b)

handle_settings-Balanced :
    (credit : ℕ) (f : SettingsFrame) (m : Manager)
    → Balanced credit m
    → Balanced credit (handle_settings f m)
unfolding handle_settings
handle_settings-Balanced credit f m b = elim (Bool-cases f.ack) [
  | inl acked ↦ rw (handle_settings, acked) (unfold emit_event in b)
  | inr asked ↦
      rw (handle_settings, asked)
        (kept credit (apply_remote_settings f.settings m) _
          (send_settings_ack-Keeps (apply_remote_settings f.settings m))
          (apply_remote_settings-Balanced credit f.settings m b))
]

module _ (to_number : Text → Option ℕ) where
  pub dispatch-Balanced :
      (credit : ℕ) (f : Frame) (m : Manager)
      → Balanced credit m
      → Balanced (credit + frame_credit f) (dispatch to_number f m).manager
  unfolding dispatch
  dispatch-Balanced credit (data_frame f) m b =
      kept_more credit m _ (handle_data-Keeps to_number f m) b
  dispatch-Balanced credit (headers_frame f) m b =
      kept_more credit m _ (handle_headers-Keeps to_number f m) b
  dispatch-Balanced credit (priority_frame f) m b = same_credit credit m b
  dispatch-Balanced credit (rst_stream_frame f) m b =
      kept_more credit m _ (handle_rst_stream-Keeps f m) b
  dispatch-Balanced credit (settings_frame f) m b =
      same_credit credit (handle_settings f m) (handle_settings-Balanced credit f m b)
  dispatch-Balanced credit (push_promise_frame f) m b =
      kept_more credit m _ (handle_push_promise-Keeps f m) b
  dispatch-Balanced credit (ping_frame f) m b = kept_more credit m _ (handle_ping-Keeps f m) b
  dispatch-Balanced credit (goaway_frame f) m b = kept_more credit m _ (handle_goaway-Keeps f m) b
  dispatch-Balanced credit (window_update_frame f) m b = handle_window_update-Balanced credit f m b
  dispatch-Balanced credit (continuation_frame f) m b =
      kept_more credit m _ (handle_continuation-Keeps to_number f m) b

send_data-Balanced :
    (credit id : ℕ) (bytes : List ℕ) (end_stream : Bool) (m : Manager)
    → Balanced credit m
    → Balanced credit (send_data id bytes end_stream m)
unfolding send_data
send_data-Balanced credit id bytes end_stream m b = elim (Option-cases (Table.find id m.streams)) [
  | inl none_ ↦ rw (send_data, none_) b
  | inr (s, found) ↦ rw (send_data, found) (drain_stream-Balanced credit _ m b)
]

pub regroup :
    (credit one more : ℕ) (m : Manager)
    → Balanced (credit + one + more) m
    → Balanced (credit + (one + more)) m
regroup credit one more m b = (omega (arith, b.0), b.1 ∙ ap pos (omega arith))

expect_response-Keeps : (id resolver : ℕ) (m : Manager) → Keeps m (expect_response id resolver m)
unfolding expect_response put_stream
expect_response-Keeps id resolver m = Keeps-same m _ (ground arith) (ground arith)

-- What the connection asks of the manager.
pub data Call : Type 0 where
  frame_received : Frame → Call
  stream_opened : Call
  data_sent : ℕ → List ℕ → Bool → Call
  awaited : ℕ → ℕ → Call
  window_updated : ℕ → ℕ → Call
  aborted : Error → Call

abbrev pub call_credit : Call → ℕ
call_credit (frame_received f) = frame_credit f
call_credit stream_opened = 0
call_credit (data_sent id bytes end_stream) = 0
call_credit (awaited id resolver) = 0
call_credit (window_updated id increment) = if id == 0 then increment else 0
call_credit (aborted error) = 0

abbrev pub total_credit : List Call → ℕ
total_credit [] = 0
total_credit (c ∷ calls) = call_credit c + total_credit calls

module _ (to_number : Text → Option ℕ) where
  unfoldable pub call : Call → Manager → Manager
  call (frame_received f) m = (dispatch to_number f m).manager
  call stream_opened m = (open_stream m).1
  call (data_sent id bytes end_stream) m = send_data id bytes end_stream m
  call (awaited id resolver) m = expect_response id resolver m
  call (window_updated id increment) m = apply_window_update id increment m
  call (aborted error) m = abort_all error m

  unfoldable pub run : List Call → Manager → Manager
  run [] m = m
  run (c ∷ calls) m = run calls (call c m)

  pub call-Balanced :
      (credit : ℕ) (c : Call) (m : Manager)
      → Balanced credit m
      → Balanced (credit + call_credit c) (call c m)
  unfolding call open_stream put_stream apply_window_update abort_all
  call-Balanced credit (frame_received f) m b = dispatch-Balanced to_number credit f m b
  call-Balanced credit stream_opened m b = same_credit credit m b
  call-Balanced credit (data_sent id bytes end_stream) m b =
      same_credit credit (send_data id bytes end_stream m)
        (send_data-Balanced credit id bytes end_stream m b)
  call-Balanced credit (awaited id resolver) m b =
      kept_more credit m _ (expect_response-Keeps id resolver m) b
  call-Balanced credit (window_updated id increment) m b =
      handle_window_update-Balanced credit _ m b
  call-Balanced credit (aborted error) m b =
      kept_more credit m (reject_each error m.streams m) (reject_each-Keeps error m.streams m) b

  run-Balanced :
      (credit : ℕ) (calls : List Call) (m : Manager)
      → Balanced credit m
      → Balanced (credit + total_credit calls) (run calls m)
  unfolding run
  run-Balanced credit [] m b = same_credit credit m b
  run-Balanced credit (c ∷ calls) m b =
      regroup credit (call_credit c) (total_credit calls) (run calls (call c m))
        (run-Balanced (credit + call_credit c) calls (call c m) (call-Balanced credit c m b))

  -- Whatever the peer sends and the connection asks, in whatever order, from a new manager on: all
  -- DATA frames together carry no more octets than the initial window and the increments of the
  -- connection's WINDOW_UPDATEs, and the connection's send window is what is left of that, so it
  -- is never negative.
  pub run-send_window :
      (calls : List Call)
      → (octets_sent (run calls create_stream_manager).sent
          ≤ default_initial_window_size + total_credit calls)
        × ((run calls create_stream_manager).connection_send_window
            ≡ pos (
                default_initial_window_size
                + total_credit calls
                - octets_sent (run calls create_stream_manager).sent))
  unfolding create_stream_manager
  run-send_window calls =
      run-Balanced default_initial_window_size calls create_stream_manager (omega arith, refl)
