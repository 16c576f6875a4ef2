-- ===== src/Connection/Runs.antt =====
-- src/connection.ts: the steps of a connection in any order.
pub mod Advances
pub mod Steps
pub mod Opening
pub mod Invariants
pub mod Queue
pub mod Credit
pub mod Spending
pub mod Balance
use browsercore_http.Common.{ℕ, Option, List, [], ◌∷◌, Text, Error}
use browsercore_http.Frame.Types.{Frame}
use browsercore_http.Connection.Request.{Http2Options}
use browsercore_http.Connection.State.{Connection, RequestCall, close}
use browsercore_http.Connection.Calls.{
  request, resume, begin_request, ping, goaway, wait_for_settings_ack, time_out, on_error, on_frame,
}

-- What may happen next: a call of the user, a turn of a request that waits for one, a frame or an
-- error of the read loop, or a timer.
pub data Action : Type 0 where
  requested : RequestCall → Action
  resumed begun closed_down : Action
  pinged : ℕ → ℕ → Action
  went_away : ℕ → ℕ → List ℕ → Action
  awaited : ℕ → ℕ → Action
  timed_out : ℕ → Action
  frame_read : Frame → Action
  read_failed : Error → Action

module _ (to_number : Text → Option ℕ) (to_lower_case : Text → Text) (options : Http2Options) where
  unfoldable pub act : Action → Connection → Connection
  act (requested call) c = request call c
  act resumed c = resume c
  act begun c = begin_request to_lower_case options c
  act closed_down c = close c
  act (pinged promise opaque_data) c = ping promise opaque_data c
  act (went_away last_stream_id error_code debug_data) c =
      goaway last_stream_id error_code debug_data c
  act (awaited promise timeout_ms) c = wait_for_settings_ack promise timeout_ms c
  act (timed_out promise) c = time_out promise c
  act (frame_read frame) c = on_frame to_number frame c
  act (read_failed error) c = on_error error c

  unfoldable pub run : List Action → Connection → Connection
  run [] c = c
  run (a ∷ actions) c = run actions (act a c)
