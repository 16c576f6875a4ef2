-- ===== src/Stream/Tests.antt =====
-- The theorems about src/stream/stream.ts at concrete inputs.
use browsercore_http.Common.{
  ℕ, ◌+◌, ◌*◌, ◌-◌, ◌≤◌, ◌≡◌, ◌&&◌, false, true, Option, none, some, List, [], ◌∷◌, leb,
  if◌then◌else◌, Text, connection_closed_error, goaway_received_error,
}
use browsercore_http.Common.Int.{pos}
use browsercore_http.Frame.Types.{Frame, GoawayFrame, window_update_frame, rst_stream_frame}
use browsercore_http.Stream.Types.{
  FlowControlWindow, Manager, new_stream, create_stream_manager, stream_closed, goaway_event,
  rejected,
}
use browsercore_http.Stream.Drain.{Draining, is_blocked, drain}
use browsercore_http.Stream.Drain.Flow.{Flows, drain_lem}
use browsercore_http.Stream.Receive.{handle_goaway}
use browsercore_http.Stream.Manager.{abort_all}
use browsercore_http.Stream.Credit.{octets_sent}
use browsercore_http.Stream.Credit.Runs.{
  Call, awaited, stream_opened, data_sent, frame_received, run, run-send_window,
}
use browsercore_http.Stream.Limits.{IsLimited, run-IsLimited}
use browsercore_http.Stream.Promises.Runs.{IsAccounted, awaits, run-IsAccounted}
use browsercore_http.Stream.Abort.{abort_all_lem, handle_goaway_lem}

abbrev window_of : ℕ → FlowControlWindow
window_of n = record { size = pos n; initial_size = n }

-- Five octets to send, two at a time, with four left in the connection's window.
abbrev five_queued : Draining
five_queued = record {
  window = pos 4;
  stream = record (new_stream 1 (window_of 100) (window_of 100) false) {
    send_queue = 1 ∷ 2 ∷ 3 ∷ 4 ∷ 5 ∷ [];
    send_queue_end_stream = true;
  };
  frames = [];
}

drain_lem_example :
    (is_blocked 2 (drain 2 five_queued) ≡ true)
    × ((moved : List Frame) × Flows 2 five_queued (drain 2 five_queued) moved)
drain_lem_example = drain_lem 2 five_queued

-- `Number` on decimal texts.
abbrev decimal : ℕ → Text → Option ℕ
decimal value [] = some value
decimal value (c ∷ text) =
    if leb 48 c && leb c 57 then decimal (value * 10 + (c - 48)) text else none

-- A stream is opened and three octets are sent on it; then the peer gives ten more.
abbrev three_sent : List Call
three_sent =
    stream_opened
    ∷ data_sent 1 (1 ∷ 2 ∷ 3 ∷ []) true
    ∷ frame_received
        (window_update_frame (record { flags = 0; stream_id = 0; window_size_increment = 10 }))
    ∷ []

run-send_window_example :
    (octets_sent (run (decimal 0) three_sent create_stream_manager).sent ≤ 65545)
    × ((run (decimal 0) three_sent create_stream_manager).connection_send_window
        ≡ pos (65545 - octets_sent (run (decimal 0) three_sent create_stream_manager).sent))
run-send_window_example = run-send_window (decimal 0) three_sent

-- Two streams, of which the second waits for a response.
abbrev two_streams : Manager
two_streams = record create_stream_manager {
  streams =
      (1, new_stream 1 (window_of 100) (window_of 100) false)
      ∷ (3, record (new_stream 3 (window_of 100) (window_of 100) false) { resolver = some 7 })
      ∷ [];
}

abort_all_lem_example :
    ((abort_all connection_closed_error two_streams).streams ≡ [])
    × ((abort_all connection_closed_error two_streams).settled
        ≡ rejected 7 connection_closed_error ∷ [])
    × ((abort_all connection_closed_error two_streams).events
        ≡ stream_closed 1 ∷ stream_closed 3 ∷ [])
unfolding create_stream_manager new_stream
abort_all_lem_example = abort_all_lem connection_closed_error two_streams

abbrev last_one : GoawayFrame
last_one = record { flags = 0; stream_id = 0; last_stream_id = 1; error_code = 2; debug_data = [] }

handle_goaway_lem_example :
    ((handle_goaway last_one two_streams).settled ≡ rejected 7 (goaway_received_error 1 2 []) ∷ [])
    × ((handle_goaway last_one two_streams).events ≡ goaway_event 1 2 [] ∷ stream_closed 3 ∷ [])
unfolding create_stream_manager new_stream
handle_goaway_lem_example = handle_goaway_lem last_one two_streams

run-IsLimited_example : IsLimited (run (decimal 0) three_sent create_stream_manager)
run-IsLimited_example = run-IsLimited (decimal 0) three_sent

-- A response that is awaited with the promise 7, reset by the peer, and reset again.
abbrev twice_reset : List Call
twice_reset =
    stream_opened
    ∷ awaited 1 7
    ∷ frame_received (rst_stream_frame (record { flags = 0; stream_id = 1; error_code = 8 }))
    ∷ frame_received (rst_stream_frame (record { flags = 0; stream_id = 1; error_code = 8 }))
    ∷ []

run-IsAccounted_example :
    IsAccounted (λ p. awaits p twice_reset) (run (decimal 0) twice_reset create_stream_manager)
run-IsAccounted_example = run-IsAccounted (decimal 0) twice_reset
