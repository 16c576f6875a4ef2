-- ===== src/Connection/Tests.antt =====
-- The theorems about src/connection.ts at concrete inputs.
use browsercore_http.Common.{
  ℕ, ◌+◌, ◌^◌, ◌<◌, ◌≡◌, refl, arith, Bool, true, false, ◌&&◌, Option, none, some, List, [], ◌∷◌,
  ◌++◌, leb, if◌then◌else◌, map, drop, Text, codes, text_eq, Error, transport_error,
  connection_closed_error, ◌-◌, ◌≤◌,
}
use browsercore_http.Common.Table
use mathlib.Core.List.{flatten}
use browsercore_http.Common.Dict.{get, has}
use browsercore_http.Frame.Types.{
  window_update_frame, Frame, ping_frame, rst_stream_frame, GoawayFrame, goaway_frame, flags_of,
  stream_id_of, type_of,
}
use browsercore_http.Frame.Words.{put_uint32, put_uint64}
use browsercore_http.Frame.Serialize.{serialize_payload, serialize_frame, put_header}
use browsercore_http.Connection.Request.{
  Http2Request, Http2Options, pseudo_sources, build_request_headers, includes_name,
}
use browsercore_http.Connection.Request.Lookup.{prefer, get-build_request_headers}
use browsercore_http.Connection.Request.Loops.{arrange}
use browsercore_http.Connection.Request.Arranged.{build_request_headers_lem}
use browsercore_http.Connection.Reader.{Incoming, read_one_frame, read_loop}
use browsercore_http.Connection.Reader.Chunks.{octets_of, next_frame, seen_as, read_one_frame_lem}
use browsercore_http.Connection.Reader.Loop.{deliver, read_loop-serialize_all}
use browsercore_http.Connection.State.{
  Connection, RequestCall, new_connection, failed, handle_fatal, close, hear, ping_acked, delete_id,
}
use browsercore_http.Connection.Calls.{on_frame, on_error}
use browsercore_http.Stream.Types.{create_stream_manager, ping_ack, new_stream}
use browsercore_http.Stream.Settle.{put_stream, reject_stream, finalize_stream, emit_event}
use browsercore_http.Stream.Receive.{handle_rst_stream}
use browsercore_http.Stream.Manager.{open_stream, dispatch}
use browsercore_http.Connection.Down.{
  IsTornDown, close_lem, handle_fatal_lem, close-close, close-closed,
}
use browsercore_http.Connection.Aside.{queue}
use browsercore_http.Connection.Pings.{hear-ping_ack}
use browsercore_http.Connection.Runs.Queue.{waiting_order}
use browsercore_http.Connection.Runs.Balance.{run-sent}
use browsercore_http.Common.Int.{pos}
use browsercore_http.Stream.Credit.{octets_sent}
use browsercore_http.Connection.Runs.{frame_read, Action, requested, begun, closed_down, act, run}
use browsercore_http.Connection.Waking.{Frees, on_frame-Frees}
use browsercore_http.Connection.Runs.Invariants.{run-closed}
use browsercore_http.Connection.Preface.{connect_http2, preface_octets, random_uint64}
use browsercore_http.Connection.Preface.Sent.{random_uint64_lem}

-- `toLowerCase` on ASCII texts.
abbrev lower : Text → Text
lower s = map (λ (c : ℕ). if leb 65 c && leb c 90 then c + 32 else c) s

-- `Number` gives nothing here.
abbrev no_number : Text → Option ℕ
no_number text = none

abbrev shaped : Http2Options
shaped = record {
  initial_settings = some ((1, 4096) ∷ (4, 65535) ∷ []);
  settings_ack_timeout_ms = none;
  settings_order = none;
  settings_grease = none;
  connection_window_update = some 1507329;
  priority_frames =
      some (record { stream_id = 3; exclusive = true; stream_dependency = 0; weight = 200 } ∷ []);
  pseudo_header_order = some (codes ":path" ∷ codes ":method" ∷ []);
  header_order = some (codes "b" ∷ codes "c" ∷ []);
  hpack_huffman = some false;
  hpack_indexing = none;
  hpack_max_table_size = none;
}

abbrev index_page : Http2Request
index_page = record {
  method = codes "GET";
  scheme = codes "https";
  authority = codes "a.b";
  path = codes "/";
  headers = (codes "a", codes "1") ∷ (codes "b", codes "2") ∷ [];
  body = none;
}

get-build_request_headers_example :
    get (codes "b") (build_request_headers shaped index_page)
    ≡ prefer (get (codes "b") index_page.headers) (get (codes "b") (pseudo_sources index_page))
get-build_request_headers_example =
    get-build_request_headers shaped index_page (codes "b")
      (unfold has text_eq in (refl, (refl, tt)))

build_request_headers_lem_example :
    build_request_headers shaped index_page
    ≡ arrange shaped.pseudo_header_order (pseudo_sources index_page)
      ++ arrange shaped.header_order index_page.headers
build_request_headers_lem_example =
    build_request_headers_lem shaped index_page (unfold includes_name text_eq in (refl, (refl, tt)))
      (unfold includes_name text_eq in (refl, (refl, tt)))
      (unfold has text_eq in (refl, (refl, tt))) (unfold has text_eq in (refl, (refl, tt)))

abbrev ping_7 : Frame
ping_7 = ping_frame (record { flags = 0; stream_id = 0; ack = false; opaque_data = 7 })

-- A PING frame that is cut behind its third octet and within its data.
abbrev in_pieces : Incoming
in_pieces = record {
  read_buffer = 0 ∷ 0 ∷ 8 ∷ [];
  unread = (6 ∷ 0 ∷ 0 ∷ 0 ∷ 0 ∷ 0 ∷ 0 ∷ 0 ∷ []) ∷ [] ∷ (0 ∷ 0 ∷ 0 ∷ 0 ∷ 0 ∷ 7 ∷ []) ∷ [];
}

read_one_frame_lem_example : seen_as (read_one_frame in_pieces) ≡ next_frame (octets_of in_pieces)
read_one_frame_lem_example = read_one_frame_lem in_pieces

-- A state that counts the frames and stops at five of them.
abbrev count : Frame → ℕ → ℕ
count f n = n + 1

abbrev at_five : ℕ → Bool
at_five n = leb 5 n

abbrev failing : Error → ℕ → ℕ
failing e n = n + 100

read_loop-serialize_all_example :
    read_loop at_five count failing 20 in_pieces 0 ≡ deliver at_five count failing (ping_7 ∷ []) 0
unfolding flatten
read_loop-serialize_all_example =
    read_loop-serialize_all at_five count failing 0 20 (ping_7 ∷ []) in_pieces 0
      (unfold serialize_frame serialize_payload put_header put_uint32 put_uint64 type_of flags_of
          stream_id_of in
        refl)
      (unfold serialize_payload put_uint32 put_uint64 flags_of stream_id_of in
        (((refl, refl, omega arith), omega arith, omega arith, omega arith), tt))
      (omega arith)

abbrev whole_preface : Incoming
whole_preface = record { read_buffer = drop 24 (preface_octets 0 shaped); unread = [] }

random_uint64_lem_example :
    (v : ℕ) × (random_uint64 (1 ∷ 2 ∷ 3 ∷ 4 ∷ 5 ∷ 6 ∷ 7 ∷ 8 ∷ []) ≡ some v)
    × (v < 2 ^ 64)
    × (put_uint64 v ≡ 1 ∷ 2 ∷ 3 ∷ 4 ∷ 5 ∷ 6 ∷ 7 ∷ 8 ∷ [])
random_uint64_lem_example =
    random_uint64_lem (1 ∷ 2 ∷ 3 ∷ 4 ∷ 5 ∷ 6 ∷ 7 ∷ 8 ∷ []) (omega arith) (ground arith)

abbrev first_call : RequestCall
first_call = record { resolver = 1; req = index_page }

abbrev second_call : RequestCall
second_call = record { resolver = 2; req = index_page }

-- One stream is open, and one request waits for its slot.
abbrev busy : Connection
busy = record new_connection {
  active_client_streams = 1 ∷ [];
  slot_waiters = second_call ∷ [];
  settings_ack_reject = some 5;
}

close_lem_example :
    IsTornDown connection_closed_error busy (close busy) × ((close busy).transport_closed ≡ true)
close_lem_example = close_lem busy (unfold new_connection in refl)

handle_fatal_lem_example :
    IsTornDown transport_error busy (handle_fatal transport_error busy)
    × (Table.find 5 (handle_fatal transport_error busy).results ≡ some (failed transport_error))
handle_fatal_lem_example =
    handle_fatal_lem transport_error busy 5 (unfold new_connection in refl) refl
      (unfold new_connection Table.find in refl)

close-close_example :
    (close (close busy) ≡ close busy) × (handle_fatal transport_error (close busy) ≡ close busy)
close-close_example = close-close transport_error busy

abbrev opened_and_closed : List Action
opened_and_closed = requested first_call ∷ begun ∷ requested second_call ∷ closed_down ∷ []

run-closed_example :
    let d = run no_number lower shaped opened_and_closed new_connection in
    (d.closing ≡ true) × (d.active_client_streams ≡ []) × (d.slot_waiters ≡ [])
run-closed_example = run-closed no_number lower shaped opened_and_closed (
    unfold run act in
    close-closed (
      run no_number lower shaped (requested first_call ∷ begun ∷ requested second_call ∷ [])
        new_connection))

-- Two waits whose timers are armed.
abbrev two_waits : Connection
two_waits = record new_connection {
  settings_ack_listeners = 3 ∷ 4 ∷ [];
  timers = (3, 100) ∷ (4, 200) ∷ [];
}

-- The stream 1 is open in the manager, and one request waits for its slot.
abbrev one_open : Connection
one_open = record new_connection {
  manager = (open_stream create_stream_manager).1;
  active_client_streams = 1 ∷ [];
  slot_waiters = second_call ∷ [];
}

abbrev reset_1 : Frame
reset_1 = rst_stream_frame (record { flags = 0; stream_id = 1; error_code = 8 })

abbrev goaway_0 : GoawayFrame
goaway_0 = record { flags = 0; stream_id = 0; last_stream_id = 0; error_code = 0; debug_data = [] }

on_frame-Frees_example :
    Frees [] one_open (on_frame no_number reset_1 one_open)
    × Frees [] one_open (on_frame no_number (goaway_frame goaway_0) one_open)
unfolding new_connection create_stream_manager open_stream put_stream Table.set new_stream dispatch
    handle_rst_stream Table.find reject_stream finalize_stream emit_event delete_id
on_frame-Frees_example = on_frame-Frees no_number reset_1 goaway_0 one_open refl

-- A request is made and begun; then the peer gives ten octets more.
abbrev begun_request : List Action
begun_request =
    requested first_call
    ∷ begun
    ∷ frame_read
        (window_update_frame (record { flags = 0; stream_id = 0; window_size_increment = 10 }))
    ∷ []

run-sent_example :
    let d = run no_number lower shaped begun_request (connect_http2 5 shaped) in
    (octets_sent d.manager.sent ≤ 65545)
    × (d.manager.connection_send_window ≡ pos (65545 - octets_sent d.manager.sent))
run-sent_example = run-sent no_number lower shaped 5 begun_request

-- Two pings wait, with the data 7 and 8.
abbrev two_pings : Connection
two_pings = record new_connection { ping_listeners = (1, 7) ∷ (2, 8) ∷ [] }

hear-ping_ack_example :
    ((hear (ping_ack 8) two_pings).ping_listeners ≡ (1, 7) ∷ [])
    × ((hear (ping_ack 8) two_pings).results ≡ (2, ping_acked 8) ∷ [])
unfolding new_connection
hear-ping_ack_example = hear-ping_ack 8 two_pings (unfold Table.find in (refl, (refl, tt)))

waiting_order_example :
    ((queue (on_frame no_number ping_7 busy) ≡ queue busy)
      × ((on_frame no_number ping_7 busy).granted ≡ busy.granted))
    × ((queue (on_error transport_error busy) ≡ queue busy)
        × ((on_error transport_error busy).granted ≡ busy.granted))
    × (queue (close busy) ≡ queue busy)
    × ((close busy).granted ≡ busy.granted)
waiting_order_example = waiting_order no_number ping_7 transport_error busy
