-- ===== src/Connection/Calls.antt =====
-- src/connection.ts: the public calls, the frames that are read and the timer, one step each. An
-- `async` function is cut where it waits: `request` is `request`, `resume` and `begin_request`.
use browsercore_http.Common.{
  ℕ, Bool, true, false, not, ◌&&◌, ◌||◌, Option, none, some, List, [], ◌∷◌, ◌++◌, ◌==◌, ltb,
  if◌then◌else◌, length, Text, Error, Outcome, connection_closed_error, ok, err, stuck,
}
use browsercore_http.Common.Table
use browsercore_http.Frame.Types.{Frame, ping_frame}
use browsercore_http.Stream.Receive.{Step}
use browsercore_http.Stream.Settle.{send_frame}
use browsercore_http.Stream.Manager.{dispatch, open_stream, expect_response, send_data}
use browsercore_http.Connection.Request.{Http2Request, Http2Options, request_frame}
use browsercore_http.Connection.State.{
  Connection, RequestCall, failed, settings_ack_timeout, add_id, delete_id, settle, refuse,
  release_slot, closing_error, hear_manager, handle_fatal, send_goaway,
}

-- The loop of `acquireSlot`, up to where it waits or ends.
unfoldable pub acquire_slot : RequestCall → Connection → Connection
acquire_slot call c =
    if not c.closing
      && (not c.closed
          && not (ltb (length c.active_client_streams) c.manager.max_concurrent_streams))
    then record c { slot_waiters = c.slot_waiters ++ (call ∷ []) }
    else record c { granted = c.granted ++ (call ∷ []) }

-- `request`, up to the wait for a slot.
unfoldable pub request : RequestCall → Connection → Connection
unfolding acquire_slot closing_error refuse
request call c =
    if c.closing || c.closed then refuse call.resolver (closing_error c) c else acquire_slot call c

-- The request that was woken first looks at the slots again.
unfoldable pub resume : Connection → Connection
unfolding acquire_slot
resume c = elim c.woken [ [] ↦ c | call ∷ calls ↦ acquire_slot call (record c { woken = calls }) ]

-- `req.body === undefined || req.body.length === 0`
unfoldable pub has_no_body : Http2Request → Bool
has_no_body req = elim req.body [ none ↦ true | some body ↦ length body == 0 ]

unfoldable pub body_of : Http2Request → List ℕ
body_of req = elim req.body [ none ↦ [] | some body ↦ body ]

-- `ping`, with the data that it was given or has drawn.
unfoldable pub ping : ℕ → ℕ → Connection → Connection
unfolding settle send_frame
ping promise opaque_data c =
    let frame =
      ping_frame (record { flags = 0; stream_id = 0; ack = false; opaque_data = opaque_data }) in
    if c.closed then settle promise (failed connection_closed_error) c else record c {
      ping_listeners = c.ping_listeners ++ ((promise, opaque_data) ∷ []);
      manager = send_frame frame c.manager;
    }

-- `goaway`
unfoldable pub goaway : ℕ → ℕ → List ℕ → Connection → Connection
unfolding send_goaway
goaway last_stream_id error_code debug_data c =
    send_goaway last_stream_id error_code debug_data (record c { closing = true })

unfoldable pub wait_for_settings_ack : ℕ → ℕ → Connection → Connection
wait_for_settings_ack promise timeout_ms c = record c {
  settings_ack_reject = some promise;
  timers = c.timers ++ ((promise, timeout_ms) ∷ []);
  settings_ack_listeners = c.settings_ack_listeners ++ (promise ∷ []);
}

-- The callback of the timer of `waitForSettingsAck`, where the timer is armed.
unfoldable pub time_out : ℕ → Connection → Connection
unfolding settle
time_out promise c = elim (Table.find promise c.timers) [
  | none ↦ c
  | some timeout_ms ↦ settle promise (settings_ack_timeout timeout_ms) (record c {
    settings_ack_reject = none;
    timers = Table.delete promise c.timers;
    settings_ack_listeners = delete_id promise c.settings_ack_listeners;
  })
]

-- The transport's `read`, or the parser, has thrown.
unfoldable pub on_error : Error → Connection → Connection
unfolding handle_fatal
on_error error c = if c.closed then c else handle_fatal error c

module _ (to_number : Text → Option ℕ) where
  -- What `readLoop` does with a frame.
  unfoldable pub on_frame : Frame → Connection → Connection
  unfolding hear_manager handle_fatal
  on_frame frame c =
      let step : Step = dispatch to_number frame c.manager in
      let heard = hear_manager step.manager c in
      elim step.thrown [ none ↦ heard | some error ↦ handle_fatal error heard ]

-- What follows the making of the HEADERS frame, where the response is waited for already. An exception
-- of the encoder rejects the promise. The encoder always returns or throws, so the last case does
-- not arise.
unfoldable pub send_framed : Outcome Frame → ℕ → RequestCall → Connection → Connection
unfolding refuse send_frame has_no_body body_of
send_framed (ok frame) id call c =
    let sent = send_frame frame c.manager in
    record c {
      manager = if has_no_body call.req then sent else send_data id (body_of call.req) true sent;
    }
send_framed (err error) id call c = refuse call.resolver error c
send_framed stuck id call c = c

module _ (to_lower_case : Text → Text) (options : Http2Options) where
  -- `expectResponse`, `sendHeaders` and `sendData`.
  unfoldable pub send_request : ℕ → RequestCall → Connection → Connection
  unfolding send_framed expect_response has_no_body
  send_request id call c =
      send_framed (request_frame to_lower_case options id call.req (has_no_body call.req)) id call
        (record c { manager = expect_response id call.resolver c.manager })

  -- The rest of `request` for one request, behind the wait for a slot.
  unfoldable pub begin_call : RequestCall → Connection → Connection
  unfolding send_request release_slot refuse closing_error
  begin_call call c =
      let (id, opened) = open_stream c.manager in
      let active = add_id id c.active_client_streams in
      let begun : Connection = record c { manager = opened; active_client_streams = active } in
      let bailed : Connection = record begun { active_client_streams = delete_id id active } in
      if c.closing || c.closed
      then refuse call.resolver (closing_error c) (release_slot bailed)
      else send_request id call begun

  -- The request that was granted a slot first goes on.
  unfoldable pub begin_request : Connection → Connection
  unfolding begin_call
  begin_request c = elim c.granted [
    | [] ↦ c
    | call ∷ calls ↦ begin_call call (record c { granted = calls })
  ]
