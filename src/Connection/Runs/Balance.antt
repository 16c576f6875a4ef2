-- ===== src/Connection/Runs/Balance.antt =====
-- src/connection.ts: the send window of the peer over a whole connection, from `connectHttp2` on.
use browsercore_http.Common.{
  ℕ, ◌+◌, ◌-◌, ◌≤◌, ◌≡◌, refl, sym, ap, subst, Bool, true, ◌||◌, Option, List, [], ◌∷◌, ◌++◌, inl,
  inr, Text, Error, Outcome, ok, err, stuck,
}
use browsercore_http.Common.Int.{pos}
use browsercore_http.Frame.Types.{Frame}
use browsercore_http.Stream.Types.{default_initial_window_size}
use browsercore_http.Stream.Settle.{send_frame}
use browsercore_http.Stream.Manager.{open_stream, expect_response, send_data}
use browsercore_http.Stream.Drain.Flow.{data_payload}
use browsercore_http.Stream.Credit.{Balanced, octets_sent, same_credit}
use browsercore_http.Stream.Credit.Runs.{regroup}
use browsercore_http.Connection.Request.{Http2Options, Http2Request, request_frame}
use browsercore_http.Connection.State.{
  Connection, RequestCall, release_slot, refuse, closing_error, add_id, delete_id, send_goaway,
  handle_fatal, close,
}
use browsercore_http.Connection.Calls.{
  request, resume, send_framed, send_request, begin_call, begin_request, ping, goaway,
  wait_for_settings_ack, time_out, on_error, has_no_body, body_of,
}
use browsercore_http.Connection.Hearing.{List-cases}
use browsercore_http.Connection.Preface.{connect_http2}
use browsercore_http.Connection.Runs.{
  Action, requested, resumed, begun, closed_down, pinged, went_away, awaited, timed_out, frame_read,
  read_failed, act, run,
}
use browsercore_http.Connection.Runs.Steps.{if-cases}
use browsercore_http.Connection.Runs.Opening.{release_slot-cases}
use browsercore_http.Connection.Runs.Credit.{
  send_frame-Balanced, open_stream-Balanced, expect_response-Balanced, send_data-kept,
  close-Balanced, handle_fatal-Balanced, on_frame-Balanced, headers_only,
}
use browsercore_http.Connection.Runs.Spending.{
  action_credit, run_credit, IsCredited, IsCredited-eq, request-IsCredited, resume-IsCredited,
  ping-IsCredited, time_out-IsCredited, connect_http2-IsCredited,
}

module _ (to_number : Text → Option ℕ) where
  on_error-IsCredited :
      (credit : ℕ) (error : Error) (c : Connection)
      → IsCredited credit c
      → IsCredited credit (on_error error c)
  unfolding on_error
  on_error-IsCredited credit error c b = elim (if-cases c.closed c (handle_fatal error c)) [
    | inl (shut, e) ↦ IsCredited-eq credit c _ e b
    | inr (live, e) ↦
        IsCredited-eq credit (handle_fatal error c) _ e
          (handle_fatal-Balanced to_number credit error c b)
  ]

  send_framed-IsCredited :
      (credit : ℕ) (framed : Outcome Frame) (id : ℕ) (call : RequestCall) (c : Connection)
      → ((frame : Frame) → framed ≡ ok frame → data_payload frame ≡ [])
      → IsCredited credit c
      → IsCredited credit (send_framed framed id call c)
  unfolding send_framed refuse
  send_framed-IsCredited credit (ok frame) id call c empty b =
      let sent = send_frame frame c.manager in
      let headed = send_frame-Balanced credit frame c.manager (empty frame refl) b in
      elim (if-cases (has_no_body call.req) sent (send_data id (body_of call.req) true sent)) [
        | inl (bodiless, e) ↦ subst (Balanced credit) (sym e) headed
        | inr (bodied, e) ↦
            subst (Balanced credit) (sym e)
              (send_data-kept to_number credit id (body_of call.req) sent headed)
      ]
  send_framed-IsCredited credit (err error) id call c empty b = b
  send_framed-IsCredited credit stuck id call c empty b = b

  module _ (to_lower_case : Text → Text) (options : Http2Options) where
    request_frame-headers :
        (id : ℕ) (req : Http2Request) (end_stream : Bool) (frame : Frame)
        → request_frame to_lower_case options id req end_stream ≡ ok frame
        → data_payload frame ≡ []
    unfolding request_frame
    request_frame-headers id req end_stream frame h = headers_only _ _ frame h

    begin_call-IsCredited :
        (credit : ℕ) (call : RequestCall) (c : Connection)
        → IsCredited credit c
        → IsCredited credit (begin_call to_lower_case options call c)
    unfolding begin_call refuse send_request
    begin_call-IsCredited credit call c b =
        let (id, opened) = open_stream c.manager in
        let active = add_id id c.active_client_streams in
        let begun_ : Connection = record c { manager = opened; active_client_streams = active } in
        let bailed : Connection = record begun_ { active_client_streams = delete_id id active } in
        let started : Balanced credit opened = open_stream-Balanced to_number credit c.manager b in
        let expected : Connection = record begun_ {
          manager = expect_response id call.resolver opened;
        } in
        let end_stream = has_no_body call.req in
        let framed = request_frame to_lower_case options id call.req end_stream in
        let sent = send_framed framed id call expected in
        let refused = refuse call.resolver (closing_error c) (release_slot bailed) in
        elim (if-cases (c.closing || c.closed) refused sent) [
          | inl (shut, e) ↦ IsCredited-eq credit refused _ e (elim (release_slot-cases bailed) [
            | inl (none_, same) ↦ IsCredited-eq credit bailed _ same started
            | inr (w, ws, some_, woken) ↦
                IsCredited-eq credit
                  (record bailed { slot_waiters = ws; woken = c.woken ++ (w ∷ []) }) _ woken started
          ])
          | inr (live, e) ↦ IsCredited-eq credit sent _ e (
              send_framed-IsCredited credit framed id call expected
                (request_frame-headers id call.req end_stream)
                (expect_response-Balanced to_number credit id call.resolver opened started))
        ]

    begin_request-IsCredited :
        (credit : ℕ) (c : Connection)
        → IsCredited credit c
        → IsCredited credit (begin_request to_lower_case options c)
    unfolding begin_request
    begin_request-IsCredited credit c b =
        let next : List RequestCall → Connection = (λ l. elim l as (λ x. Connection) [
          | [] ↦ c
          | w ∷ ws ↦ begin_call to_lower_case options w (record c { granted = ws })
        ]) in
        elim (List-cases c.granted) [
          | inl none_ ↦ IsCredited-eq credit c (next c.granted) (ap next none_) b
          | inr (w, ws, some_) ↦
              IsCredited-eq credit (next (w ∷ ws)) (next c.granted) (ap next some_)
                (begin_call-IsCredited credit w (record c { granted = ws }) b)
        ]

    act-IsCredited :
        (credit : ℕ) (a : Action) (c : Connection)
        → IsCredited credit c
        → IsCredited (credit + action_credit a) (act to_number to_lower_case options a c)
    unfolding act goaway send_goaway wait_for_settings_ack
    act-IsCredited credit (requested call) c b =
        same_credit credit (request call c).manager (request-IsCredited credit call c b)
    act-IsCredited credit resumed c b =
        same_credit credit (resume c).manager (resume-IsCredited credit c b)
    act-IsCredited credit begun c b =
        same_credit credit (begin_request to_lower_case options c).manager
          (begin_request-IsCredited credit c b)
    act-IsCredited credit closed_down c b =
        same_credit credit (close c).manager (close-Balanced to_number credit c b)
    act-IsCredited credit (pinged promise opaque_data) c b =
        same_credit credit (ping promise opaque_data c).manager
          (ping-IsCredited credit promise opaque_data c b)
    act-IsCredited credit (went_away last_stream_id error_code debug_data) c b =
        same_credit credit (goaway last_stream_id error_code debug_data c).manager
          (send_frame-Balanced credit _ c.manager refl b)
    act-IsCredited credit (awaited promise timeout_ms) c b = same_credit credit c.manager b
    act-IsCredited credit (timed_out promise) c b =
        same_credit credit (time_out promise c).manager (time_out-IsCredited credit promise c b)
    act-IsCredited credit (frame_read f) c b = on_frame-Balanced to_number credit f c b
    act-IsCredited credit (read_failed error) c b =
        same_credit credit (on_error error c).manager (on_error-IsCredited credit error c b)

    run-IsCredited :
        (credit : ℕ) (actions : List Action) (c : Connection)
        → IsCredited credit c
        → IsCredited (credit + run_credit actions) (run to_number to_lower_case options actions c)
    unfolding run
    run-IsCredited credit [] c b = same_credit credit c.manager b
    run-IsCredited credit (a ∷ actions) c b =
        regroup credit (action_credit a) (run_credit actions)
          (run to_number to_lower_case options actions
            (act to_number to_lower_case options a c)).manager
          (run-IsCredited (credit + action_credit a) actions
            (act to_number to_lower_case options a c) (act-IsCredited credit a c b))

    -- From `connectHttp2` on, whatever the user calls, the peer sends and the event loop orders: all
    -- DATA frames of the connection together carry no more octets than the initial window and the
    -- increments of the peer's WINDOW_UPDATEs for the connection, and its send window is what is
    -- left of that.
    pub run-sent :
        (promise : ℕ) (actions : List Action)
        → let d = run to_number to_lower_case options actions (connect_http2 promise options) in
          (octets_sent d.manager.sent ≤ default_initial_window_size + run_credit actions)
          × (d.manager.connection_send_window
              ≡ pos (default_initial_window_size + run_credit actions - octets_sent d.manager.sent))
    run-sent promise actions =
        run-IsCredited default_initial_window_size actions (connect_http2 promise options)
          (connect_http2-IsCredited promise options)
