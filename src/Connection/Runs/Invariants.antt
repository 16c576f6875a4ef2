-- ===== src/Connection/Runs/Invariants.antt =====
-- src/connection.ts: what every run of a connection keeps.
use browsercore_http.Common.{
  ℕ, ◌≡◌, refl, sym, ap, ◌∙◌, subst, true, false, Option, none, some, List, [], ◌∷◌, ◌++◌, inl, inr,
  Option-cases, Text, Error, connection_closed_error,
}
use browsercore_http.Common.Table
use browsercore_http.Frame.Types.{Frame, ping_frame}
use browsercore_http.Stream.Settle.{send_frame}
use browsercore_http.Stream.Manager.{dispatch}
use browsercore_http.Stream.Receive.{Step}
use browsercore_http.Connection.Request.{Http2Options}
use browsercore_http.Connection.State.{
  Connection, settle, delete_id, hear_manager, handle_fatal, send_goaway,
}
use browsercore_http.Connection.Calls.{
  ping, goaway, wait_for_settings_ack, time_out, on_error, on_frame,
}
use browsercore_http.Connection.Aside.{settle-Aside}
use browsercore_http.Connection.Hearing.{hear_manager-Hears}
use browsercore_http.Connection.State.{new_connection, settings_ack_timeout, failed}
use browsercore_http.Connection.Calls.{on_error, on_frame}
use browsercore_http.Connection.Runs.{
  Action, requested, resumed, begun, closed_down, pinged, went_away, awaited, timed_out, frame_read,
  read_failed, act, run,
}
use browsercore_http.Connection.Runs.Advances.{
  IsQuiet, Advances, Advances-heard, same_state, close-Advances, handle_fatal-Advances, heard,
  beside, settle-Advances,
}
use browsercore_http.Connection.Runs.Steps.{if-cases, request-Advances, resume-Advances}
use browsercore_http.Connection.Runs.Opening.{begin_request-Advances}

ping-Advances : (promise opaque_data : ℕ) (c : Connection) → Advances c (ping promise opaque_data c)
unfolding ping
ping-Advances promise opaque_data c =
    let sent : Connection = record c {
      ping_listeners = c.ping_listeners ++ ((promise, opaque_data) ∷ []);
      manager =
          send_frame
            (ping_frame
              (record { flags = 0; stream_id = 0; ack = false; opaque_data = opaque_data }))
            c.manager;
    } in
    elim (if-cases c.closed (settle promise (failed connection_closed_error) c) sent) [
      | inl (shut, e) ↦
          subst (λ (d : Connection). Advances c d) (sym e)
            (settle-Advances promise (failed connection_closed_error) c)
      | inr (live, e) ↦
          subst (λ (d : Connection). Advances c d) (sym e) (beside c sent refl (λ h. h) refl refl)
    ]

goaway-Advances :
    (last_stream_id error_code : ℕ) (debug_data : List ℕ) (c : Connection)
    → Advances c (goaway last_stream_id error_code debug_data c)
unfolding goaway send_goaway
goaway-Advances last_stream_id error_code debug_data c =
    beside c (goaway last_stream_id error_code debug_data c) refl (λ h. refl) refl refl

wait_for_settings_ack-Advances :
    (promise timeout_ms : ℕ) (c : Connection)
    → Advances c (wait_for_settings_ack promise timeout_ms c)
unfolding wait_for_settings_ack
wait_for_settings_ack-Advances promise timeout_ms c =
    beside c (wait_for_settings_ack promise timeout_ms c) refl (λ h. h) refl refl

time_out-Advances : (promise : ℕ) (c : Connection) → Advances c (time_out promise c)
unfolding time_out
time_out-Advances promise c =
    let disarmed : Connection = record c {
      settings_ack_reject = none;
      timers = Table.delete promise c.timers;
      settings_ack_listeners = delete_id promise c.settings_ack_listeners;
    } in
    let next : Option ℕ → Connection = (λ o. elim o as (λ x. Connection) [
      | none ↦ c
      | some timeout_ms ↦ settle promise (settings_ack_timeout timeout_ms) disarmed
    ]) in
    elim (Option-cases (Table.find promise c.timers)) [
      | inl none_ ↦ same_state c (next (Table.find promise c.timers)) (ap next none_)
      | inr (timeout_ms, armed) ↦
          let a = settle-Aside promise (settings_ack_timeout timeout_ms) disarmed in
          subst (λ (d : Connection). Advances c d) (sym (ap next armed))
            (beside c (settle promise (settings_ack_timeout timeout_ms) disarmed) a.closed
              (λ h. a.closing ∙ h) a.active a.waiters)
    ]

on_error-Advances : (error : Error) (c : Connection) → Advances c (on_error error c)
unfolding on_error
on_error-Advances error c = elim (if-cases c.closed c (handle_fatal error c)) [
  | inl (shut, e) ↦ same_state c _ e
  | inr (live, e) ↦ subst (λ (d : Connection). Advances c d) (sym e) (handle_fatal-Advances error c)
]

module _ (to_number : Text → Option ℕ) where
  on_frame-Advances : (f : Frame) (c : Connection) → Advances c (on_frame to_number f c)
  unfolding on_frame
  on_frame-Advances f c =
      let step : Step = dispatch to_number f c.manager in
      let after : Connection = hear_manager step.manager c in
      let h = hear_manager-Hears step.manager c in
      let next : Option Error → Connection = (λ o. elim o as (λ x. Connection) [
        | none ↦ after
        | some error ↦ handle_fatal error after
      ]) in
      elim (Option-cases step.thrown) [
        | inl none_ ↦
            subst (λ (d : Connection). Advances c d) (sym (ap next none_))
              (heard step.manager c after h)
        | inr (error, thrown) ↦
            let a = handle_fatal-Advances error after in
            subst (λ (d : Connection). Advances c d) (sym (ap next thrown))
              (Advances-heard step.manager c after (handle_fatal error after) h a)
      ]

module _ (to_number : Text → Option ℕ) (to_lower_case : Text → Text) (options : Http2Options) where
  act-Advances :
      (a : Action) (c : Connection) → Advances c (act to_number to_lower_case options a c)
  unfolding act
  act-Advances (requested call) c = request-Advances call c
  act-Advances resumed c = resume-Advances c
  act-Advances begun c = begin_request-Advances to_lower_case options c
  act-Advances closed_down c = close-Advances c
  act-Advances (pinged promise opaque_data) c = ping-Advances promise opaque_data c
  act-Advances (went_away last_stream_id error_code debug_data) c =
      goaway-Advances last_stream_id error_code debug_data c
  act-Advances (awaited promise timeout_ms) c = wait_for_settings_ack-Advances promise timeout_ms c
  act-Advances (timed_out promise) c = time_out-Advances promise c
  act-Advances (frame_read f) c = on_frame-Advances to_number f c
  act-Advances (read_failed error) c = on_error-Advances error c

  -- What every step keeps, every run keeps.
  run-kept :
      (P : Connection → Type 0)
      → ((a : Action) (c : Connection) → P c → P (act to_number to_lower_case options a c))
      → (actions : List Action) (c : Connection) → P c
      → P (run to_number to_lower_case options actions c)
  unfolding run
  run-kept P step [] c h = h
  run-kept P step (a ∷ actions) c h =
      run-kept P step actions (act to_number to_lower_case options a c) (step a c h)

  -- In every run of a new connection, whatever the user calls, the peer sends and the event loop
  -- orders: once it is closed it is closing, no stream holds a slot, that is, none is in
  -- `activeClientStreams`, and no request waits for a slot. It is not about the streams in the
  -- manager's map.
  pub run-closed :
      (actions : List Action)
      → (run to_number to_lower_case options actions new_connection).closed ≡ true
      → let d = run to_number to_lower_case options actions new_connection in
        (d.closing ≡ true) × (d.active_client_streams ≡ []) × (d.slot_waiters ≡ [])
  unfolding new_connection
  run-closed actions shut =
      run-kept IsQuiet (λ a c h. (act-Advances a c).quiet h) actions new_connection (λ h. cc) shut
