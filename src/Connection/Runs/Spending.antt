-- ===== src/Connection/Runs/Spending.antt =====
-- src/connection.ts: the steps of a connection that send no DATA, and the preface.
use browsercore_http.Common.{
  ℕ, ◌+◌, ◌≡◌, refl, sym, ap, subst, arith, false, ◌||◌, Option, none, some, List, [], ◌∷◌, ◌++◌,
  All, All-append, inl, inr, Option-cases, connection_closed_error,
}
use browsercore_http.Common.Table
use browsercore_http.Frame.Types.{Frame, ping_frame}
use browsercore_http.Stream.Types.{create_stream_manager, default_initial_window_size}
use browsercore_http.Stream.Settle.{send_frame}
use browsercore_http.Stream.Drain.Flow.{data_payload}
use browsercore_http.Stream.Credit.{Balanced}
use browsercore_http.Stream.Credit.Runs.{frame_credit}
use browsercore_http.Connection.Request.{Http2Options, PriorityFrameSpec}
use browsercore_http.Connection.State.{
  Connection, RequestCall, new_connection, refuse, closing_error, delete_id, settle, failed,
  settings_ack_timeout,
}
use browsercore_http.Connection.Calls.{
  acquire_slot, request, resume, ping, wait_for_settings_ack, time_out,
}
use browsercore_http.Connection.Aside.{settle-Aside}
use browsercore_http.Connection.Hearing.{List-cases}
use browsercore_http.Connection.Preface.{
  preface_settings, preface_window_update, frames_of_specs, preface_priorities, preface_frames,
  send_each, connect_http2,
}
use browsercore_http.Connection.Runs.{
  Action, requested, resumed, begun, closed_down, pinged, went_away, awaited, timed_out, frame_read,
  read_failed,
}
use browsercore_http.Connection.Runs.Steps.{if-cases, acquire_slot-cases}
use browsercore_http.Connection.Runs.Credit.{send_frame-Balanced}

-- What a frame from the peer adds to the credit; nothing else does.
abbrev pub action_credit : Action → ℕ
action_credit (frame_read f) = frame_credit f
action_credit (requested call) = 0
action_credit resumed = 0
action_credit begun = 0
action_credit closed_down = 0
action_credit (pinged promise opaque_data) = 0
action_credit (went_away last_stream_id error_code debug_data) = 0
action_credit (awaited promise timeout_ms) = 0
action_credit (timed_out promise) = 0
action_credit (read_failed error) = 0

abbrev pub run_credit : List Action → ℕ
run_credit [] = 0
run_credit (a ∷ actions) = action_credit a + run_credit actions

abbrev pub IsCredited : ℕ → Connection → Type 0
IsCredited credit c = Balanced credit c.manager

pub IsCredited-eq :
    (credit : ℕ) (c d : Connection) → d ≡ c → IsCredited credit c → IsCredited credit d
IsCredited-eq credit c d e b = subst (IsCredited credit) (sym e) b

acquire_slot-IsCredited :
    (credit : ℕ) (call : RequestCall) (c : Connection)
    → IsCredited credit c
    → IsCredited credit (acquire_slot call c)
acquire_slot-IsCredited credit call c b = elim (acquire_slot-cases call c) [
  | inl (live, full, e) ↦
      IsCredited-eq credit (record c { slot_waiters = c.slot_waiters ++ (call ∷ []) }) _ e b
  | inr e ↦ IsCredited-eq credit (record c { granted = c.granted ++ (call ∷ []) }) _ e b
]

pub request-IsCredited :
    (credit : ℕ) (call : RequestCall) (c : Connection)
    → IsCredited credit c
    → IsCredited credit (request call c)
unfolding request refuse
request-IsCredited credit call c b =
    let refused = refuse call.resolver (closing_error c) c in
    elim (if-cases (c.closing || c.closed) refused (acquire_slot call c)) [
      | inl (shut, e) ↦ IsCredited-eq credit refused _ e b
      | inr (live, e) ↦
          IsCredited-eq credit (acquire_slot call c) _ e (acquire_slot-IsCredited credit call c b)
    ]

pub resume-IsCredited :
    (credit : ℕ) (c : Connection) → IsCredited credit c → IsCredited credit (resume c)
unfolding resume
resume-IsCredited credit c b =
    let next : List RequestCall → Connection = (λ l. elim l as (λ x. Connection) [
      | [] ↦ c
      | w ∷ ws ↦ acquire_slot w (record c { woken = ws })
    ]) in
    elim (List-cases c.woken) [
      | inl none_ ↦ IsCredited-eq credit c (next c.woken) (ap next none_) b
      | inr (w, ws, some_) ↦
          IsCredited-eq credit (next (w ∷ ws)) (next c.woken) (ap next some_)
            (acquire_slot-IsCredited credit w (record c { woken = ws }) b)
    ]

pub ping-IsCredited :
    (credit promise opaque_data : ℕ) (c : Connection)
    → IsCredited credit c
    → IsCredited credit (ping promise opaque_data c)
unfolding ping
ping-IsCredited credit promise opaque_data c b =
    let refused = settle promise (failed connection_closed_error) c in
    let frame =
      ping_frame (record { flags = 0; stream_id = 0; ack = false; opaque_data = opaque_data }) in
    let sent : Connection = record c {
      ping_listeners = c.ping_listeners ++ ((promise, opaque_data) ∷ []);
      manager = send_frame frame c.manager;
    } in
    elim (if-cases c.closed refused sent) [
      | inl (shut, e) ↦ IsCredited-eq credit refused _ e (
          subst (Balanced credit)
            (sym (settle-Aside promise (failed connection_closed_error) c).manager) b)
      | inr (live, e) ↦
          IsCredited-eq credit sent _ e (send_frame-Balanced credit frame c.manager refl b)
    ]

pub time_out-IsCredited :
    (credit promise : ℕ) (c : Connection)
    → IsCredited credit c
    → IsCredited credit (time_out promise c)
unfolding time_out
time_out-IsCredited credit promise c b =
    let disarmed : Connection = record c {
      settings_ack_reject = none;
      timers = Table.delete promise c.timers;
      settings_ack_listeners = delete_id promise c.settings_ack_listeners;
    } in
    let next : Option ℕ → Connection = (λ o. elim o as (λ x. Connection) [
      | none ↦ c
      | some timeout_ms ↦ settle promise (settings_ack_timeout timeout_ms) disarmed
    ]) in
    elim (Option-cases (Table.find promise c.timers)) [
      | inl none_ ↦ IsCredited-eq credit c (next (Table.find promise c.timers)) (ap next none_) b
      | inr (timeout_ms, armed) ↦
          IsCredited-eq credit (next (some timeout_ms)) (next (Table.find promise c.timers))
            (ap next armed)
            (subst (Balanced credit)
              (sym (settle-Aside promise (settings_ack_timeout timeout_ms) disarmed).manager) b)
    ]

-- Nothing in the preface is DATA.
frames_of_specs-payload :
    (specs : List PriorityFrameSpec) → All (λ f. data_payload f ≡ []) (frames_of_specs specs)
unfolding frames_of_specs
frames_of_specs-payload [] = tt
frames_of_specs-payload (spec ∷ specs) = (refl, frames_of_specs-payload specs)

preface_frames-payload :
    (options : Http2Options) → All (λ f. data_payload f ≡ []) (preface_frames options)
unfolding preface_frames preface_settings preface_window_update preface_priorities
preface_frames-payload options = (
  refl,
  All-append (λ f. data_payload f ≡ []) (preface_window_update options) (preface_priorities options)
      (elim (Option-cases options.connection_window_update) [
        | inl none_ ↦ rw none_ tt
        | inr (increment, given) ↦ rw given (refl, tt)
      ])
      (elim (Option-cases options.priority_frames) [
        | inl none_ ↦ rw none_ tt
        | inr (specs, given) ↦ rw given (frames_of_specs-payload specs)
      ]),
)

send_each-IsCredited :
    (credit : ℕ) (fs : List Frame) (c : Connection)
    → All (λ f. data_payload f ≡ []) fs
    → IsCredited credit c
    → IsCredited credit (send_each fs c)
unfolding send_each
send_each-IsCredited credit [] c h b = b
send_each-IsCredited credit (f ∷ fs) c (empty, h) b =
    send_each-IsCredited credit fs (record c { manager = send_frame f c.manager }) h
      (send_frame-Balanced credit f c.manager empty b)

pub connect_http2-IsCredited :
    (promise : ℕ) (options : Http2Options)
    → IsCredited default_initial_window_size (connect_http2 promise options)
unfolding connect_http2 wait_for_settings_ack new_connection create_stream_manager
connect_http2-IsCredited promise options =
    send_each-IsCredited default_initial_window_size (preface_frames options) new_connection
      (preface_frames-payload options) (omega arith, refl)
