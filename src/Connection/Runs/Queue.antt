-- ===== src/Connection/Runs/Queue.antt =====
-- src/connection.ts: the requests that wait, over frames, errors and the end of the connection.
use browsercore_http.Common.{
  ℕ, ◌≡◌, refl, sym, ap, ap₂, ◌∙◌, subst, Option, none, some, List, ◌++◌, append-nil, inl, inr,
  Option-cases, Bool-cases, Text, Error, connection_closed_error,
}
use browsercore_http.Frame.Types.{Frame}
use browsercore_http.Stream.Receive.{Step}
use browsercore_http.Stream.Manager.{dispatch}
use browsercore_http.Connection.State.{Connection, RequestCall, hear_manager, handle_fatal, close}
use browsercore_http.Connection.Calls.{on_error, on_frame}
use browsercore_http.Connection.Aside.{queue}
use browsercore_http.Connection.Hearing.{hear_manager-Hears}
use browsercore_http.Connection.Down.{
  IsTornDown, close_lem, handle_fatal-IsTornDown, closed_already,
}
use browsercore_http.Connection.Runs.Steps.{if-cases}

-- The same requests in the same order, and the same that have a slot.
record Lines (c d : Connection) : Type 0 where
  queued : queue d ≡ queue c
  granted : d.granted ≡ c.granted

Lines-refl : (c : Connection) → Lines c c
Lines-refl c = record { queued = refl; granted = refl }

IsTornDown-Lines : (error : Error) (c d : Connection) → IsTornDown error c d → Lines c d
IsTornDown-Lines error c d t = record {
  queued = ap₂ (λ (xs ys : List RequestCall). xs ++ ys) t.woken t.unwaited ∙ append-nil (queue c);
  granted = t.granted;
}

handle_fatal-Lines : (error : Error) (c : Connection) → Lines c (handle_fatal error c)
handle_fatal-Lines error c = elim (Bool-cases c.closed) [
  | inl shut ↦
      subst (λ (d : Connection). Lines c d) (sym (closed_already error c shut).1) (Lines-refl c)
  | inr live ↦ IsTornDown-Lines error c _ (handle_fatal-IsTornDown error c live)
]

close-Lines : (c : Connection) → Lines c (close c)
close-Lines c = elim (Bool-cases c.closed) [
  | inl shut ↦
      subst (λ (d : Connection). Lines c d) (sym (closed_already connection_closed_error c shut).0)
        (Lines-refl c)
  | inr live ↦ IsTornDown-Lines connection_closed_error c (close c) (close_lem c live).0
]

on_error-Lines : (error : Error) (c : Connection) → Lines c (on_error error c)
unfolding on_error
on_error-Lines error c = elim (if-cases c.closed c (handle_fatal error c)) [
  | inl (shut, e) ↦ subst (λ (d : Connection). Lines c d) (sym e) (Lines-refl c)
  | inr (live, e) ↦ subst (λ (d : Connection). Lines c d) (sym e) (handle_fatal-Lines error c)
]

on_frame-Lines :
    (to_number : Text → Option ℕ) (f : Frame) (c : Connection) → Lines c (on_frame to_number f c)
unfolding on_frame
on_frame-Lines to_number f c =
    let step : Step = dispatch to_number f c.manager in
    let after : Connection = hear_manager step.manager c in
    let h = hear_manager-Hears step.manager c in
    let next : Option Error → Connection =
      (λ o. elim o as (λ x. Connection) [ none ↦ after | some error ↦ handle_fatal error after ]) in
    elim (Option-cases step.thrown) [
      | inl none_ ↦
          subst (λ (d : Connection). Lines c d) (sym (ap next none_))
            (record { queued = h.queued; granted = h.granted })
      | inr (error, thrown) ↦
          let fatal = handle_fatal-Lines error after in
          subst (λ (d : Connection). Lines c d) (sym (ap next thrown))
            (record { queued = fatal.queued ∙ h.queued; granted = fatal.granted ∙ h.granted })
    ]

-- No frame of the peer, no error of the transport and no `close` loses, doubles or reorders a
-- request: those that were woken and those that still wait for a slot stay in the order in which
-- they came, the woken ones in front, and those that have a slot keep their turn.
pub waiting_order :
    (to_number : Text → Option ℕ) (f : Frame) (error : Error) (c : Connection)
    → ((queue (on_frame to_number f c) ≡ queue c) × ((on_frame to_number f c).granted ≡ c.granted))
      × ((queue (on_error error c) ≡ queue c) × ((on_error error c).granted ≡ c.granted))
      × (queue (close c) ≡ queue c)
      × ((close c).granted ≡ c.granted)
waiting_order to_number f error c =
    let frame = on_frame-Lines to_number f c in
    let failure = on_error-Lines error c in
    let shut = close-Lines c in
    ((frame.queued, frame.granted), (failure.queued, failure.granted), shut.queued, shut.granted)
