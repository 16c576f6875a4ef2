-- ===== src/Connection/Runs/Credit.antt =====
-- src/connection.ts: the octets of all DATA that a connection sends against the credit of its peer.
use browsercore_http.Common.{
  ℕ, ◌+◌, ◌≡◌, refl, sym, ap, ◌∙◌, subst, arith, true, Option, none, some, List, [], inl, inr,
  Option-cases, Bool-cases, Text, Error, Outcome, ok, err, stuck, ◌>>=◌, connection_closed_error,
}
use browsercore_http.Common.Int.{pos}
use browsercore_http.Frame.Types.{Frame, HeadersFrame, headers_frame}
use browsercore_http.Stream.Types.{Manager}
use browsercore_http.Stream.Settle.{send_frame}
use browsercore_http.Stream.Receive.{Step}
use browsercore_http.Stream.Manager.{dispatch, open_stream, expect_response, send_data, abort_all}
use browsercore_http.Stream.Drain.Flow.{data_payload}
use browsercore_http.Stream.Credit.{Balanced}
use browsercore_http.Stream.Credit.Handlers.{send_frame-Keeps}
use browsercore_http.Stream.Credit.Runs.{
  stream_opened, data_sent, awaited, aborted, call, kept, call-Balanced, frame_credit,
  dispatch-Balanced,
}
use browsercore_http.Connection.State.{
  Connection, tear_down, reject_settings_ack, handle_fatal, send_goaway, close, hear_manager,
}
use browsercore_http.Connection.Calls.{on_frame}
use browsercore_http.Connection.Hearing.{hear_manager-Hears}
use browsercore_http.Connection.Down.{
  close_live, handle_fatal_live, closed_already, reject_settings_ack-Alike,
}

no_more : (credit : ℕ) (m : Manager) → Balanced (credit + 0) m → Balanced credit m
no_more credit m b = (omega (arith, b.0), b.1 ∙ ap pos (omega arith))

-- A frame without DATA leaves the balance.
pub send_frame-Balanced :
    (credit : ℕ) (f : Frame) (m : Manager)
    → data_payload f ≡ []
    → Balanced credit m
    → Balanced credit (send_frame f m)
send_frame-Balanced credit f m empty b =
    kept credit m (send_frame f m) (send_frame-Keeps f m empty) b

module _ (to_number : Text → Option ℕ) where
  abort_all-Balanced :
      (credit : ℕ) (error : Error) (m : Manager)
      → Balanced credit m
      → Balanced credit (abort_all error m)
  unfolding call
  abort_all-Balanced credit error m b =
      no_more credit (abort_all error m) (call-Balanced to_number credit (aborted error) m b)

  pub open_stream-Balanced :
      (credit : ℕ) (m : Manager) → Balanced credit m → Balanced credit (open_stream m).1
  unfolding call
  open_stream-Balanced credit m b =
      no_more credit (open_stream m).1 (call-Balanced to_number credit stream_opened m b)

  pub expect_response-Balanced :
      (credit id resolver : ℕ) (m : Manager)
      → Balanced credit m
      → Balanced credit (expect_response id resolver m)
  unfolding call
  expect_response-Balanced credit id resolver m b =
      no_more credit (expect_response id resolver m)
        (call-Balanced to_number credit (awaited id resolver) m b)

  pub send_data-kept :
      (credit id : ℕ) (bytes : List ℕ) (m : Manager)
      → Balanced credit m
      → Balanced credit (send_data id bytes true m)
  unfolding call
  send_data-kept credit id bytes m b =
      no_more credit (send_data id bytes true m)
        (call-Balanced to_number credit (data_sent id bytes true) m b)

  tear_down-Balanced :
      (credit : ℕ) (error : Error) (c : Connection)
      → Balanced credit c.manager
      → Balanced credit (tear_down error c).manager
  unfolding tear_down
  tear_down-Balanced credit error c b =
      let h = hear_manager-Hears (abort_all error c.manager) c in
      subst (Balanced credit) (sym h.manager) (abort_all-Balanced credit error c.manager b)

  pub handle_fatal-Balanced :
      (credit : ℕ) (error : Error) (c : Connection)
      → Balanced credit c.manager
      → Balanced credit (handle_fatal error c).manager
  handle_fatal-Balanced credit error c b = elim (Bool-cases c.closed) [
    | inl shut ↦
        subst (λ (d : Connection). Balanced credit d.manager) (sym (closed_already error c shut).1)
          b
    | inr live ↦
        let started : Connection = record c { closing = true } in
        let a = reject_settings_ack-Alike error started in
        subst (λ (d : Connection). Balanced credit d.manager) (sym (handle_fatal_live error c live))
          (tear_down-Balanced credit error (reject_settings_ack error started)
            (subst (Balanced credit) (sym a.manager) b))
  ]

  pub close-Balanced :
      (credit : ℕ) (c : Connection) → Balanced credit c.manager → Balanced credit (close c).manager
  unfolding send_goaway
  close-Balanced credit c b = elim (Bool-cases c.closed) [
    | inl shut ↦
        subst (λ (d : Connection). Balanced credit d.manager)
          (sym (closed_already connection_closed_error c shut).0) b
    | inr live ↦
        subst (λ (d : Connection). Balanced credit d.manager) (sym (close_live c live))
          (tear_down-Balanced credit connection_closed_error
            (send_goaway 0 0 [] (record c { closing = true }))
            (send_frame-Balanced credit _ c.manager refl b))
  ]

  pub on_frame-Balanced :
      (credit : ℕ) (f : Frame) (c : Connection)
      → Balanced credit c.manager
      → Balanced (credit + frame_credit f) (on_frame to_number f c).manager
  unfolding on_frame
  on_frame-Balanced credit f c b =
      let step : Step = dispatch to_number f c.manager in
      let after : Connection = hear_manager step.manager c in
      let next : Option Error → Connection = (λ o. elim o as (λ x. Connection) [
        | none ↦ after
        | some error ↦ handle_fatal error after
      ]) in
      let heard : Balanced (credit + frame_credit f) after.manager =
        subst (Balanced (credit + frame_credit f)) (sym (hear_manager-Hears step.manager c).manager)
          (dispatch-Balanced to_number credit f c.manager b) in
      elim (Option-cases step.thrown) [
        | inl none_ ↦
            subst (λ (d : Connection). Balanced (credit + frame_credit f) d.manager)
              (sym (ap next none_)) heard
        | inr (error, thrown) ↦
            subst (λ (d : Connection). Balanced (credit + frame_credit f) d.manager)
              (sym (ap next thrown))
              (handle_fatal-Balanced (credit + frame_credit f) error after heard)
      ]

pub headers_only :
    (encoded : Outcome (List ℕ)) (make : List ℕ → HeadersFrame) (frame : Frame)
    → (encoded >>= λ octets. ok (headers_frame (make octets))) ≡ ok frame
    → data_payload frame ≡ []
headers_only (ok octets) make frame h =
    let e : headers_frame (make octets) ≡ frame = cc in
    subst (λ (x : Frame). data_payload x ≡ []) e refl
headers_only (err e) make frame h = cc
headers_only stuck make frame h = cc
