-- ===== src/Connection/Runs/Opening.antt =====
-- src/connection.ts: what opening a stream for a request keeps.
use browsercore_http.Common.{
  refl, Outcome, ok, err, stuck, ℕ, ◌≡◌, sym, ap, ◌∙◌, subst, arith, ◌||◌, List, [], ◌∷◌, ◌++◌, ◌⊎◌,
  inl, inr, Text,
}
use browsercore_http.Frame.Types.{Frame}
use browsercore_http.Stream.Manager.{open_stream, expect_response}
use browsercore_http.Connection.Request.{Http2Options, request_frame}
use browsercore_http.Connection.State.{
  Connection, RequestCall, refuse, release_slot, closing_error, has_id, add_id, delete_id,
}
use browsercore_http.Connection.Calls.{
  send_framed, send_request, begin_call, has_no_body, begin_request,
}
use browsercore_http.Connection.Hearing.{List-cases}
use browsercore_http.Connection.Runs.Advances.{Advances, same_state}
use browsercore_http.Connection.Runs.Steps.{if-cases, either_false}

pub release_slot-cases :
    (c : Connection)
    → ((c.slot_waiters ≡ []) × (release_slot c ≡ c))
      ⊎ ((w : RequestCall) × (ws : List RequestCall) × (c.slot_waiters ≡ w ∷ ws)
          × (release_slot c ≡ record c { slot_waiters = ws; woken = c.woken ++ (w ∷ []) }))
unfolding release_slot
release_slot-cases c =
    let next : List RequestCall → Connection = (λ l. elim l as (λ x. Connection) [
      | [] ↦ c
      | w ∷ ws ↦ record c { slot_waiters = ws; woken = c.woken ++ (w ∷ []) }
    ]) in
    elim (List-cases c.slot_waiters) [
      | inl none_ ↦ inl (none_, ap next none_)
      | inr (w, ws, some_) ↦ inr (w, ws, some_, ap next some_)
    ]

release_slot-Advances : (c : Connection) → Advances c (release_slot c)
release_slot-Advances c = elim (release_slot-cases c) [
  | inl (none_, e) ↦
      subst (λ (d : Connection). Advances c d) (sym e)
        (record { stays_closed = λ h. h; stays_closing = λ h. h; quiet = λ q. q })
  | inr (w, ws, some_, e) ↦
      subst (λ (d : Connection). Advances c d) (sym e)
        (record {
          stays_closed = λ h. h;
          stays_closing = λ h. h;
          quiet = λ q h. absurd (let (closing, inactive, unwaited) = q h in cc);
        })
]

delete_id-last : (id : ℕ) (ids : List ℕ) → ids ≡ [] → delete_id id (add_id id ids) ≡ []
unfolding add_id has_id delete_id
delete_id-last id [] e = ground arith
delete_id-last id (i ∷ ids) e = cc

-- Sending a request changes the manager and the refused requests, and nothing else.
record Sends (c d : Connection) : Type 0 where
  closed : d.closed ≡ c.closed
  closing : d.closing ≡ c.closing
  active : d.active_client_streams ≡ c.active_client_streams

send_framed-Sends :
    (framed : Outcome Frame) (id : ℕ) (call : RequestCall) (c : Connection)
    → Sends c (send_framed framed id call c)
unfolding send_framed refuse
send_framed-Sends (ok frame) id call c = record { closed = refl; closing = refl; active = refl }
send_framed-Sends (err error) id call c = record { closed = refl; closing = refl; active = refl }
send_framed-Sends stuck id call c = record { closed = refl; closing = refl; active = refl }

module _ (to_lower_case : Text → Text) (options : Http2Options) where
  send_request-Sends :
      (id : ℕ) (call : RequestCall) (c : Connection)
      → Sends c (send_request to_lower_case options id call c)
  unfolding send_request
  send_request-Sends id call c =
      let expected : Connection = record c {
        manager = expect_response id call.resolver c.manager;
      } in
      let framed = request_frame to_lower_case options id call.req (has_no_body call.req) in
      let s = send_framed-Sends framed id call expected in
      record { closed = s.closed; closing = s.closing; active = s.active }

  begin_call-Advances :
      (call : RequestCall) (c : Connection) → Advances c (begin_call to_lower_case options call c)
  unfolding begin_call refuse
  begin_call-Advances call c =
      let (id, opened) = open_stream c.manager in
      let active = add_id id c.active_client_streams in
      let begun : Connection = record c { manager = opened; active_client_streams = active } in
      let bailed : Connection = record begun { active_client_streams = delete_id id active } in
      let r = release_slot-Advances bailed in
      let sent = send_request to_lower_case options id call begun in
      let s = send_request-Sends id call begun in
      elim (if-cases (c.closing || c.closed)
        (refuse call.resolver (closing_error c) (release_slot bailed)) sent) [
          | inl (shut, e) ↦
              subst (λ (d : Connection). Advances c d) (sym e)
                (record {
                  stays_closed = r.stays_closed;
                  stays_closing = r.stays_closing;
                  quiet = λ q. r.quiet (λ h.
                      let (closing, inactive, unwaited) = q h in
                      (closing, delete_id-last id c.active_client_streams inactive, unwaited));
                })
          | inr (live, e) ↦
              let (still, unclosed) = either_false c.closing c.closed live in
              subst (λ (d : Connection). Advances c d) (sym e)
                (record {
                  stays_closed = λ h. s.closed ∙ h;
                  stays_closing = λ h. s.closing ∙ h;
                  quiet = λ q h. absurd (let same = s.closed in cc);
                })
        ]

  pub begin_request-Advances : (c : Connection) → Advances c (begin_request to_lower_case options c)
  unfolding begin_request
  begin_request-Advances c =
      let next : List RequestCall → Connection = (λ l. elim l as (λ x. Connection) [
        | [] ↦ c
        | w ∷ ws ↦ begin_call to_lower_case options w (record c { granted = ws })
      ]) in
      elim (List-cases c.granted) [
        | inl none_ ↦ same_state c (next c.granted) (ap next none_)
        | inr (call, calls, some_) ↦
            let s = begin_call-Advances call (record c { granted = calls }) in
            subst (λ (d : Connection). Advances c d) (sym (ap next some_))
              (record {
                stays_closed = s.stays_closed;
                stays_closing = s.stays_closing;
                quiet = s.quiet;
              })
      ]
