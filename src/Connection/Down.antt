-- ===== src/Connection/Down.antt =====
-- src/connection.ts: what `close` and `handleFatal` leave behind.
use browsercore_http.Common.{
  ℕ, ◌≡◌, refl, sym, ap, ◌∙◌, subst, Bool, true, false, none, some, List, [], ◌∷◌, ◌++◌, inl, inr,
  if◌then◌else◌, ap₂, ◌==◌, arith, Bool-cases, Option-cases, Error, connection_closed_error,
}
use browsercore_http.Common.Table
use browsercore_http.Stream.Types.{Manager, Settlement}
use browsercore_http.Stream.Settle.{send_frame}
use browsercore_http.Stream.Manager.{abort_all}
use browsercore_http.Stream.Abort.{rejections, abort_all_lem}
use browsercore_http.Connection.State.{
  Connection, RequestCall, PromiseResult, failed, settle, drain_slot_waiters, tear_down,
  reject_settings_ack, handle_fatal, send_goaway, close,
}
use browsercore_http.Connection.Aside.{KeepsResults, settle-Aside}
use browsercore_http.Connection.Hearing.{hear_manager-Hears}

-- The connection `d` is `c` torn down with an error: nothing is open or waits for a slot, every
-- request that waited has a turn, in its order, behind those that had one, and every promise of a
-- request that the manager held is rejected once with the error.
pub record IsTornDown (error : Error) (c d : Connection) : Type 0 where
  pub is_closed : d.closed ≡ true
  pub is_closing : d.closing ≡ true
  pub inactive : d.active_client_streams ≡ []
  pub unwaited : d.slot_waiters ≡ []
  pub woken : d.woken ≡ c.woken ++ c.slot_waiters
  pub granted : d.granted ≡ c.granted
  pub streamless : d.manager.streams ≡ []
  pub rejected_all : d.manager.settled ≡ c.manager.settled ++ rejections error c.manager.streams

tear_down-IsTornDown :
    (error : Error) (c : Connection) → c.closing ≡ true → IsTornDown error c (tear_down error c)
unfolding tear_down drain_slot_waiters
tear_down-IsTornDown error c closing =
    let h = hear_manager-Hears (abort_all error c.manager) c in
    let (streamless, settled, events) = abort_all_lem error c.manager in
    record {
      is_closed = refl;
      is_closing = h.closing closing;
      inactive = refl;
      unwaited = refl;
      woken = h.queued;
      granted = h.granted;
      streamless = ap (λ (m : Manager). m.streams) h.manager ∙ streamless;
      rejected_all = ap (λ (m : Manager). m.settled) h.manager ∙ settled;
    }

tear_down-KeepsResults : (error : Error) (c : Connection) → KeepsResults c (tear_down error c)
unfolding tear_down drain_slot_waiters
tear_down-KeepsResults error c = (hear_manager-Hears (abort_all error c.manager) c).settled

pub close_live :
    (c : Connection)
    → c.closed ≡ false
    → close c
      ≡ record (tear_down connection_closed_error
          (send_goaway 0 0 [] (record c { closing = true }))) { transport_closed = true }
unfolding close
close_live c live =
    ap
      (λ (b : Bool).
        if b
        then c
        else record (tear_down connection_closed_error
            (send_goaway 0 0 [] (record c { closing = true }))) { transport_closed = true })
      live

pub handle_fatal_live :
    (error : Error) (c : Connection)
    → c.closed ≡ false
    → handle_fatal error c
      ≡ tear_down error (reject_settings_ack error (record c { closing = true }))
unfolding handle_fatal
handle_fatal_live error c live =
    ap
      (λ (b : Bool).
        if b then c else tear_down error (reject_settings_ack error (record c { closing = true })))
      live

-- `close` on a connection that is not closed tears it down with a ConnectionClosedError: afterwards
-- it is closed, no stream is open and no request waits for a slot; each request that waited is
-- woken once, in its order; each promise that the manager held is rejected once; and the transport
-- is closed.
pub close_lem :
    (c : Connection)
    → c.closed ≡ false
    → IsTornDown connection_closed_error c (close c) × ((close c).transport_closed ≡ true)
unfolding send_goaway send_frame
close_lem c live =
    let t =
      tear_down-IsTornDown connection_closed_error
        (send_goaway 0 0 [] (record c { closing = true })) refl in
    subst (λ (d : Connection). IsTornDown connection_closed_error c d × (d.transport_closed ≡ true))
      (sym (close_live c live))
      (
        record {
          is_closed = t.is_closed;
          is_closing = t.is_closing;
          inactive = t.inactive;
          unwaited = t.unwaited;
          woken = t.woken;
          granted = t.granted;
          streamless = t.streamless;
          rejected_all = t.rejected_all;
        },
        refl,
      )

pub record Alike (c d : Connection) : Type 0 where
  pub manager : d.manager ≡ c.manager
  waiters : d.slot_waiters ≡ c.slot_waiters
  woken : d.woken ≡ c.woken
  granted : d.granted ≡ c.granted
  closing : d.closing ≡ c.closing
  settled : KeepsResults c d

pub reject_settings_ack-Alike :
    (error : Error) (c : Connection) → Alike c (reject_settings_ack error c)
unfolding reject_settings_ack
reject_settings_ack-Alike error c = elim (Option-cases c.settings_ack_reject) [
  | inl none_ ↦
      rw (reject_settings_ack, none_)
        (record {
          manager = refl;
          waiters = refl;
          woken = refl;
          granted = refl;
          closing = refl;
          settled = λ promise result h. h;
        })
  | inr (p, waits) ↦
      let a = settle-Aside p (failed error) c in
      rw (reject_settings_ack, waits)
        (record {
          manager = a.manager;
          waiters = a.waiters;
          woken = a.woken;
          granted = a.granted;
          closing = a.closing;
          settled = a.settled;
        })
]

pub handle_fatal-IsTornDown :
    (error : Error) (c : Connection) → c.closed ≡ false → IsTornDown error c (handle_fatal error c)
handle_fatal-IsTornDown error c live =
    let started : Connection = record c { closing = true } in
    let a = reject_settings_ack-Alike error started in
    let waited = reject_settings_ack error started in
    let t = tear_down-IsTornDown error waited a.closing in
    let held : rejections error waited.manager.streams ≡ rejections error c.manager.streams =
      ap (λ (m : Manager). rejections error m.streams) a.manager in
    subst (λ (d : Connection). IsTornDown error c d) (sym (handle_fatal_live error c live))
      (record {
        is_closed = t.is_closed;
        is_closing = t.is_closing;
        inactive = t.inactive;
        unwaited = t.unwaited;
        woken = t.woken ∙ ap₂ (λ (xs ys : List RequestCall). xs ++ ys) a.woken a.waiters;
        granted = t.granted ∙ a.granted;
        streamless = t.streamless;
        rejected_all =
            t.rejected_all
            ∙ ap₂ (λ (xs ys : List Settlement). xs ++ ys)
                (ap (λ (m : Manager). m.settled) a.manager) held;
      })

find-last :
    (promise : ℕ) (result : PromiseResult) (xs : List (ℕ × PromiseResult))
    → Table.find promise xs ≡ none
    → Table.find promise (xs ++ ((promise, result) ∷ [])) ≡ some result
unfolding Table.find
find-last promise result [] h = ground arith
find-last promise result ((q, r) ∷ xs) h = elim (Bool-cases (q == promise)) [
  | inl here ↦ absurd (ground (arith, h, here))
  | inr there ↦ ground (arith, there, find-last promise result xs (ground (arith, h, there)))
]

reject_settings_ack-settled :
    (error : Error) (c : Connection) (promise : ℕ)
    → c.settings_ack_reject ≡ some promise
    → Table.find promise c.results ≡ none
    → Table.find promise (reject_settings_ack error c).results ≡ some (failed error)
unfolding reject_settings_ack settle
reject_settings_ack-settled error c promise waits pending =
    rw (reject_settings_ack, waits, settle) (find-last promise (failed error) c.results pending)

pub closed_already :
    (error : Error) (c : Connection) → c.closed ≡ true → (close c ≡ c) × (handle_fatal error c ≡ c)
unfolding close handle_fatal
closed_already error c shut = (
  ap
      (λ (b : Bool).
        if b
        then c
        else record (tear_down connection_closed_error
            (send_goaway 0 0 [] (record c { closing = true }))) { transport_closed = true })
      shut,
  ap
      (λ (b : Bool).
        if b then c else tear_down error (reject_settings_ack error (record c { closing = true })))
      shut,
)

pub close-closed : (c : Connection) → (close c).closed ≡ true
close-closed c = elim (Bool-cases c.closed) [
  | inl shut ↦
      ap (λ (d : Connection). d.closed) (closed_already connection_closed_error c shut).0 ∙ shut
  | inr live ↦ (close_lem c live).0.is_closed
]

-- A fatal error on a connection that is not closed, where a wait for the SETTINGS ACK is pending,
-- tears the connection down with that error, and rejects the wait with the same error.
pub handle_fatal_lem :
    (error : Error) (c : Connection) (promise : ℕ)
    → c.closed ≡ false
    → c.settings_ack_reject ≡ some promise
    → Table.find promise c.results ≡ none
    → IsTornDown error c (handle_fatal error c)
      × (Table.find promise (handle_fatal error c).results ≡ some (failed error))
handle_fatal_lem error c promise live waits pending =
    let started : Connection = record c { closing = true } in
    (
      handle_fatal-IsTornDown error c live,
      subst (λ (d : Connection). Table.find promise d.results ≡ some (failed error))
          (sym (handle_fatal_live error c live))
          (tear_down-KeepsResults error (reject_settings_ack error started) promise (failed error)
            (reject_settings_ack-settled error started promise waits pending)),
    )

-- A connection is torn down once: `close` behind `close`, and a fatal error behind `close`, change
-- nothing.
pub close-close :
    (error : Error) (c : Connection)
    → (close (close c) ≡ close c) × (handle_fatal error (close c) ≡ close c)
close-close error c = closed_already error (close c) (close-closed c)
