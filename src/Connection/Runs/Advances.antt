-- ===== src/Connection/Runs/Advances.antt =====
-- src/connection.ts: what a step of a connection keeps, and the steps that tear it down.
use browsercore_http.Common.{
  ℕ, ◌≡◌, sym, ◌∙◌, subst, true, [], inl, inr, Bool-cases, Error, connection_closed_error,
}
use browsercore_http.Stream.Types.{Manager}
use browsercore_http.Connection.State.{Connection, PromiseResult, settle, handle_fatal, close}
use browsercore_http.Connection.Aside.{settle-Aside}
use browsercore_http.Connection.Hearing.{Hears}
use browsercore_http.Connection.Down.{
  IsTornDown, close_lem, handle_fatal-IsTornDown, closed_already,
}

-- A closed connection is closing, no stream holds a slot of it, and no request waits for one.
abbrev pub IsQuiet : Connection → Type 0
IsQuiet c =
    c.closed ≡ true → (c.closing ≡ true) × (c.active_client_streams ≡ []) × (c.slot_waiters ≡ [])

-- A step forward: `closing` and `closed` are not taken back, and a closed connection stays quiet.
pub record Advances (c d : Connection) : Type 0 where
  pub stays_closed : c.closed ≡ true → d.closed ≡ true
  pub stays_closing : c.closing ≡ true → d.closing ≡ true
  pub quiet : IsQuiet c → IsQuiet d

Advances-refl : (c : Connection) → Advances c c
Advances-refl c = record { stays_closed = λ h. h; stays_closing = λ h. h; quiet = λ h. h }

pub same_state : (c d : Connection) → d ≡ c → Advances c d
same_state c d e = subst (λ (x : Connection). Advances c x) (sym e) (Advances-refl c)

pub torn_down : (error : Error) (c d : Connection) → IsTornDown error c d → Advances c d
torn_down error c d t = record {
  stays_closed = λ h. t.is_closed;
  stays_closing = λ h. t.is_closing;
  quiet = λ q h. (t.is_closing, t.inactive, t.unwaited);
}

pub close-Advances : (c : Connection) → Advances c (close c)
close-Advances c = elim (Bool-cases c.closed) [
  | inl shut ↦ same_state c (close c) (closed_already connection_closed_error c shut).0
  | inr live ↦ torn_down connection_closed_error c (close c) (close_lem c live).0
]

pub handle_fatal-Advances : (error : Error) (c : Connection) → Advances c (handle_fatal error c)
handle_fatal-Advances error c = elim (Bool-cases c.closed) [
  | inl shut ↦ same_state c (handle_fatal error c) (closed_already error c shut).1
  | inr live ↦ torn_down error c (handle_fatal error c) (handle_fatal-IsTornDown error c live)
]

pub heard : (m : Manager) (c d : Connection) → Hears (record c { manager = m }) d → Advances c d
heard m c d h = record {
  stays_closed = λ shut. h.closed ∙ shut;
  stays_closing = h.closing;
  quiet = λ q shut.
      let (closing, inactive, unwaited) = q (sym h.closed ∙ shut) in
      (h.closing closing, h.inactive inactive, h.unwaited unwaited);
}

pub Advances-heard :
    (m : Manager) (c d e : Connection)
    → Hears (record c { manager = m }) d
    → Advances d e
    → Advances c e
Advances-heard m c d e h a =
    let first = heard m c d h in
    record {
      stays_closed = λ x. a.stays_closed (first.stays_closed x);
      stays_closing = λ x. a.stays_closing (first.stays_closing x);
      quiet = λ x. a.quiet (first.quiet x);
    }

-- An operation that sets aside only promises and what is sent.
pub beside :
    (c d : Connection)
    → d.closed ≡ c.closed
    → (c.closing ≡ true → d.closing ≡ true)
    → d.active_client_streams ≡ c.active_client_streams
    → d.slot_waiters ≡ c.slot_waiters
    → Advances c d
beside c d closed closing active waiters = record {
  stays_closed = λ h. closed ∙ h;
  stays_closing = closing;
  quiet = λ q h.
      let (still, inactive, unwaited) = q (sym closed ∙ h) in
      (closing still, active ∙ inactive, waiters ∙ unwaited);
}

pub settle-Advances :
    (promise : ℕ) (result : PromiseResult) (c : Connection) → Advances c (settle promise result c)
settle-Advances promise result c =
    let a = settle-Aside promise result c in
    beside c (settle promise result c) a.closed (λ h. a.closing ∙ h) a.active a.waiters
