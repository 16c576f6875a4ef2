-- ===== src/Connection/Aside.antt =====
-- src/connection.ts: the listeners of `ping` and `waitForSettingsAck`, which requests do not depend on.
use browsercore_http.Common.{
  ℕ, ◌≡◌, refl, ◌∙◌, arith, none, some, List, [], ◌∷◌, ◌++◌, ◌==◌, inl, inr, Bool-cases,
}
use browsercore_http.Common.Table
use browsercore_http.Connection.State.{
  Connection, RequestCall, PromiseResult, settle, on_ack, on_ack_each, ping_handler, ping_acked,
  on_ping_ack, delete_id,
}

-- The requests that wait for a slot or were woken, in the order of their turns.
abbrev pub queue : Connection → List RequestCall
queue c = c.woken ++ c.slot_waiters

-- The first entry of a promise in the log stays the first.
abbrev pub KeepsResults : Connection → Connection → Type 0
KeepsResults c d =
    (promise : ℕ) (result : PromiseResult)
    → Table.find promise c.results ≡ some result
    → Table.find promise d.results ≡ some result

-- A listener for promises touches nothing that requests depend on.
pub record Aside (c d : Connection) : Type 0 where
  pub manager : d.manager ≡ c.manager
  pub closing : d.closing ≡ c.closing
  pub closed : d.closed ≡ c.closed
  pub active : d.active_client_streams ≡ c.active_client_streams
  pub waiters : d.slot_waiters ≡ c.slot_waiters
  pub woken : d.woken ≡ c.woken
  pub granted : d.granted ≡ c.granted
  pub settled : KeepsResults c d

pub Aside-refl : (c : Connection) → Aside c c
Aside-refl c = record {
  manager = refl;
  closing = refl;
  closed = refl;
  active = refl;
  waiters = refl;
  woken = refl;
  granted = refl;
  settled = λ promise result h. h;
}

Aside-trans : (c d e : Connection) → Aside c d → Aside d e → Aside c e
Aside-trans c d e p q = record {
  manager = q.manager ∙ p.manager;
  closing = q.closing ∙ p.closing;
  closed = q.closed ∙ p.closed;
  active = q.active ∙ p.active;
  waiters = q.waiters ∙ p.waiters;
  woken = q.woken ∙ p.woken;
  granted = q.granted ∙ p.granted;
  settled = λ promise result h. q.settled promise result (p.settled promise result h);
}

find-append :
    (promise : ℕ) (result : PromiseResult) (xs ys : List (ℕ × PromiseResult))
    → Table.find promise xs ≡ some result
    → Table.find promise (xs ++ ys) ≡ some result
unfolding Table.find
find-append promise result [] ys h = absurd (cc)
find-append promise result ((q, r) ∷ xs) ys h = elim (Bool-cases (q == promise)) [
  | inl here ↦ ground (arith, h, here)
  | inr there ↦ ground (arith, there, find-append promise result xs ys (ground (arith, h, there)))
]

pub settle-Aside :
    (promise : ℕ) (result : PromiseResult) (c : Connection) → Aside c (settle promise result c)
unfolding settle
settle-Aside promise result c = record {
  manager = refl;
  closing = refl;
  closed = refl;
  active = refl;
  waiters = refl;
  woken = refl;
  granted = refl;
  settled = λ q r h. find-append q r c.results ((promise, result) ∷ []) h;
}

on_ack-Aside : (promise : ℕ) (c : Connection) → Aside c (on_ack promise c)
unfolding on_ack
on_ack-Aside promise c =
    let cleared : Connection = record c {
      settings_ack_reject = none;
      timers = Table.delete promise c.timers;
      settings_ack_listeners = delete_id promise c.settings_ack_listeners;
    } in
    let a = settle-Aside promise _ cleared in
    record {
      manager = a.manager;
      closing = a.closing;
      closed = a.closed;
      active = a.active;
      waiters = a.waiters;
      woken = a.woken;
      granted = a.granted;
      settled = a.settled;
    }

pub on_ack_each-Aside : (listeners : List ℕ) (c : Connection) → Aside c (on_ack_each listeners c)
unfolding on_ack_each
on_ack_each-Aside [] c = Aside-refl c
on_ack_each-Aside (promise ∷ listeners) c =
    Aside-trans c (on_ack promise c) _ (on_ack-Aside promise c)
      (on_ack_each-Aside listeners (on_ack promise c))

ping_handler-Aside :
    (acked promise opaque_data : ℕ) (c : Connection)
    → Aside c (ping_handler acked promise opaque_data c)
unfolding ping_handler
ping_handler-Aside acked promise opaque_data c = elim (Bool-cases (acked == opaque_data)) [
  | inl mine ↦
      let fewer : Connection = record c {
        ping_listeners = Table.delete promise c.ping_listeners;
      } in
      let a = settle-Aside promise (ping_acked acked) fewer in
      rw (ping_handler, mine)
        (record {
          manager = a.manager;
          closing = a.closing;
          closed = a.closed;
          active = a.active;
          waiters = a.waiters;
          woken = a.woken;
          granted = a.granted;
          settled = a.settled;
        })
  | inr other ↦ rw (ping_handler, other) (Aside-refl c)
]

pub on_ping_ack-Aside :
    (acked : ℕ) (listeners : List (ℕ × ℕ)) (c : Connection)
    → Aside c (on_ping_ack acked listeners c)
unfolding on_ping_ack
on_ping_ack-Aside acked [] c = Aside-refl c
on_ping_ack-Aside acked ((promise, opaque_data) ∷ listeners) c =
    Aside-trans c (ping_handler acked promise opaque_data c) _
      (ping_handler-Aside acked promise opaque_data c)
      (on_ping_ack-Aside acked listeners (ping_handler acked promise opaque_data c))
