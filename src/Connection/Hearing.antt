-- ===== src/Connection/Hearing.antt =====
-- src/connection.ts: what the manager's events leave alone in a connection, and whom they wake.
use browsercore_http.Common.{
  ℕ, ◌≡◌, refl, ap, ap₂, ◌∙◌, true, List, [], ◌∷◌, ◌++◌, ◌⊎◌, inl, inr, length, drop, Bool-cases,
  append_assoc,
}
use browsercore_http.Stream.Types.{
  Manager, Event, settings_ack, ping_ack, goaway_event, push, push_response_event, stream_closed,
}
use browsercore_http.Connection.State.{
  Connection, RequestCall, release_slot, on_stream_closed, hear, hear_all, hear_manager, delete_id,
  has_id,
}
use browsercore_http.Connection.Aside.{
  queue, KeepsResults, Aside, Aside-refl, on_ack_each-Aside, on_ping_ack-Aside,
}

-- What the manager's events keep: nothing that waits is lost or overtaken.
pub record Hears (c d : Connection) : Type 0 where
  pub manager : d.manager ≡ c.manager
  pub closed : d.closed ≡ c.closed
  pub granted : d.granted ≡ c.granted
  pub queued : queue d ≡ queue c
  pub closing : c.closing ≡ true → d.closing ≡ true
  pub inactive : c.active_client_streams ≡ [] → d.active_client_streams ≡ []
  pub unwaited : c.slot_waiters ≡ [] → d.slot_waiters ≡ []
  pub settled : KeepsResults c d

Hears-trans : (c d e : Connection) → Hears c d → Hears d e → Hears c e
Hears-trans c d e p q = record {
  manager = q.manager ∙ p.manager;
  closed = q.closed ∙ p.closed;
  granted = q.granted ∙ p.granted;
  queued = q.queued ∙ p.queued;
  closing = λ h. q.closing (p.closing h);
  inactive = λ h. q.inactive (p.inactive h);
  unwaited = λ h. q.unwaited (p.unwaited h);
  settled = λ promise result h. q.settled promise result (p.settled promise result h);
}

Aside-Hears : (c d : Connection) → Aside c d → Hears c d
Aside-Hears c d a = record {
  manager = a.manager;
  closed = a.closed;
  granted = a.granted;
  queued = ap₂ (λ (xs ys : List RequestCall). xs ++ ys) a.woken a.waiters;
  closing = λ h. a.closing ∙ h;
  inactive = λ h. a.active ∙ h;
  unwaited = λ h. a.waiters ∙ h;
  settled = a.settled;
}

pub List-cases {ℓ} :
    {A : Type ℓ} (xs : List A) → (xs ≡ []) ⊎ ((x : A) × (rest : List A) × (xs ≡ x ∷ rest))
List-cases [] = inl refl
List-cases (x ∷ rest) = inr (x, rest, refl)

on_stream_closed-Hears : (id : ℕ) (c : Connection) → Hears c (on_stream_closed id c)
unfolding on_stream_closed release_slot delete_id
on_stream_closed-Hears id c = elim (Bool-cases (has_id id c.active_client_streams)) [
  | inr unknown ↦ rw (on_stream_closed, unknown) (Aside-Hears c c (Aside-refl c))
  | inl known ↦ elim (List-cases c.slot_waiters) [
    | inl none_ ↦
        rw (on_stream_closed, known, release_slot, none_)
          (record {
            manager = refl;
            closed = refl;
            granted = refl;
            queued = ap (λ (ws : List RequestCall). c.woken ++ ws) none_;
            closing = λ h. h;
            inactive = λ h. ap (delete_id id) h;
            unwaited = λ h. none_;
            settled = λ promise result h. h;
          })
    | inr (w, ws, some_) ↦
        rw (on_stream_closed, known, release_slot, some_)
          (record {
            manager = refl;
            closed = refl;
            granted = refl;
            queued = append_assoc c.woken (w ∷ []) ws;
            closing = λ h. h;
            inactive = λ h. ap (delete_id id) h;
            unwaited = λ h. cc;
            settled = λ promise result h. h;
          })
  ]
]

hear-Hears : (e : Event) (c : Connection) → Hears c (hear e c)
unfolding hear
hear-Hears settings_ack c =
    Aside-Hears c (hear settings_ack c) (on_ack_each-Aside c.settings_ack_listeners c)
hear-Hears (ping_ack acked) c =
    Aside-Hears c (hear (ping_ack acked) c) (on_ping_ack-Aside acked c.ping_listeners c)
hear-Hears (goaway_event last_stream_id error_code debug_data) c = record {
  manager = refl;
  closed = refl;
  granted = refl;
  queued = refl;
  closing = λ h. refl;
  inactive = λ h. h;
  unwaited = λ h. h;
  settled = λ promise result h. h;
}
hear-Hears (push id headers) c = Aside-Hears c c (Aside-refl c)
hear-Hears (push_response_event id response) c = Aside-Hears c c (Aside-refl c)
hear-Hears (stream_closed stream_id) c = on_stream_closed-Hears stream_id c

hear_all-Hears : (events : List Event) (c : Connection) → Hears c (hear_all events c)
unfolding hear_all
hear_all-Hears [] c = Aside-Hears c c (Aside-refl c)
hear_all-Hears (e ∷ events) c =
    Hears-trans c (hear e c) _ (hear-Hears e c) (hear_all-Hears events (hear e c))

pub hear_manager-Hears :
    (m : Manager) (c : Connection) → Hears (record c { manager = m }) (hear_manager m c)
unfolding hear_manager
hear_manager-Hears m c =
    hear_all-Hears (drop (length c.manager.events) m.events) (record c { manager = m })
