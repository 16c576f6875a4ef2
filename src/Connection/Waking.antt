-- ===== src/Connection/Waking.antt =====
-- src/connection.ts: which slots the manager's events free, and which requests they wake.
use browsercore_http.Common.{
  ℕ, ◌+◌, ◌-◌, ◌≤◌, ◌≡◌, refl, sym, ap, ap₂, ◌∙◌, subst, arith, true, false, List, [], ◌∷◌, ◌++◌,
  inl, inr, length, take, drop, Bool-cases, append-nil, append_assoc, take_add, drop_add,
  drop-length-append, ◌==◌, Option, none, Text,
}
use browsercore_http.Stream.Types.{
  Manager, Streams, Event, settings_ack, ping_ack, goaway_event, push, push_response_event,
  stream_closed,
}
use browsercore_http.Frame.Types.{Frame, GoawayFrame, goaway_frame}
use browsercore_http.Stream.Manager.{dispatch}
use browsercore_http.Stream.Abort.{closings, above, handle_goaway_lem}
use browsercore_http.Connection.Calls.{on_frame}
use browsercore_http.Connection.State.{
  Connection, RequestCall, release_slot, on_stream_closed, hear, hear_all, hear_manager, delete_id,
  has_id,
}
use browsercore_http.Connection.Aside.{Aside, on_ack_each-Aside, on_ping_ack-Aside}
use browsercore_http.Connection.Hearing.{List-cases}

-- The streams that the events report as closed.
abbrev pub closed_ids : List Event → List ℕ
closed_ids [] = []
closed_ids (settings_ack ∷ events) = closed_ids events
closed_ids (ping_ack acked ∷ events) = closed_ids events
closed_ids (goaway_event last_stream_id error_code debug_data ∷ events) = closed_ids events
closed_ids (push id headers ∷ events) = closed_ids events
closed_ids (push_response_event id response ∷ events) = closed_ids events
closed_ids (stream_closed id ∷ events) = id ∷ closed_ids events

-- The streams of a set without those that ended.
abbrev pub without : List ℕ → List ℕ → List ℕ
without [] ids = ids
without (ended ∷ ends) ids = without ends (delete_id ended ids)

length-delete_id :
    (id : ℕ) (ids : List ℕ) → has_id id ids ≡ true → length ids ≡ 1 + length (delete_id id ids)
unfolding has_id delete_id
length-delete_id id [] h = absurd (cc)
length-delete_id id (i ∷ ids) h = elim (Bool-cases (i == id)) [
  | inl here ↦ rw here (omega arith)
  | inr there ↦ ground (arith, there, length-delete_id id ids (ground (arith, h, there)))
]

delete_id-absent : (id : ℕ) (ids : List ℕ) → has_id id ids ≡ false → delete_id id ids ≡ ids
unfolding has_id delete_id
delete_id-absent id [] h = refl
delete_id-absent id (i ∷ ids) h = elim (Bool-cases (i == id)) [
  | inl here ↦ absurd (ground (arith, h, here))
  | inr there ↦ ground (arith, there, delete_id-absent id ids (ground (arith, h, there)))
]

length-without : (ends ids : List ℕ) → length (without ends ids) ≤ length ids
length-without [] ids = omega arith
length-without (ended ∷ ends) ids = elim (Bool-cases (has_id ended ids)) [
  | inl known ↦
      omega (arith, length-delete_id ended ids known, length-without ends (delete_id ended ids))
  | inr unknown ↦ omega (
    arith,
    ap length (delete_id-absent ended ids unknown),
    length-without ends (delete_id ended ids),
  )
]

-- The slots of `left` are those still taken, and for each slot that was freed the first request that
-- waited was woken.
abbrev pub Frees : List ℕ → Connection → Connection → Type 0
Frees left c d =
    let freed = length c.active_client_streams - length left in
    (d.active_client_streams ≡ left)
    × (d.woken ≡ c.woken ++ take freed c.slot_waiters)
    × (d.slot_waiters ≡ drop freed c.slot_waiters)

-- The first `k` requests that wait are woken.
Wakes : ℕ → List ℕ → Connection → Connection → Type 0
Wakes k left c d =
    (d.active_client_streams ≡ left)
    × (d.woken ≡ c.woken ++ take k c.slot_waiters)
    × (d.slot_waiters ≡ drop k c.slot_waiters)

on_stream_closed-known :
    (id : ℕ) (c : Connection)
    → has_id id c.active_client_streams ≡ true
    → Wakes 1 (delete_id id c.active_client_streams) c (on_stream_closed id c)
unfolding Wakes on_stream_closed release_slot
on_stream_closed-known id c known = elim (List-cases c.slot_waiters) [
  | inl none_ ↦
      rw (on_stream_closed, known, release_slot, none_) (refl, sym (append-nil c.woken), none_)
  | inr (w, ws, some_) ↦ rw (on_stream_closed, known, release_slot, some_) (refl, refl, refl)
]

Wakes-trans :
    (n j k : ℕ) (l m : List ℕ) (c d e : Connection)
    → n ≡ j + k
    → Wakes j l c d
    → Wakes k m d e
    → Wakes n m c e
unfolding Wakes
Wakes-trans n j k l m c d e all (active, woken, waiters) (active', woken', waiters') = (
  active',
  woken'
      ∙ ap₂ (λ (xs ys : List RequestCall). xs ++ take k ys) woken waiters
      ∙ append_assoc c.woken (take j c.slot_waiters) (take k (drop j c.slot_waiters))
      ∙ ap (λ (ws : List RequestCall). c.woken ++ ws)
          (sym (take_add j k c.slot_waiters) ∙ ap (λ (i : ℕ). take i c.slot_waiters) (sym all)),
  waiters'
      ∙ ap (drop k) waiters
      ∙ sym (drop_add j k c.slot_waiters)
      ∙ ap (λ (i : ℕ). drop i c.slot_waiters) (sym all),
)

Wakes-none :
    (c d : Connection)
    → d.active_client_streams ≡ c.active_client_streams
    → d.woken ≡ c.woken
    → d.slot_waiters ≡ c.slot_waiters
    → Wakes 0 c.active_client_streams c d
unfolding Wakes
Wakes-none c d active woken waiters = (active, woken ∙ sym (append-nil c.woken), waiters)

-- How many slots the streams that ended held.
freed : List ℕ → List ℕ → ℕ
freed ends ids = length ids - length (without ends ids)

Aside-Wakes : (c d : Connection) → Aside c d → Wakes 0 c.active_client_streams c d
Aside-Wakes c d a = Wakes-none c d a.active a.woken a.waiters

-- An event that leaves the slots alone.
quiet-Wakes :
    (ends : List ℕ) (c d e : Connection)
    → Wakes 0 c.active_client_streams c d
    → Wakes (freed ends d.active_client_streams) (without ends d.active_client_streams) d e
    → Wakes (freed ends c.active_client_streams) (without ends c.active_client_streams) c e
unfolding Wakes
quiet-Wakes ends c d e w rest =
    let rest' = subst (λ (ids : List ℕ). Wakes (freed ends ids) (without ends ids) d e) w.0 rest in
    Wakes-trans (freed ends c.active_client_streams) 0 (freed ends c.active_client_streams)
      c.active_client_streams (without ends c.active_client_streams) c d e (omega arith) w rest'

active :
    (id : ℕ) (c : Connection) (left : List ℕ)
    → Wakes 1 left c (on_stream_closed id c)
    → (on_stream_closed id c).active_client_streams ≡ left
unfolding Wakes
active id c left w = w.0

-- A stream that ends, and then what follows.
ended-Wakes :
    (id : ℕ) (ends : List ℕ) (c e : Connection)
    → let d = on_stream_closed id c in
      Wakes (freed ends d.active_client_streams) (without ends d.active_client_streams) d e
      → Wakes
          (freed (id ∷ ends) c.active_client_streams)
          (without (id ∷ ends) c.active_client_streams)
          c
          e
unfolding freed on_stream_closed
ended-Wakes id ends c e rest =
    let ids = c.active_client_streams in
    let left = delete_id id ids in
    elim (Bool-cases (has_id id ids)) [
      | inl known ↦
          let w = on_stream_closed-known id c known in
          let rest' =
            subst (λ (l : List ℕ). Wakes (freed ends l) (without ends l) (on_stream_closed id c) e)
              (active id c (delete_id id ids) w) rest in
          Wakes-trans _ 1 (freed ends left) left (without ends left) c (on_stream_closed id c) e
            (omega (arith, length-delete_id id ids known, length-without ends left)) w rest'
      | inr unknown ↦
          let same : on_stream_closed id c ≡ c = rw (on_stream_closed, unknown) refl in
          subst (λ (l : List ℕ). Wakes (length ids - length (without ends l)) (without ends l) c e)
            (sym (delete_id-absent id ids unknown))
            (subst
              (λ (d : Connection).
                Wakes (freed ends d.active_client_streams) (without ends d.active_client_streams) d
                  e)
              same rest)
    ]

hear_all-Wakes :
    (events : List Event) (c : Connection)
    → Wakes
        (freed (closed_ids events) c.active_client_streams)
        (without (closed_ids events) c.active_client_streams)
        c
        (hear_all events c)
unfolding hear_all hear
hear_all-Wakes [] c =
    let none_freed : 0 ≡ freed [] c.active_client_streams = unfold freed in omega arith in
    subst (λ (k : ℕ). Wakes k c.active_client_streams c c) none_freed
      (Wakes-none c c refl refl refl)
hear_all-Wakes (settings_ack ∷ events) c =
    quiet-Wakes (closed_ids events) c _ _
      (Aside-Wakes c _ (on_ack_each-Aside c.settings_ack_listeners c))
      (hear_all-Wakes events (hear settings_ack c))
hear_all-Wakes (ping_ack acked ∷ events) c =
    quiet-Wakes (closed_ids events) c _ _
      (Aside-Wakes c _ (on_ping_ack-Aside acked c.ping_listeners c))
      (hear_all-Wakes events (hear (ping_ack acked) c))
hear_all-Wakes (goaway_event last_stream_id error_code debug_data ∷ events) c =
    quiet-Wakes (closed_ids events) c _ _ (Wakes-none c _ refl refl refl)
      (hear_all-Wakes events (hear (goaway_event last_stream_id error_code debug_data) c))
hear_all-Wakes (push id headers ∷ events) c = hear_all-Wakes events c
hear_all-Wakes (push_response_event id response ∷ events) c = hear_all-Wakes events c
hear_all-Wakes (stream_closed id ∷ events) c =
    ended-Wakes id (closed_ids events) c _ (hear_all-Wakes events (on_stream_closed id c))

pub hear_manager-Frees :
    (m : Manager) (c : Connection)
    → Frees
        (without (closed_ids (drop (length c.manager.events) m.events)) c.active_client_streams)
        c
        (hear_manager m c)
unfolding hear_manager Wakes freed
hear_manager-Frees m c =
    hear_all-Wakes (drop (length c.manager.events) m.events) (record c { manager = m })

-- The ids of the streams, in the order of the map.
abbrev pub ids_of : Streams → List ℕ
ids_of [] = []
ids_of ((id, s) ∷ streams) = s.id ∷ ids_of streams

closed_ids-closings : (streams : Streams) → closed_ids (closings streams) ≡ ids_of streams
closed_ids-closings [] = refl
closed_ids-closings ((id, s) ∷ streams) =
    ap (λ (ids : List ℕ). s.id ∷ ids) (closed_ids-closings streams)

module _ (to_number : Text → Option ℕ) where
  on_frame-hears :
      (f : Frame) (c : Connection)
      → (dispatch to_number f c.manager).thrown ≡ none
      → on_frame to_number f c ≡ hear_manager (dispatch to_number f c.manager).manager c
  unfolding on_frame
  on_frame-hears f c calm = rw (on_frame, calm) refl

  goaway-closed_ids :
      (g : GoawayFrame) (m : Manager)
      → closed_ids (drop (length m.events) (dispatch to_number (goaway_frame g) m).manager.events)
        ≡ ids_of (above g.last_stream_id m.streams)
  unfolding dispatch
  goaway-closed_ids g m =
      let gone = closings (above g.last_stream_id m.streams) in
      let told = goaway_event g.last_stream_id g.error_code g.debug_data in
      ap (λ (events : List Event). closed_ids (drop (length m.events) events))
        ((handle_goaway_lem g m).1 ∙ append_assoc m.events (told ∷ []) gone)
      ∙ ap closed_ids (drop-length-append m.events (told ∷ gone))
      ∙ closed_ids-closings (above g.last_stream_id m.streams)

  -- When a frame that throws nothing has been handled, the slots of exactly the streams that the
  -- manager has reported as closed are free, and as many requests that waited for a slot have
  -- their turn as slots were freed: the first ones, in their order, behind those woken before, and
  -- the others wait on. A GOAWAY frees in this way the slots of exactly the streams of the map
  -- above the last one that the peer serves.
  pub on_frame-Frees :
      (f : Frame) (g : GoawayFrame) (c : Connection)
      → (dispatch to_number f c.manager).thrown ≡ none
      → let m = (dispatch to_number f c.manager).manager in
        let closed = closed_ids (drop (length c.manager.events) m.events) in
        let cancelled = ids_of (above g.last_stream_id c.manager.streams) in
        Frees (without closed c.active_client_streams) c (on_frame to_number f c)
        × Frees
            (without cancelled c.active_client_streams)
            c
            (on_frame to_number (goaway_frame g) c)
  on_frame-Frees f g c calm =
      let heard : (h : Frame)
          → (dispatch to_number h c.manager).thrown ≡ none
          → Frees
              (without
                (closed_ids
                  (drop (length c.manager.events) (dispatch to_number h c.manager).manager.events))
                c.active_client_streams)
              c (on_frame to_number h c) =
        λ h quiet.
          subst
            (λ (d : Connection).
              Frees
                (without
                  (closed_ids (
                    drop (length c.manager.events) (dispatch to_number h c.manager).manager.events))
                  c.active_client_streams)
                c d)
            (sym (on_frame-hears h c quiet))
            (hear_manager-Frees (dispatch to_number h c.manager).manager c) in
      (
        heard f calm,
        subst
            (λ (ids : List ℕ).
              Frees (without ids c.active_client_streams) c (on_frame to_number (goaway_frame g) c))
            (goaway-closed_ids g c.manager) (heard (goaway_frame g) (unfold dispatch in refl)),
      )
