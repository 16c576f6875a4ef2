-- ===== src/Connection/State.antt =====
-- src/connection.ts: what a connection keeps, and the callbacks that change it.
-- A promise is named by a number. A log keeps every call of a promise's `resolve` and `reject`, oldest
-- first; of two calls for a promise the first one counts, so the log is read by its first entry.
use browsercore_http.Common.{
  ℕ, Bool, true, false, ◌||◌, Option, none, some, List, [], ◌∷◌, ◌++◌, ◌==◌, if◌then◌else◌, length,
  drop, Error, connection_closed_error, goaway_received_error,
}
use browsercore_http.Common.Table
use browsercore_http.Frame.Types.{goaway_frame}
use browsercore_http.Stream.Types.{
  Manager, create_stream_manager, Event, settings_ack, ping_ack, goaway_event, push,
  push_response_event, stream_closed, Settlement, rejected,
}
use browsercore_http.Stream.Settle.{send_frame}
use browsercore_http.Stream.Manager.{abort_all}
use browsercore_http.Connection.Request.{Http2Request}

-- A call of `request`, with the name of the promise that it returned.
pub record RequestCall : Type 0 where
  pub resolver : ℕ
  pub req : Http2Request

pub record ReceivedGoaway : Type 0 where
  pub last_stream_id : ℕ
  pub error_code : ℕ
  pub debug_data : List ℕ

-- How a promise of `waitForSettingsAck` or `ping` ends.
pub data PromiseResult : Type 0 where
  settings_acked : PromiseResult
  settings_ack_timeout : ℕ → PromiseResult
  ping_acked : ℕ → PromiseResult
  failed : Error → PromiseResult

-- The fields of `Http2ConnectionImpl` that change. What waits for its turn on the event loop is
-- state too: `woken` holds the requests whose waiter was called and that look at the slots again,
-- `granted` those that have left `acquireSlot` and open their stream next. `settings_ack_listeners`
-- and `ping_listeners` are the manager's listeners that `waitForSettingsAck` (by promise) and `ping`
-- (promise and data) registered, and `timers` the promises whose timer is armed, with its timeout.
-- `refused` are the promises of requests that the connection itself rejected.
pub record Connection : Type 0 where
  pub manager : Manager
  pub closing : Bool
  pub closed : Bool
  pub settings_ack_reject : Option ℕ
  pub received_goaway : Option ReceivedGoaway
  pub active_client_streams : List ℕ
  pub slot_waiters : List RequestCall
  pub woken : List RequestCall
  pub granted : List RequestCall
  pub settings_ack_listeners : List ℕ
  pub ping_listeners : List (ℕ × ℕ)
  pub timers : List (ℕ × ℕ)
  pub refused : List Settlement
  pub results : List (ℕ × PromiseResult)
  pub transport_closed : Bool

unfoldable pub new_connection : Connection
unfolding create_stream_manager
new_connection = record {
  manager = create_stream_manager;
  closing = false;
  closed = false;
  settings_ack_reject = none;
  received_goaway = none;
  active_client_streams = [];
  slot_waiters = [];
  woken = [];
  granted = [];
  settings_ack_listeners = [];
  ping_listeners = [];
  timers = [];
  refused = [];
  results = [];
  transport_closed = false;
}

-- `has`, `add` and `delete` of a `Set` of numbers.
unfoldable pub has_id : ℕ → List ℕ → Bool
has_id id [] = false
has_id id (i ∷ ids) = (i == id) || has_id id ids

unfoldable pub add_id : ℕ → List ℕ → List ℕ
add_id id ids = if has_id id ids then ids else ids ++ (id ∷ [])

unfoldable pub delete_id : ℕ → List ℕ → List ℕ
delete_id id [] = []
delete_id id (i ∷ ids) = if i == id then ids else i ∷ delete_id id ids

-- The call of a promise's `resolve` or `reject`. Each call is logged; a promise ends as the first one
-- says.
unfoldable pub settle : ℕ → PromiseResult → Connection → Connection
settle promise result c = record c { results = c.results ++ ((promise, result) ∷ []) }

unfoldable pub refuse : ℕ → Error → Connection → Connection
refuse resolver error c = record c { refused = c.refused ++ (rejected resolver error ∷ []) }

unfoldable pub release_slot : Connection → Connection
release_slot c = elim c.slot_waiters [
  | [] ↦ c
  | waiter ∷ waiters ↦ record c { slot_waiters = waiters; woken = c.woken ++ (waiter ∷ []) }
]

unfoldable pub drain_slot_waiters : Connection → Connection
drain_slot_waiters c = record c { slot_waiters = []; woken = c.woken ++ c.slot_waiters }

unfoldable pub on_stream_closed : ℕ → Connection → Connection
unfolding release_slot
on_stream_closed stream_id c =
    let left = delete_id stream_id c.active_client_streams in
    if has_id stream_id c.active_client_streams
    then release_slot (record c { active_client_streams = left })
    else c

unfoldable pub closing_error : Connection → Error
closing_error c = elim c.received_goaway [
  | none ↦ connection_closed_error
  | some g ↦ goaway_received_error g.last_stream_id g.error_code g.debug_data
]

-- `onAck` of one `waitForSettingsAck`.
unfoldable pub on_ack : ℕ → Connection → Connection
unfolding settle
on_ack promise c = settle promise settings_acked (record c {
  settings_ack_reject = none;
  timers = Table.delete promise c.timers;
  settings_ack_listeners = delete_id promise c.settings_ack_listeners;
})

-- The listeners that are there when the event begins.
unfoldable pub on_ack_each : List ℕ → Connection → Connection
unfolding on_ack
on_ack_each [] c = c
on_ack_each (promise ∷ listeners) c = on_ack_each listeners (on_ack promise c)

-- `handler` of one `ping`: it looks for the data that this ping sent.
unfoldable pub ping_handler : ℕ → ℕ → ℕ → Connection → Connection
unfolding settle
ping_handler acked promise opaque_data c =
    let answered =
      settle promise (ping_acked acked)
        (record c { ping_listeners = Table.delete promise c.ping_listeners }) in
    if acked == opaque_data then answered else c

unfoldable pub on_ping_ack : ℕ → List (ℕ × ℕ) → Connection → Connection
unfolding ping_handler
on_ping_ack acked [] c = c
on_ping_ack acked ((promise, opaque_data) ∷ listeners) c =
    on_ping_ack acked listeners (ping_handler acked promise opaque_data c)

-- What the listeners of `startReadLoop`, `ping` and `waitForSettingsAck` do with an event.
unfoldable pub hear : Event → Connection → Connection
unfolding on_ack_each on_ping_ack on_stream_closed
hear settings_ack c = on_ack_each c.settings_ack_listeners c
hear (ping_ack acked) c = on_ping_ack acked c.ping_listeners c
hear (goaway_event last_stream_id error_code debug_data) c = record c {
  received_goaway = some (record {
    last_stream_id = last_stream_id;
    error_code = error_code;
    debug_data = debug_data;
  });
  closing = true;
}
hear (push id headers) c = c
hear (push_response_event id response) c = c
hear (stream_closed stream_id) c = on_stream_closed stream_id c

unfoldable pub hear_all : List Event → Connection → Connection
unfolding hear
hear_all [] c = c
hear_all (e ∷ events) c = hear_all events (hear e c)

-- The connection after a call of the manager. The listeners run within the call; they change nothing
-- that the manager reads, so they run behind it here, on the events that the call added.
unfoldable pub hear_manager : Manager → Connection → Connection
unfolding hear_all
hear_manager manager c =
    hear_all (drop (length c.manager.events) manager.events) (record c { manager = manager })

-- The steps that `close` and `handleFatal` share: `abortAll`, `clear`, `drainSlotWaiters`, `closed`.
unfoldable pub tear_down : Error → Connection → Connection
unfolding hear_manager drain_slot_waiters
tear_down error c =
    let aborted = hear_manager (abort_all error c.manager) c in
    let drained = drain_slot_waiters (record aborted { active_client_streams = [] }) in
    record drained { closed = true }

-- `this.settingsAckReject?.(err)`, and its reset.
unfoldable pub reject_settings_ack : Error → Connection → Connection
unfolding settle
reject_settings_ack error c = elim c.settings_ack_reject [
  | none ↦ c
  | some promise ↦ record (settle promise (failed error) c) { settings_ack_reject = none }
]

unfoldable pub handle_fatal : Error → Connection → Connection
unfolding reject_settings_ack tear_down
handle_fatal error c =
    let torn_down = tear_down error (reject_settings_ack error (record c { closing = true })) in
    if c.closed then c else torn_down

unfoldable pub send_goaway : ℕ → ℕ → List ℕ → Connection → Connection
unfolding send_frame
send_goaway last_stream_id error_code debug_data c = record c {
  manager =
      send_frame
        (goaway_frame (record {
          flags = 0;
          stream_id = 0;
          last_stream_id = last_stream_id;
          error_code = error_code;
          debug_data = debug_data;
        }))
        c.manager;
}

unfoldable pub close : Connection → Connection
unfolding send_goaway tear_down
close c =
    let torn_down =
      tear_down connection_closed_error (send_goaway 0 0 [] (record c { closing = true })) in
    if c.closed then c else record torn_down { transport_closed = true }
