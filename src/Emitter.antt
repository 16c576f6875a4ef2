-- ===== src/Emitter.antt =====
-- src/internal-emitter.ts: `InternalEventEmitter`.
pub mod Laws
pub mod Once
mod Tests
use browsercore_http.Common.{
  ℕ, ◌+◌, Bool, true, false, Option, none, some, List, [], ◌∷◌, ◌++◌, ◌==◌, if◌then◌else◌, length,
  Text, text_eq, Error,
}

-- `key` is the identity of the entry and `original` that of the caller's listener. Where `is_once` is
-- set, `call` is the wrapper that deletes the entry before it calls `original`.
pub record StoredListener : Type 0 where
  pub key : ℕ
  pub original : ℕ
  pub is_once : Bool

abbrev pub Listeners : Type 0
Listeners = List StoredListener

-- The `Map` of events, each with its `Set` in the order of registration, and the next identity.
pub record InternalEventEmitter : Type 0 where
  pub events : List (Text × Listeners)
  pub next_key : ℕ

unfoldable pub find_set : Text → List (Text × Listeners) → Option Listeners
find_set event [] = none
find_set event ((name, set) ∷ events) =
    if text_eq name event then some set else find_set event events

unfoldable pub put_set : Text → Listeners → List (Text × Listeners) → List (Text × Listeners)
put_set event set [] = (event, set) ∷ []
put_set event set ((name, old) ∷ events) =
    if text_eq name event then (name, set) ∷ events else (name, old) ∷ put_set event set events

unfoldable pub delete_set : Text → List (Text × Listeners) → List (Text × Listeners)
delete_set event [] = []
delete_set event ((name, set) ∷ events) =
    if text_eq name event then events else (name, set) ∷ delete_set event events

-- A set that is missing is empty.
abbrev pub set_or_new : Option Listeners → Listeners
set_or_new none = []
set_or_new (some set) = set

abbrev pub get_or_create : Text → InternalEventEmitter → Listeners
get_or_create event emitter = set_or_new (find_set event emitter.events)

-- What `on` and `once` share: the event's set, made where it is missing, gets the entry.
unfoldable pub add_listener : Bool → Text → ℕ → InternalEventEmitter → InternalEventEmitter
unfolding put_set
add_listener is_once event listener emitter =
    let entry : StoredListener = record {
      key = emitter.next_key;
      original = listener;
      is_once = is_once;
    } in
    record {
      events = put_set event (get_or_create event emitter ++ (entry ∷ [])) emitter.events;
      next_key = emitter.next_key + 1;
    }

unfoldable pub on : Text → ℕ → InternalEventEmitter → InternalEventEmitter
unfolding add_listener
on event listener emitter = add_listener false event listener emitter

unfoldable pub once : Text → ℕ → InternalEventEmitter → InternalEventEmitter
unfolding add_listener
once event listener emitter = add_listener true event listener emitter

-- The loop of `off`: the first entry that matches goes.
unfoldable pub delete_original : ℕ → Listeners → Listeners
delete_original listener [] = []
delete_original listener (entry ∷ set) =
    if entry.original == listener then set else entry ∷ delete_original listener set

-- `set.delete(record)`
unfoldable pub delete_key : ℕ → Listeners → Listeners
delete_key key [] = []
delete_key key (entry ∷ set) =
    let rest = delete_key key set in if entry.key == key then rest else entry ∷ rest

unfoldable pub off : Text → ℕ → InternalEventEmitter → InternalEventEmitter
unfolding find_set put_set delete_original
off event listener emitter = elim (find_set event emitter.events) [
  | none ↦ emitter
  | some set ↦ record emitter {
    events = put_set event (delete_original listener set) emitter.events;
  }
]

unfoldable pub listener_count : Text → InternalEventEmitter → ℕ
unfolding find_set
listener_count event emitter = elim (find_set event emitter.events) [
  | none ↦ 0
  | some set ↦ length set
]

unfoldable pub remove_all_listeners : Option Text → InternalEventEmitter → InternalEventEmitter
unfolding delete_set
remove_all_listeners none emitter = record emitter { events = [] }
remove_all_listeners (some event) emitter = record emitter {
  events = delete_set event emitter.events;
}

-- The wrapper of `once` deletes its entry. An entry is in one set only, so where that set has left
-- the map there is nothing to delete.
unfoldable pub forget : Text → ℕ → InternalEventEmitter → InternalEventEmitter
unfolding find_set put_set delete_key
forget event key emitter = elim (find_set event emitter.events) [
  | none ↦ emitter
  | some set ↦ record emitter { events = put_set event (delete_key key set) emitter.events }
]

-- What a listener leaves: the emitter, which it may change, the rest of the world, and what it threw.
pub record Reaction (S : Type 0) : Type 0 where
  pub emitter : InternalEventEmitter
  pub state : S
  pub thrown : Option Error

module _ {S A : Type 0} (react : ℕ → A → InternalEventEmitter → S → Reaction S) where
  -- `entry.call(...args)`
  unfoldable pub call_entry : Text → A → StoredListener → InternalEventEmitter → S → Reaction S
  unfolding forget
  call_entry event args entry emitter s =
      react entry.original args (if entry.is_once then forget event entry.key emitter else emitter)
        s

  -- The loop of `emit` over its snapshot. A listener that throws ends it.
  unfoldable pub call_each : Text → A → Listeners → InternalEventEmitter → S → Reaction S
  unfolding call_entry
  call_each event args [] emitter s = record { emitter = emitter; state = s; thrown = none }
  call_each event args (entry ∷ snapshot) emitter s =
      let r = call_entry event args entry emitter s in
      let rest = call_each event args snapshot r.emitter r.state in
      elim r.thrown [ none ↦ rest | some error ↦ r ]

  -- `emit` for the event's set: nothing where it is missing or has `size` 0.
  unfoldable pub emit_set :
      Text → A → Option Listeners → InternalEventEmitter → S → Bool × Reaction S
  unfolding call_each
  emit_set event args none emitter s =
      (false, record { emitter = emitter; state = s; thrown = none })
  emit_set event args (some []) emitter s =
      (false, record { emitter = emitter; state = s; thrown = none })
  emit_set event args (some (entry ∷ set)) emitter s =
      (true, call_each event args (entry ∷ set) emitter s)

  -- The Boolean that it returns, where no listener throws, with what the listeners leave.
  unfoldable pub emit : Text → A → InternalEventEmitter → S → Bool × Reaction S
  unfolding emit_set find_set
  emit event args emitter s = emit_set event args (find_set event emitter.events) emitter s
