-- ===== src/Emitter/Laws.antt =====
-- src/internal-emitter.ts: registering, and what `emit` calls.
use browsercore_http.Common.{
  ℕ, ◌≡◌, refl, sym, ap, ◌∙◌, subst, arith, Bool, false, not, ◌||◌, Option, none, some, List, [],
  ◌∷◌, ◌++◌, append-nil, append_assoc, ◌==◌, if◌then◌else◌, length, Text, text_eq, text_eq_refl,
  text_eq→eq, Error, inl, inr, Bool-cases, Option-cases,
}
use browsercore_http.Emitter.{
  StoredListener, Listeners, InternalEventEmitter, find_set, put_set, set_or_new, get_or_create,
  add_listener, delete_original, delete_key, off, forget, Reaction, call_entry, call_each, emit_set,
  emit,
}

-- The listeners of an event, in the order of registration.
abbrev pub listeners : Text → InternalEventEmitter → Listeners
listeners event emitter = get_or_create event emitter

find_set-put_set :
    (event : Text) (set : Listeners) (events : List (Text × Listeners))
    → find_set event (put_set event set events) ≡ some set
unfolding find_set put_set
find_set-put_set event set [] = rw (text_eq_refl event) refl
find_set-put_set event set ((name, old) ∷ events) = elim (Bool-cases (text_eq name event)) [
  | inl here ↦ rw (put_set, here, find_set, here) refl
  | inr there ↦ rw (put_set, there, find_set, there) (find_set-put_set event set events)
]

find_set-put_set_other :
    (event other : Text) (set : Listeners) (events : List (Text × Listeners))
    → text_eq event other ≡ false
    → find_set other (put_set event set events) ≡ find_set other events
unfolding find_set put_set
find_set-put_set_other event other set [] apart = rw apart refl
find_set-put_set_other event other set ((name, old) ∷ events) apart =
    elim (Bool-cases (text_eq name event)) [
      | inl here ↦
          let differs : text_eq name other ≡ false =
            subst (λ (x : Text). text_eq x other ≡ false) (sym (text_eq→eq name event here))
              apart in
          rw (put_set, here, find_set, differs) refl
      | inr there ↦ ground (arith, there, find_set-put_set_other event other set events apart)
    ]

listeners-put_set :
    (event : Text) (set : Listeners) (emitter : InternalEventEmitter)
    → listeners event (record emitter { events = put_set event set emitter.events }) ≡ set
listeners-put_set event set emitter = ap set_or_new (find_set-put_set event set emitter.events)

pub listeners-add_listener :
    (is_once : Bool) (event : Text) (listener : ℕ) (emitter : InternalEventEmitter)
    → listeners event (add_listener is_once event listener emitter)
      ≡ listeners event emitter
        ++ (record { key = emitter.next_key; original = listener; is_once = is_once } ∷ [])
unfolding add_listener
listeners-add_listener is_once event listener emitter =
    ap set_or_new (find_set-put_set event _ emitter.events)

-- Whether a listener is registered, by its own reference.
abbrev pub has_original : ℕ → Listeners → Bool
has_original listener [] = false
has_original listener (entry ∷ set) = entry.original == listener || has_original listener set

delete_original-last :
    (listener : ℕ) (entry : StoredListener) (set : Listeners)
    → has_original listener set ≡ false
    → entry.original ≡ listener
    → delete_original listener (set ++ (entry ∷ [])) ≡ set
unfolding delete_original
delete_original-last listener entry [] absent same = ground (arith, same)
delete_original-last listener entry (first ∷ set) absent same =
    elim (Bool-cases (first.original == listener)) [
      | inl here ↦ absurd (ground (arith, absent, here))
      | inr there ↦
          rw (delete_original, there)
            (ap (λ (l : Listeners). first ∷ l)
              (delete_original-last listener entry set (ground (arith, absent, there)) same))
    ]

-- An operation that puts another set where the event has one.
abbrev replaced :
    (Listeners → Listeners) → Text → InternalEventEmitter → Option Listeners → InternalEventEmitter
replaced change event emitter none = emitter
replaced change event emitter (some set) = record emitter {
  events = put_set event (change set) emitter.events;
}

listeners-replaced :
    (change : Listeners → Listeners) (event : Text) (emitter : InternalEventEmitter)
    → change [] ≡ []
    → listeners event (replaced change event emitter (find_set event emitter.events))
      ≡ change (listeners event emitter)
listeners-replaced change event emitter empty =
    elim (Option-cases (find_set event emitter.events)) [
      | inl none_ ↦
          ap (λ o. listeners event (replaced change event emitter o)) none_
          ∙ ap set_or_new none_
          ∙ sym empty
          ∙ ap (λ o. change (set_or_new o)) (sym none_)
      | inr (set, found) ↦
          ap (λ o. listeners event (replaced change event emitter o)) found
          ∙ listeners-put_set event (change set) emitter
          ∙ ap (λ o. change (set_or_new o)) (sym found)
    ]

off-replaced :
    (event : Text) (listener : ℕ) (emitter : InternalEventEmitter) (o : Option Listeners)
    → elim o as (λ x. InternalEventEmitter) [
      | none ↦ emitter
      | some set ↦ record emitter {
        events = put_set event (delete_original listener set) emitter.events;
      }
    ]
      ≡ replaced (delete_original listener) event emitter o
off-replaced event listener emitter none = refl
off-replaced event listener emitter (some set) = refl

listeners-off :
    (event : Text) (listener : ℕ) (emitter : InternalEventEmitter)
    → listeners event (off event listener emitter)
      ≡ delete_original listener (listeners event emitter)
unfolding off delete_original
listeners-off event listener emitter =
    ap (listeners event) (off-replaced event listener emitter (find_set event emitter.events))
    ∙ listeners-replaced (delete_original listener) event emitter refl

forget-replaced :
    (event : Text) (key : ℕ) (emitter : InternalEventEmitter) (o : Option Listeners)
    → elim o as (λ x. InternalEventEmitter) [
      | none ↦ emitter
      | some set ↦ record emitter { events = put_set event (delete_key key set) emitter.events }
    ]
      ≡ replaced (delete_key key) event emitter o
forget-replaced event key emitter none = refl
forget-replaced event key emitter (some set) = refl

pub listeners-forget :
    (event : Text) (key : ℕ) (emitter : InternalEventEmitter)
    → listeners event (forget event key emitter) ≡ delete_key key (listeners event emitter)
unfolding forget delete_key
listeners-forget event key emitter =
    ap (listeners event) (forget-replaced event key emitter (find_set event emitter.events))
    ∙ listeners-replaced (delete_key key) event emitter refl

-- `off` takes back the registration of a listener that was not registered, be it by `on` or by
-- `once`, and leaves the other listeners of the event, in their order.
pub off-add_listener :
    (is_once : Bool) (event : Text) (listener : ℕ) (emitter : InternalEventEmitter)
    → has_original listener (listeners event emitter) ≡ false
    → listeners event (off event listener (add_listener is_once event listener emitter))
      ≡ listeners event emitter
off-add_listener is_once event listener emitter absent =
    listeners-off event listener (add_listener is_once event listener emitter)
    ∙ ap (delete_original listener) (listeners-add_listener is_once event listener emitter)
    ∙ delete_original-last listener _ (listeners event emitter) absent refl

-- The originals of the listeners, each with the arguments of the call.
abbrev pub calls_of {ℓ} : {A : Type ℓ} → A → Listeners → List (ℕ × A)
calls_of args [] = []
calls_of args (entry ∷ set) = (entry.original, args) ∷ calls_of args set

module _ {A : Type 0}
    (react : ℕ → A → InternalEventEmitter → List (ℕ × A) → Reaction (List (ℕ × A)))
    (returns : (l : ℕ) (args : A) (em : InternalEventEmitter) (log : List (ℕ × A))
      → (react l args em log).thrown ≡ none)
    (notes : (l : ℕ) (args : A) (em : InternalEventEmitter) (log : List (ℕ × A))
      → (react l args em log).state ≡ log ++ ((l, args) ∷ [])) where
  call_each_next :
      (event : Text) (args : A) (entry : StoredListener) (snapshot : Listeners)
      (em : InternalEventEmitter) (log : List (ℕ × A))
      → let r = call_entry react event args entry em log in
        call_each react event args (entry ∷ snapshot) em log
        ≡ call_each react event args snapshot r.emitter r.state
  unfolding call_each call_entry
  call_each_next event args entry snapshot em log =
      let r = call_entry react event args entry em log in
      let rest = call_each react event args snapshot r.emitter r.state in
      ap
        (λ (o : Option Error). elim o as (λ x. Reaction (List (ℕ × A))) [
          | none ↦ rest
          | some error ↦ r
        ])
        (returns entry.original args (if entry.is_once then forget event entry.key em else em) log)

  call_each-calls_of :
      (event : Text) (args : A) (snapshot : Listeners) (em : InternalEventEmitter)
      (log : List (ℕ × A))
      → (call_each react event args snapshot em log).state ≡ log ++ calls_of args snapshot
  unfolding call_each call_entry
  call_each-calls_of event args [] em log = sym (append-nil log)
  call_each-calls_of event args (entry ∷ snapshot) em log =
      let r = call_entry react event args entry em log in
      ap (λ (x : Reaction (List (ℕ × A))). x.state)
        (call_each_next event args entry snapshot em log)
      ∙ call_each-calls_of event args snapshot r.emitter r.state
      ∙ ap (λ (l : List (ℕ × A)). l ++ calls_of args snapshot)
          (notes entry.original args (if entry.is_once then forget event entry.key em else em) log)
      ∙ append_assoc log ((entry.original, args) ∷ []) (calls_of args snapshot)

  emit_set-calls_of :
      (event : Text) (args : A) (o : Option Listeners) (em : InternalEventEmitter)
      (log : List (ℕ × A))
      → ((emit_set react event args o em log).1.state ≡ log ++ calls_of args (set_or_new o))
        × ((emit_set react event args o em log).0 ≡ not (length (set_or_new o) == 0))
  unfolding emit_set
  emit_set-calls_of event args none em log = (sym (append-nil log), refl)
  emit_set-calls_of event args (some []) em log = (sym (append-nil log), refl)
  emit_set-calls_of event args (some (entry ∷ set)) em log =
      (call_each-calls_of event args (entry ∷ set) em log, ground arith)

  -- `emit` calls every listener that is registered when it begins, once, with the arguments and in
  -- the order of registration, whatever the listeners do to the emitter meanwhile, where none of them
  -- throws; and it returns whether there was one.
  pub emit-calls_of :
      (event : Text) (args : A) (em : InternalEventEmitter) (log : List (ℕ × A))
      → ((emit react event args em log).1.state ≡ log ++ calls_of args (listeners event em))
        × ((emit react event args em log).0 ≡ not (length (listeners event em) == 0))
  unfolding emit
  emit-calls_of event args em log = emit_set-calls_of event args (find_set event em.events) em log
