-- ===== src/Emitter/Tests.antt =====
-- The theorems about src/internal-emitter.ts at concrete inputs.
use browsercore_http.Common.{
  ℕ, ◌≡◌, refl, arith, true, false, not, none, List, [], ◌∷◌, ◌++◌, ◌==◌, length, Text, codes,
  text_eq,
}
use browsercore_http.Emitter.{
  InternalEventEmitter, Reaction, find_set, put_set, add_listener, on, once, off,
  remove_all_listeners, emit,
}
use browsercore_http.Emitter.Laws.{listeners, calls_of, off-add_listener, emit-calls_of}
use browsercore_http.Emitter.Once.{has_key, emit-once, add_listener-Renews}

abbrev ack : Text
ack = codes "ack"

abbrev nothing : InternalEventEmitter
nothing = record { events = []; next_key = 0 }

-- Listener 5 stays, listener 6 is for one time.
abbrev two_listeners : InternalEventEmitter
two_listeners = once ack 6 (on ack 5 nothing)

off-add_listener_example :
    listeners ack (off ack 7 (add_listener true ack 7 two_listeners)) ≡ listeners ack two_listeners
off-add_listener_example =
    off-add_listener true ack 7 two_listeners
      (unfold once on add_listener put_set find_set text_eq in refl)

-- Each listener notes its call and takes all listeners away.
abbrev clear_all : ℕ → ℕ → InternalEventEmitter → List (ℕ × ℕ) → Reaction (List (ℕ × ℕ))
clear_all l args em log = record {
  emitter = remove_all_listeners none em;
  state = log ++ ((l, args) ∷ []);
  thrown = none;
}

emit-calls_of_example :
    ((emit clear_all ack 3 two_listeners []).1.state ≡ calls_of 3 (listeners ack two_listeners))
    × ((emit clear_all ack 3 two_listeners []).0 ≡ not (length (listeners ack two_listeners) == 0))
emit-calls_of_example =
    emit-calls_of clear_all (λ l args em log. refl) (λ l args em log. refl) ack 3 two_listeners []

-- Each listener registers itself once more, and notes its call.
abbrev again : ℕ → ℕ → InternalEventEmitter → List (ℕ × ℕ) → Reaction (List (ℕ × ℕ))
again l args em log = record {
  emitter = add_listener true ack l em;
  state = log ++ ((l, args) ∷ []);
  thrown = none;
}

emit-once_example : has_key 1 (listeners ack (emit again ack 3 two_listeners []).1.emitter) ≡ false
emit-once_example =
    emit-once again ack (λ l args em log. refl) (λ l args em log. add_listener-Renews true ack l em)
      3 two_listeners [] 1 (unfold once on add_listener in omega arith)
      (unfold once on add_listener put_set find_set text_eq in refl)
