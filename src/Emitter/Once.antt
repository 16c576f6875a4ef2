-- ===== src/Emitter/Once.antt =====
-- src/internal-emitter.ts: `once`.
use browsercore_http.Common.{
  ℕ, ◌≤◌, ◌<◌, ◌≡◌, refl, sym, ap, ◌∙◌, subst, arith, Bool, true, false, ◌||◌, ◌&&◌, Option, none,
  some, [], ◌∷◌, ◌++◌, ◌==◌, if◌then◌else◌, ==→eq, Text, Error, inl, inr, Bool-cases, Option-cases,
}
use browsercore_http.Emitter.{
  StoredListener, Listeners, InternalEventEmitter, find_set, set_or_new, add_listener, delete_key,
  forget, Reaction, call_entry, call_each, emit_set, emit,
}
use browsercore_http.Emitter.Laws.{listeners, listeners-forget, listeners-add_listener}

-- Whether the entry of that identity is there, and whether it is one of `once`.
abbrev pub has_key : ℕ → Listeners → Bool
has_key key [] = false
has_key key (entry ∷ set) = entry.key == key || has_key key set

abbrev pub has_once : ℕ → Listeners → Bool
has_once key [] = false
has_once key (entry ∷ set) = (entry.key == key && entry.is_once) || has_once key set

-- Between two states of an emitter, no entry comes back that is gone: new entries have new identities.
pub record Renews (event : Text) (em em' : InternalEventEmitter) : Type 0 where
  pub later : em.next_key ≤ em'.next_key
  pub gone :
      (key : ℕ)
      → key < em.next_key
      → has_key key (listeners event em) ≡ false
      → has_key key (listeners event em') ≡ false

delete_key-gone : (key : ℕ) (set : Listeners) → has_key key (delete_key key set) ≡ false
unfolding delete_key
delete_key-gone key [] = refl
delete_key-gone key (entry ∷ set) = ground (arith, delete_key-gone key set)

delete_key-kept :
    (key other : ℕ) (set : Listeners)
    → has_key other set ≡ false
    → has_key other (delete_key key set) ≡ false
unfolding delete_key
delete_key-kept key other [] absent = refl
delete_key-kept key other (entry ∷ set) absent =
    ground (arith, absent, delete_key-kept key other set)

forget-Renews :
    (event : Text) (key : ℕ) (em : InternalEventEmitter) → Renews event em (forget event key em)
unfolding forget
forget-Renews event key em = record {
  later = elim (Option-cases (find_set event em.events)) [
    | inl none_ ↦ ground (arith, none_)
    | inr (set, found) ↦ ground (arith, found)
  ];
  gone = λ other old absent.
      ap (has_key other) (listeners-forget event key em)
      ∙ delete_key-kept key other (listeners event em) absent;
}

Renews-refl : (event : Text) (em : InternalEventEmitter) → Renews event em em
Renews-refl event em = record { later = omega arith; gone = λ key old absent. absent }

Renews-trans :
    (event : Text) (em em' em'' : InternalEventEmitter)
    → Renews event em em'
    → Renews event em' em''
    → Renews event em em''
Renews-trans event em em' em'' p q = record {
  later = omega (arith, p.later, q.later);
  gone = λ key old absent. q.gone key (omega (arith, old, p.later)) (p.gone key old absent);
}

forget_if-Renews :
    (event : Text) (key : ℕ) (single : Bool) (em : InternalEventEmitter)
    → Renews event em (if single then forget event key em else em)
forget_if-Renews event key true em = forget-Renews event key em
forget_if-Renews event key false em = Renews-refl event em

add_fresh :
    (key : ℕ) (entry : StoredListener) (set : Listeners)
    → key < entry.key
    → has_key key set ≡ false
    → has_key key (set ++ (entry ∷ [])) ≡ false
add_fresh key entry [] less absent = ground arith
add_fresh key entry (first ∷ set) less absent = ground (arith, absent, add_fresh key entry set less)

-- A listener that registers again on the event of the dispatch renews its entry.
pub add_listener-Renews :
    (is_once : Bool) (event : Text) (listener : ℕ) (em : InternalEventEmitter)
    → Renews event em (add_listener is_once event listener em)
unfolding add_listener
add_listener-Renews is_once event listener em = record {
  later = omega arith;
  gone = λ key old absent.
      ap (has_key key) (listeners-add_listener is_once event listener em)
      ∙ add_fresh key (record { key = em.next_key; original = listener; is_once = is_once })
          (listeners event em) old absent;
}

module _ {S A : Type 0} (react : ℕ → A → InternalEventEmitter → S → Reaction S) (event : Text)
    (returns : (l : ℕ) (args : A) (em : InternalEventEmitter) (s : S)
      → (react l args em s).thrown ≡ none)
    (renews : (l : ℕ) (args : A) (em : InternalEventEmitter) (s : S)
      → Renews event em (react l args em s).emitter) where
  called : A → StoredListener → InternalEventEmitter → S → Reaction S
  called args entry em s = call_entry react event args entry em s

  call_each_step :
      (args : A) (entry : StoredListener) (snapshot : Listeners) (em : InternalEventEmitter) (s : S)
      → call_each react event args (entry ∷ snapshot) em s
        ≡ call_each react event args snapshot
            (called args entry em s).emitter
            (called args entry em s).state
  unfolding called call_each call_entry
  call_each_step args entry snapshot em s =
      let r = call_entry react event args entry em s in
      let rest = call_each react event args snapshot r.emitter r.state in
      ap (λ (o : Option Error). elim o as (λ x. Reaction S) [ none ↦ rest | some error ↦ r ])
        (returns entry.original args (if entry.is_once then forget event entry.key em else em) s)

  called-Renews :
      (args : A) (entry : StoredListener) (em : InternalEventEmitter) (s : S)
      → Renews event em (called args entry em s).emitter
  unfolding called call_entry
  called-Renews args entry em s =
      let before = if entry.is_once then forget event entry.key em else em in
      Renews-trans event em before _ (forget_if-Renews event entry.key entry.is_once em)
        (renews entry.original args before s)

  -- Calling an entry of `once` takes it out.
  called-gone :
      (args : A) (entry : StoredListener) (em : InternalEventEmitter) (s : S)
      → entry.key < em.next_key
      → entry.is_once ≡ true
      → has_key entry.key (listeners event (called args entry em s).emitter) ≡ false
  unfolding called call_entry
  called-gone args entry em s old single =
      let before = forget event entry.key em in
      let absent : has_key entry.key (listeners event before) ≡ false =
        ap (has_key entry.key) (listeners-forget event entry.key em)
        ∙ delete_key-gone entry.key (listeners event em) in
      let later = (forget-Renews event entry.key em).later in
      ap
        (λ (b : Bool). has_key entry.key (
          listeners event
            (react entry.original args (if b then forget event entry.key em else em) s).emitter))
        single
      ∙ (renews entry.original args before s).gone entry.key (omega (arith, old, later)) absent

  call_each-Renews :
      (args : A) (snapshot : Listeners) (em : InternalEventEmitter) (s : S)
      → Renews event em (call_each react event args snapshot em s).emitter
  unfolding call_each
  call_each-Renews args [] em s = Renews-refl event em
  call_each-Renews args (entry ∷ snapshot) em s =
      let r = called args entry em s in
      subst (λ (x : Reaction S). Renews event em x.emitter)
        (sym (call_each_step args entry snapshot em s))
        (Renews-trans event em r.emitter _ (called-Renews args entry em s)
          (call_each-Renews args snapshot r.emitter r.state))

  call_each-gone :
      (args : A) (snapshot : Listeners) (em : InternalEventEmitter) (s : S) (key : ℕ)
      → key < em.next_key
      → has_once key snapshot ≡ true
      → has_key key (listeners event (call_each react event args snapshot em s).emitter) ≡ false
  call_each-gone args [] em s key old single = cc
  call_each-gone args (entry ∷ snapshot) em s key old single =
      let r = called args entry em s in
      let later = (called-Renews args entry em s).later in
      subst (λ (x : Reaction S). has_key key (listeners event x.emitter) ≡ false)
        (sym (call_each_step args entry snapshot em s))
        (elim (Bool-cases (entry.key == key && entry.is_once)) [
          | inl mine ↦
              let same : entry.key ≡ key = ==→eq entry.key key (ground (arith, mine)) in
              let fired : entry.is_once ≡ true = ground (arith, mine) in
              let gone : has_key key (listeners event r.emitter) ≡ false =
                subst (λ (k : ℕ). has_key k (listeners event r.emitter) ≡ false) same
                  (called-gone args entry em s (omega (arith, old, same)) fired) in
              (call_each-Renews args snapshot r.emitter r.state).gone key
                (omega (arith, old, later)) gone
          | inr other ↦
              call_each-gone args snapshot r.emitter r.state key (omega (arith, old, later))
                (ground (arith, single, other))
        ])

  emit_set-gone :
      (args : A) (o : Option Listeners) (em : InternalEventEmitter) (s : S) (key : ℕ)
      → key < em.next_key
      → has_once key (set_or_new o) ≡ true
      → has_key key (listeners event (emit_set react event args o em s).1.emitter) ≡ false
  unfolding emit_set
  emit_set-gone args none em s key old single = cc
  emit_set-gone args (some []) em s key old single = cc
  emit_set-gone args (some (entry ∷ set)) em s key old single =
      call_each-gone args (entry ∷ set) em s key old single

  -- A listener that `once` registered is not registered any more when `emit` is through, where no
  -- listener throws, and whatever else the listeners register and take away.
  pub emit-once :
      (args : A) (em : InternalEventEmitter) (s : S) (key : ℕ)
      → key < em.next_key
      → has_once key (listeners event em) ≡ true
      → has_key key (listeners event (emit react event args em s).1.emitter) ≡ false
  unfolding emit
  emit-once args em s key old single =
      emit_set-gone args (find_set event em.events) em s key old single
