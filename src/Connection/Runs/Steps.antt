-- ===== src/Connection/Runs/Steps.antt =====
-- src/connection.ts: what each step of a connection keeps.
use browsercore_http.Common.{
  ◌≡◌, refl, sym, ap, subst, Bool, true, false, not, ◌&&◌, ◌||◌, List, [], ◌∷◌, ◌++◌, ltb, ◌⊎◌, inl,
  inr, if◌then◌else◌, length,
}
use browsercore_http.Connection.State.{Connection, RequestCall, refuse, closing_error}
use browsercore_http.Connection.Calls.{acquire_slot, request, resume}
use browsercore_http.Connection.Hearing.{List-cases}
use browsercore_http.Connection.Runs.Advances.{Advances, same_state, beside}

pub if-cases {ℓ} :
    {A : Type ℓ} (b : Bool) (x y : A)
    → ((b ≡ true) × ((if b then x else y) ≡ x)) ⊎ ((b ≡ false) × ((if b then x else y) ≡ y))
if-cases true x y = inl (refl, refl)
if-cases false x y = inr (refl, refl)

all_false : (p q r : Bool) → (not p && (not q && not r)) ≡ true → (q ≡ false) × (r ≡ false)
all_false p false false h = (refl, refl)
all_false true false true h = cc
all_false true true r h = cc
all_false false false true h = cc
all_false false true r h = cc

pub either_false : (p q : Bool) → (p || q) ≡ false → (p ≡ false) × (q ≡ false)
either_false false false h = (refl, refl)
either_false true q h = cc
either_false false true h = cc

-- A request gets a slot, or waits behind streams that are open.
pub acquire_slot-cases :
    (call : RequestCall) (c : Connection)
    → ((c.closed ≡ false)
        × (ltb (length c.active_client_streams) c.manager.max_concurrent_streams ≡ false)
        × (acquire_slot call c ≡ record c { slot_waiters = c.slot_waiters ++ (call ∷ []) }))
      ⊎ (acquire_slot call c ≡ record c { granted = c.granted ++ (call ∷ []) })
unfolding acquire_slot
acquire_slot-cases call c =
    let room = ltb (length c.active_client_streams) c.manager.max_concurrent_streams in
    elim (if-cases (not c.closing && (not c.closed && not room))
      (record c { slot_waiters = c.slot_waiters ++ (call ∷ []) })
      (record c { granted = c.granted ++ (call ∷ []) })) [
        | inl (waits, e) ↦
            let (live, full) = all_false c.closing c.closed room waits in inl (live, full, e)
        | inr (free, e) ↦ inr e
      ]

acquire_slot-Advances : (call : RequestCall) (c : Connection) → Advances c (acquire_slot call c)
acquire_slot-Advances call c = elim (acquire_slot-cases call c) [
  | inl (live, full, e) ↦
      subst (λ (d : Connection). Advances c d) (sym e)
        (record { stays_closed = λ h. h; stays_closing = λ h. h; quiet = λ q h. absurd (cc) })
  | inr e ↦
      subst (λ (d : Connection). Advances c d) (sym e)
        (record { stays_closed = λ h. h; stays_closing = λ h. h; quiet = λ q h. q h })
]

pub request-Advances : (call : RequestCall) (c : Connection) → Advances c (request call c)
unfolding request refuse
request-Advances call c =
    elim (if-cases (c.closing || c.closed) (refuse call.resolver (closing_error c) c)
      (acquire_slot call c)) [
        | inl (shut, e) ↦
            subst (λ (d : Connection). Advances c d) (sym e)
              (beside c (refuse call.resolver (closing_error c) c) refl (λ h. h) refl refl)
        | inr (live, e) ↦
            subst (λ (d : Connection). Advances c d) (sym e) (acquire_slot-Advances call c)
      ]

resume_eq :
    (c : Connection) (call : RequestCall) (calls : List RequestCall)
    → c.woken ≡ call ∷ calls
    → resume c ≡ acquire_slot call (record c { woken = calls })
unfolding resume
resume_eq c call calls e =
    ap
      (λ (l : List RequestCall). elim l as (λ x. Connection) [
        | [] ↦ c
        | w ∷ ws ↦ acquire_slot w (record c { woken = ws })
      ])
      e

resume_none : (c : Connection) → c.woken ≡ [] → resume c ≡ c
unfolding resume
resume_none c e =
    ap
      (λ (l : List RequestCall). elim l as (λ x. Connection) [
        | [] ↦ c
        | w ∷ ws ↦ acquire_slot w (record c { woken = ws })
      ])
      e

pub resume-Advances : (c : Connection) → Advances c (resume c)
resume-Advances c = elim (List-cases c.woken) [
  | inl none_ ↦ same_state c (resume c) (resume_none c none_)
  | inr (call, calls, some_) ↦
      let fewer : Connection = record c { woken = calls } in
      let s = acquire_slot-Advances call fewer in
      subst (λ (d : Connection). Advances c d) (sym (resume_eq c call calls some_))
        (record { stays_closed = s.stays_closed; stays_closing = s.stays_closing; quiet = s.quiet })
]
