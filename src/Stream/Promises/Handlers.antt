-- ===== src/Stream/Promises/Handlers.antt =====
-- src/stream/stream.ts: what each function does to the promises.
use browsercore_http.Common.{
  ℕ, ◌≤◌, ◌≡◌, refl, sym, ap, ◌∙◌, arith, Option, some, List, [], ◌∷◌, ◌++◌, inl, inr, Bool-cases,
  Option-cases, Error, Text, not, ◌||◌, subst, append-nil,
}
use browsercore_http.Common.Table
use browsercore_http.Common.Table.Laws.{find-set}
use browsercore_http.Stream.Types.{Manager, ManagedStream, rejected, resolved, Settlement}
use browsercore_http.Stream.Settle.{
  emit_event, finalize_stream, reject_stream, maybe_resolve_response, response_of,
}
use browsercore_http.Stream.Promises.{
  counted, registrations, settlements, settlements-append, holds, IsKeyed, registrations-set_found,
  registrations-delete, find-IsKeyed, set-IsKeyed, delete-IsKeyed,
}

-- The map stays keyed, and no promise is registered or settled more often than before.
pub record Owes (m n : Manager) : Type 0 where
  pub keyed : IsKeyed n.streams
  pub counts : (p : ℕ) → holds p n ≤ holds p m

pub Owes-trans : (l m n : Manager) → Owes l m → Owes m n → Owes l n
Owes-trans l m n a b = record {
  keyed = b.keyed;
  counts = λ p. omega (arith, a.counts p, b.counts p);
}

-- Where the streams and the settled promises are the same.
pub Owes-same :
    (m n : Manager) → n.streams ≡ m.streams → n.settled ≡ m.settled → IsKeyed m.streams → Owes m n
Owes-same m n streams settled keyed = record {
  keyed = subst IsKeyed (sym streams) keyed;
  counts = λ p. omega (arith, ap (registrations p) streams, ap (settlements p) settled);
}

-- A stream that is there changes, and keeps its id and its promise.
pub update-Owes :
    (m n : Manager) (k : ℕ) (s t : ManagedStream)
    → IsKeyed m.streams
    → Table.find k m.streams ≡ some s
    → t.id ≡ s.id
    → t.resolver ≡ s.resolver
    → n.streams ≡ Table.set t.id t m.streams
    → n.settled ≡ m.settled
    → Owes m n
update-Owes m n k s t keyed found same_id same_promise streams settled =
    let at : s.id ≡ k = find-IsKeyed k s m.streams keyed found in
    let found' : Table.find t.id m.streams ≡ some s =
      subst (λ (j : ℕ). Table.find j m.streams ≡ some s) (sym (same_id ∙ at)) found in
    record {
      keyed = subst IsKeyed (sym streams) (set-IsKeyed t.id t m.streams refl keyed);
      counts = λ p. omega (
        arith,
        ap (registrations p) streams,
        ap (settlements p) settled,
        ap (counted p) same_promise,
        registrations-set_found p t.id t s m.streams found',
      );
    }

-- A stream leaves the map, and its promise is settled.
settle-Owes :
    (m n : Manager) (s : ManagedStream) (settled : List Settlement)
    → IsKeyed m.streams
    → Table.find s.id m.streams ≡ some s
    → ((p : ℕ) → settlements p settled ≤ counted p s.resolver)
    → n.streams ≡ Table.delete s.id m.streams
    → n.settled ≡ m.settled ++ settled
    → Owes m n
settle-Owes m n s settled keyed found few streams more = record {
  keyed = subst IsKeyed (sym streams) (delete-IsKeyed s.id m.streams keyed);
  counts = λ p. omega (
    arith,
    few p,
    ap (registrations p) streams,
    ap (settlements p) more,
    settlements-append p m.settled settled,
    registrations-delete p s.id s m.streams found,
  );
}

pub reject_stream-Owes :
    (s : ManagedStream) (e : Error) (m : Manager)
    → IsKeyed m.streams
    → Table.find s.id m.streams ≡ some s
    → Owes m (reject_stream s e m)
unfolding reject_stream finalize_stream emit_event
reject_stream-Owes s e m keyed found = elim (Option-cases s.resolver) [
  | inl none_ ↦
      rw (reject_stream, none_)
        (settle-Owes m _ s [] keyed found (λ p. omega arith) refl (sym (append-nil m.settled)))
  | inr (r, registered) ↦
      rw (reject_stream, registered)
        (settle-Owes m _ s (rejected r e ∷ []) keyed found
          (λ p. omega (arith, ap (counted p) registered)) refl refl)
]

module _ (to_number : Text → Option ℕ) where
  -- `s` is the stream that the map has under its id.
  pub maybe_resolve_response-Owes :
      (s : ManagedStream) (m : Manager)
      → IsKeyed m.streams
      → Table.find s.id m.streams ≡ some s
      → Owes m (maybe_resolve_response to_number s m)
  unfolding maybe_resolve_response finalize_stream emit_event
  maybe_resolve_response-Owes s m keyed found =
      elim (Bool-cases (not s.headers_complete || not s.end_stream_seen)) [
        | inl early ↦ rw (maybe_resolve_response, early) (Owes-same m m refl refl keyed)
        | inr complete ↦ elim (Option-cases s.resolver) [
          | inl none_ ↦ rw (maybe_resolve_response, complete, none_) (Owes-same m m refl refl keyed)
          | inr (r, registered) ↦ elim (Bool-cases s.is_push_promise) [
            | inl pushed ↦
                rw (maybe_resolve_response, complete, registered, pushed)
                  (settle-Owes m _ s (resolved r (response_of to_number s) ∷ []) keyed found
                    (λ p. omega (arith, ap (counted p) registered)) refl refl)
            | inr plain ↦
                rw (maybe_resolve_response, complete, registered, plain)
                  (settle-Owes m _ s (resolved r (response_of to_number s) ∷ []) keyed found
                    (λ p. omega (arith, ap (counted p) registered)) refl refl)
          ]
        ]
      ]

  -- A stream that is there changes, and its promise is resolved where its response is complete.
  pub update_resolve-Owes :
      (l n : Manager) (k : ℕ) (s t : ManagedStream)
      → IsKeyed l.streams
      → Table.find k l.streams ≡ some s
      → t.id ≡ s.id
      → t.resolver ≡ s.resolver
      → n.streams ≡ Table.set t.id t l.streams
      → n.settled ≡ l.settled
      → Owes l (maybe_resolve_response to_number t n)
  update_resolve-Owes l n k s t keyed found same_id same_promise streams settled =
      let changed = update-Owes l n k s t keyed found same_id same_promise streams settled in
      let here : Table.find t.id n.streams ≡ some t =
        ap (Table.find t.id) streams ∙ find-set t.id t l.streams in
      Owes-trans l n _ changed (maybe_resolve_response-Owes t n changed.keyed here)
