-- ===== src/Stream/Promises.antt =====
-- src/stream/stream.ts: the promises of the responses, in the map of the streams and settled.
pub mod Handlers
pub mod Frames
pub mod Pushes
pub mod Rejections
pub mod Alike
pub mod Queues
pub mod Runs
use browsercore_http.Common.{
  true, false, ℕ, ◌+◌, ◌≤◌, ◌≡◌, ◌≢◌, refl, sym, ap, ◌∙◌, arith, ◌==◌, ==→eq, if◌then◌else◌, Option,
  none, some, List, [], ◌∷◌, ◌++◌, inl, inr, Bool-cases, Option-cases,
}
use browsercore_http.Common.Table
use browsercore_http.Common.Table.Laws.{
  find_here, find_there, find-set, find-set_other, find-delete_other, find-delete_missing,
}
use browsercore_http.Stream.Types.{Manager, ManagedStream, Streams, Settlement, resolved, rejected}

-- 1 where the promise is that of `resolver`.
abbrev pub counted : ℕ → Option ℕ → ℕ
counted p none = 0
counted p (some r) = if r == p then 1 else 0

-- How many streams hold the promise.
abbrev pub registrations : ℕ → Streams → ℕ
registrations p [] = 0
registrations p ((id, s) ∷ streams) = counted p s.resolver + registrations p streams

abbrev pub promise_of : Settlement → ℕ
promise_of (resolved r response) = r
promise_of (rejected r error) = r

-- How often the promise has been settled.
abbrev pub settlements : ℕ → List Settlement → ℕ
settlements p [] = 0
settlements p (x ∷ settled) = counted p (some (promise_of x)) + settlements p settled

abbrev pub holds : ℕ → Manager → ℕ
holds p m = settlements p m.settled + registrations p m.streams

pub settlements-append :
    (p : ℕ) (xs ys : List Settlement)
    → settlements p (xs ++ ys) ≡ settlements p xs + settlements p ys
settlements-append p [] ys = omega arith
settlements-append p (x ∷ xs) ys = omega (arith, settlements-append p xs ys)

-- The key of a stream is its id, and no key stands twice.
abbrev pub IsKeyed : Streams → Type 0
IsKeyed [] = Unit {0}
IsKeyed ((id, s) ∷ streams) = (s.id ≡ id) × (Table.find id streams ≡ none) × IsKeyed streams

pub registrations-set :
    (p k : ℕ) (s : ManagedStream) (streams : Streams)
    → registrations p (Table.set k s streams) ≤ registrations p streams + counted p s.resolver
unfolding Table.set
registrations-set p k s [] = omega arith
registrations-set p k s ((id, t) ∷ streams) = elim (Bool-cases (id == k)) [
  | inl here ↦ rw here (omega arith)
  | inr there ↦ rw there (omega (arith, registrations-set p k s streams))
]

-- The stream that is found at the head, or further on.
found_here :
    (id k : ℕ) (u t : ManagedStream) (streams : Streams)
    → (id == k) ≡ true
    → Table.find k ((id, u) ∷ streams) ≡ some t
    → u ≡ t
found_here id k u t streams here found =
    let e : some u ≡ some t = sym (find_here id k u streams here) ∙ found in cc

found_there :
    (id k : ℕ) (u t : ManagedStream) (streams : Streams)
    → (id == k) ≡ false
    → Table.find k ((id, u) ∷ streams) ≡ some t
    → Table.find k streams ≡ some t
found_there id k u t streams there found = sym (find_there id k u streams there) ∙ found

-- In place of a stream that is there.
pub registrations-set_found :
    (p k : ℕ) (s t : ManagedStream) (streams : Streams)
    → Table.find k streams ≡ some t
    → registrations p (Table.set k s streams) + counted p t.resolver
      ≡ registrations p streams + counted p s.resolver
unfolding Table.set Table.find
registrations-set_found p k s t [] found = absurd (cc)
registrations-set_found p k s t ((id, u) ∷ streams) found = elim (Bool-cases (id == k)) [
  | inl here ↦
      rw (Table.set, here)
        (omega (
          arith,
          ap (λ (x : ManagedStream). counted p x.resolver) (found_here id k u t streams here found),
        ))
  | inr there ↦
      rw (Table.set, there)
        (omega (
          arith,
          registrations-set_found p k s t streams (found_there id k u t streams there found),
        ))
]

pub registrations-delete :
    (p k : ℕ) (t : ManagedStream) (streams : Streams)
    → Table.find k streams ≡ some t
    → registrations p (Table.delete k streams) + counted p t.resolver ≡ registrations p streams
unfolding Table.delete Table.find
registrations-delete p k t [] found = absurd (cc)
registrations-delete p k t ((id, u) ∷ streams) found = elim (Bool-cases (id == k)) [
  | inl here ↦
      rw (Table.delete, here)
        (omega (
          arith,
          ap (λ (x : ManagedStream). counted p x.resolver) (found_here id k u t streams here found),
        ))
  | inr there ↦
      rw (Table.delete, there)
        (omega
          (arith, registrations-delete p k t streams (found_there id k u t streams there found)))
]

pub find-IsKeyed :
    (k : ℕ) (t : ManagedStream) (streams : Streams)
    → IsKeyed streams
    → Table.find k streams ≡ some t
    → t.id ≡ k
unfolding Table.find
find-IsKeyed k t [] keyed found = absurd (cc)
find-IsKeyed k t ((id, u) ∷ streams) (same, fresh, keyed) found = elim (Bool-cases (id == k)) [
  | inl here ↦
      sym (ap (λ (x : ManagedStream). x.id) (found_here id k u t streams here found))
      ∙ same
      ∙ ==→eq id k here
  | inr there ↦ find-IsKeyed k t streams keyed (found_there id k u t streams there found)
]

pub set-IsKeyed :
    (k : ℕ) (s : ManagedStream) (streams : Streams)
    → s.id ≡ k
    → IsKeyed streams
    → IsKeyed (Table.set k s streams)
unfolding Table.set Table.find
set-IsKeyed k s [] e keyed = (e, refl, tt)
set-IsKeyed k s ((id, u) ∷ streams) e (same, fresh, keyed) = elim (Bool-cases (id == k)) [
  | inl here ↦ rw (Table.set, here) (e ∙ sym (==→eq id k here), fresh, keyed)
  | inr there ↦
      let other : id ≢ k = ground arith in
      rw (Table.set, there)
        (same, find-set_other id k s streams other ∙ fresh, set-IsKeyed k s streams e keyed)
]

pub delete-IsKeyed :
    (k : ℕ) (streams : Streams) → IsKeyed streams → IsKeyed (Table.delete k streams)
unfolding Table.delete
delete-IsKeyed k [] keyed = tt
delete-IsKeyed k ((id, u) ∷ streams) (same, fresh, keyed) = elim (Bool-cases (id == k)) [
  | inl here ↦ rw (Table.delete, here) keyed
  | inr there ↦
      rw (Table.delete, there)
        (same, find-delete_missing id k streams fresh, delete-IsKeyed k streams keyed)
]
