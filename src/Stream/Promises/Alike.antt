-- ===== src/Stream/Promises/Alike.antt =====
-- src/stream/stream.ts: what draining the send queues and SETTINGS leave alone in the streams.
use browsercore_http.Common.{
  ℕ, zero, suc, ◌≡◌, refl, sym, ap, ◌∙◌, arith, ◌==◌, none, [], ◌∷◌, inl, inr, Bool-cases, subst,
}
use browsercore_http.Common.Int.{ℤ}
use browsercore_http.Common.Table
use browsercore_http.Common.Table.Laws.{find_here, find_there}
use browsercore_http.Stream.Types.{Manager, ManagedStream, Streams}
use browsercore_http.Stream.Drain.{Draining, send_chunk, drain_loop, drain, is_blocked, send_cap}
use browsercore_http.Stream.Settings.{drain_each, grow_local, grow_each}
use browsercore_http.Stream.Promises.{counted, registrations, settlements, IsKeyed}
use browsercore_http.Stream.Promises.Handlers.{Owes}

-- A stream that has the same id and the same promise.
abbrev pub IsAlike : ManagedStream → ManagedStream → Type 0
IsAlike s t = (t.id ≡ s.id) × (t.resolver ≡ s.resolver)

drain_loop-IsAlike :
    (fuel size : ℕ) (d : Draining) → IsAlike d.stream (drain_loop fuel size d).stream
unfolding drain_loop send_chunk
drain_loop-IsAlike zero size d = (refl, refl)
drain_loop-IsAlike (suc fuel) size d = elim (Bool-cases (is_blocked size d)) [
  | inl blocked ↦ rw (drain_loop, blocked) (refl, refl)
  | inr on ↦ rw (drain_loop, on) (drain_loop-IsAlike fuel size (send_chunk (send_cap size d) d))
]

pub drain-IsAlike : (size : ℕ) (d : Draining) → IsAlike d.stream (drain size d).stream
unfolding drain
drain-IsAlike size d = drain_loop-IsAlike _ size d

-- The same keys in the same order, with streams alike.
abbrev pub AreAlike : Streams → Streams → Type 0
AreAlike [] [] = Unit {0}
AreAlike [] ((j, t) ∷ ts) = ⊥
AreAlike ((i, s) ∷ ss) [] = ⊥
AreAlike ((i, s) ∷ ss) ((j, t) ∷ ts) = (j ≡ i) × IsAlike s t × AreAlike ss ts

pub drain_each-AreAlike :
    (size : ℕ) (window : ℤ) (streams : Streams)
    → AreAlike streams (drain_each size window streams).streams
unfolding drain_each
drain_each-AreAlike size window [] = tt
drain_each-AreAlike size window ((id, s) ∷ streams) =
    (let d = drain size (record { window = window; stream = s; frames = [] }) in
      (refl, drain-IsAlike size _, drain_each-AreAlike size d.window streams))

pub grow_each-AreAlike :
    (delta : ℤ) (streams : Streams) → AreAlike streams (grow_each delta streams)
unfolding grow_each grow_local
grow_each-AreAlike delta [] = tt
grow_each-AreAlike delta ((id, s) ∷ streams) =
    (refl, (refl, refl), grow_each-AreAlike delta streams)

AreAlike-registrations :
    (p : ℕ) (ss ts : Streams) → AreAlike ss ts → registrations p ts ≡ registrations p ss
AreAlike-registrations p [] [] h = refl
AreAlike-registrations p [] ((j, t) ∷ ts) h = absurd h
AreAlike-registrations p ((i, s) ∷ ss) [] h = absurd h
AreAlike-registrations p ((i, s) ∷ ss) ((j, t) ∷ ts) (key, (same_id, same_promise), h) =
    omega (arith, ap (counted p) same_promise, AreAlike-registrations p ss ts h)

AreAlike-find :
    (k : ℕ) (ss ts : Streams) → AreAlike ss ts → Table.find k ss ≡ none → Table.find k ts ≡ none
unfolding Table.find
AreAlike-find k [] [] h missing = refl
AreAlike-find k [] ((j, t) ∷ ts) h missing = absurd h
AreAlike-find k ((i, s) ∷ ss) [] h missing = absurd h
AreAlike-find k ((i, s) ∷ ss) ((j, t) ∷ ts) (key, alike, h) missing = elim (Bool-cases (i == k)) [
  | inl here ↦ absurd (let e = sym (find_here i k s ss here) ∙ missing in cc)
  | inr there ↦
      find_there j k t ts (rw key there)
      ∙ AreAlike-find k ss ts h (sym (find_there i k s ss there) ∙ missing)
]

AreAlike-IsKeyed : (ss ts : Streams) → AreAlike ss ts → IsKeyed ss → IsKeyed ts
AreAlike-IsKeyed [] [] h keyed = tt
AreAlike-IsKeyed [] ((j, t) ∷ ts) h keyed = absurd h
AreAlike-IsKeyed ((i, s) ∷ ss) [] h keyed = absurd h
AreAlike-IsKeyed ((i, s) ∷ ss) ((j, t) ∷ ts) (key, (same_id, same_promise), h)
      (same, fresh, keyed) =
    (
      same_id ∙ same ∙ sym key,
      subst (λ (k : ℕ). Table.find k ts ≡ none) (sym key) (AreAlike-find i ss ts h fresh),
      AreAlike-IsKeyed ss ts h keyed,
    )

pub alike-Owes :
    (m n : Manager)
    → IsKeyed m.streams
    → AreAlike m.streams n.streams
    → n.settled ≡ m.settled
    → Owes m n
alike-Owes m n keyed alike settled = record {
  keyed = AreAlike-IsKeyed m.streams n.streams alike keyed;
  counts = λ p.
      omega (arith, AreAlike-registrations p m.streams n.streams alike, ap (settlements p) settled);
}
