-- ===== src/Stream/Promises/Rejections.antt =====
-- src/stream/stream.ts: what a GOAWAY and `abortAll` do to the promises.
use browsercore_http.Common.{
  ℕ, ◌≡◌, ◌≢◌, refl, sym, ap, ◌∙◌, arith, ◌==◌, none, some, [], ◌∷◌, inl, inr, Bool-cases, Error,
  ltb, subst, goaway_received_error,
}
use browsercore_http.Common.Table
use browsercore_http.Common.Table.Laws.{find_here, find_there, find-delete_other}
use browsercore_http.Frame.Types.{GoawayFrame}
use browsercore_http.Stream.Types.{Manager, ManagedStream, Streams, goaway_event}
use browsercore_http.Stream.Settle.{emit_event, reject_stream, finalize_stream}
use browsercore_http.Stream.Receive.{handle_goaway}
use browsercore_http.Stream.Manager.{reject_each, abort_all}
use browsercore_http.Stream.Abort.{above, reject_above_lem}
use browsercore_http.Stream.Promises.{IsKeyed}
use browsercore_http.Stream.Promises.Handlers.{Owes, Owes-same, Owes-trans, reject_stream-Owes}

-- Every stream of the list is in the map, under its id and once.
abbrev ArePresent : Streams → Streams → Type 0
ArePresent [] streams = Unit {0}
ArePresent ((id, s) ∷ rest) streams = (Table.find id streams ≡ some s) × ArePresent rest streams

ArePresent-cons :
    (id : ℕ) (s : ManagedStream) (rest streams : Streams)
    → Table.find id rest ≡ none
    → ArePresent rest streams
    → ArePresent rest ((id, s) ∷ streams)
unfolding Table.find
ArePresent-cons id s [] streams fresh h = tt
ArePresent-cons id s ((j, t) ∷ rest) streams fresh (here, h) = elim (Bool-cases (j == id)) [
  | inl same ↦ absurd (let e = sym (find_here j id t rest same) ∙ fresh in cc)
  | inr other ↦ (
    find_there id j s streams (ground arith) ∙ here,
    ArePresent-cons id s rest streams (sym (find_there j id t rest other) ∙ fresh) h,
  )
]

ArePresent-all : (streams : Streams) → IsKeyed streams → ArePresent streams streams
ArePresent-all [] keyed = tt
ArePresent-all ((id, s) ∷ streams) (same, fresh, keyed) = (
  find_here id id s streams (ground arith),
  ArePresent-cons id s streams streams fresh (ArePresent-all streams keyed),
)

ArePresent-delete :
    (id : ℕ) (rest streams : Streams)
    → Table.find id rest ≡ none
    → ArePresent rest streams
    → ArePresent rest (Table.delete id streams)
unfolding Table.find
ArePresent-delete id [] streams fresh h = tt
ArePresent-delete id ((j, t) ∷ rest) streams fresh (here, h) = elim (Bool-cases (j == id)) [
  | inl same ↦ absurd (let e = sym (find_here j id t rest same) ∙ fresh in cc)
  | inr other ↦
      let apart : j ≢ id = ground arith in
      (
        find-delete_other j id streams apart ∙ here,
        ArePresent-delete id rest streams (sym (find_there j id t rest other) ∙ fresh) h,
      )
]

reject_stream-streams :
    (s : ManagedStream) (e : Error) (m : Manager)
    → (reject_stream s e m).streams ≡ Table.delete s.id m.streams
unfolding reject_stream finalize_stream emit_event
reject_stream-streams s e m = ground arith

reject_each-Owes :
    (e : Error) (rest : Streams) (m : Manager)
    → IsKeyed m.streams
    → IsKeyed rest
    → ArePresent rest m.streams
    → Owes m (reject_each e rest m)
unfolding reject_each
reject_each-Owes e [] m keyed once present = Owes-same m m refl refl keyed
reject_each-Owes e ((id, s) ∷ rest) m keyed (same, fresh, once) (here, present) =
    let found : Table.find s.id m.streams ≡ some s =
      subst (λ (k : ℕ). Table.find k m.streams ≡ some s) (sym same) here in
    let one = reject_stream-Owes s e m keyed found in
    let left : (reject_stream s e m).streams ≡ Table.delete id m.streams =
      reject_stream-streams s e m ∙ ap (λ (k : ℕ). Table.delete k m.streams) same in
    Owes-trans m (reject_stream s e m) _ one (
      reject_each-Owes e rest (reject_stream s e m) one.keyed once
        (subst (ArePresent rest) (sym left) (ArePresent-delete id rest m.streams fresh present)))

pub abort_all-Owes : (e : Error) (m : Manager) → IsKeyed m.streams → Owes m (abort_all e m)
unfolding abort_all
abort_all-Owes e m keyed =
    let all = reject_each-Owes e m.streams m keyed keyed (ArePresent-all m.streams keyed) in
    record { keyed = tt; counts = λ p. omega (arith, all.counts p) }

-- The streams above the last one served are a part of the map.
above_none :
    (last id : ℕ) (streams : Streams)
    → Table.find id streams ≡ none
    → Table.find id (above last streams) ≡ none
unfolding Table.find
above_none last id [] fresh = refl
above_none last id ((j, t) ∷ streams) fresh = elim (Bool-cases (j == id)) [
  | inl same ↦ absurd (let e = sym (find_here j id t streams same) ∙ fresh in cc)
  | inr other ↦
      let rest = above_none last id streams (sym (find_there j id t streams other) ∙ fresh) in
      elim (Bool-cases (ltb last j)) [
        | inl higher ↦ rw higher (find_there j id t (above last streams) other ∙ rest)
        | inr served ↦ rw served rest
      ]
]

above-IsKeyed : (last : ℕ) (streams : Streams) → IsKeyed streams → IsKeyed (above last streams)
above-IsKeyed last [] keyed = tt
above-IsKeyed last ((j, t) ∷ streams) (same, fresh, keyed) = elim (Bool-cases (ltb last j)) [
  | inl higher ↦ rw higher (same, above_none last j streams fresh, above-IsKeyed last streams keyed)
  | inr served ↦ rw served (above-IsKeyed last streams keyed)
]

above-ArePresent :
    (last : ℕ) (rest streams : Streams)
    → ArePresent rest streams
    → ArePresent (above last rest) streams
above-ArePresent last [] streams h = tt
above-ArePresent last ((j, t) ∷ rest) streams (here, h) = elim (Bool-cases (ltb last j)) [
  | inl higher ↦ rw higher (here, above-ArePresent last rest streams h)
  | inr served ↦ rw served (above-ArePresent last rest streams h)
]

pub handle_goaway-Owes :
    (f : GoawayFrame) (m : Manager) → IsKeyed m.streams → Owes m (handle_goaway f m)
unfolding handle_goaway emit_event
handle_goaway-Owes f m keyed =
    let error = goaway_received_error f.last_stream_id f.error_code f.debug_data in
    let told : Manager = emit_event (goaway_event f.last_stream_id f.error_code f.debug_data) m in
    let all =
      reject_each-Owes error (above f.last_stream_id m.streams) told keyed
        (above-IsKeyed f.last_stream_id m.streams keyed)
        (above-ArePresent f.last_stream_id m.streams m.streams (ArePresent-all m.streams keyed)) in
    subst (Owes m) (sym (reject_above_lem f.last_stream_id error m.streams told))
      (Owes-trans m told _ (Owes-same m told refl refl keyed) all)
