-- ===== src/Stream/Promises/Pushes.antt =====
-- src/stream/stream.ts: what PUSH_PROMISE and CONTINUATION do to the promises.
use browsercore_http.Common.{
  ℕ, ◌≡◌, refl, sym, ap, ◌∙◌, arith, if◌then◌else◌, true, Option, none, some, List, inl, inr,
  Bool-cases, Option-cases, Text, not, subst,
}
use browsercore_http.Common.Table
use browsercore_http.Frame.Types.{PushPromiseFrame, ContinuationFrame}
use browsercore_http.Stream.Types.{
  Manager, ManagedStream, new_stream, push, FlowControlWindow, default_initial_window_size,
}
use browsercore_http.Common.Int.{pos}
use browsercore_http.Stream.Settle.{put_stream, emit_event}
use browsercore_http.Stream.Receive.{
  handle_push_promise, handle_continuation, push_header_bytes, decode_pending_headers,
}
use browsercore_http.Stream.Promises.{
  counted, registrations, settlements, IsKeyed, registrations-set, set-IsKeyed,
}
use browsercore_http.Stream.Promises.Handlers.{Owes, Owes-same}
use browsercore_http.Stream.Promises.Frames.{
  buffered, buffered-same, decoded-same, put-Owes, put_resolve-Owes,
}

-- A stream that comes into the map without a promise.
pub fresh-Owes :
    (m n : Manager) (t : ManagedStream)
    → IsKeyed m.streams
    → t.resolver ≡ none
    → n.streams ≡ Table.set t.id t m.streams
    → n.settled ≡ m.settled
    → Owes m n
fresh-Owes m n t keyed without streams settled = record {
  keyed = subst IsKeyed (sym streams) (set-IsKeyed t.id t m.streams refl keyed);
  counts = λ p. omega (
    arith,
    ap (registrations p) streams,
    ap (settlements p) settled,
    ap (counted p) without,
    registrations-set p t.id t m.streams,
  );
}

pub handle_push_promise-Owes :
    (f : PushPromiseFrame) (m : Manager)
    → IsKeyed m.streams
    → Owes m (handle_push_promise f m).manager
unfolding handle_push_promise put_stream emit_event
handle_push_promise-Owes f m keyed =
    let window : FlowControlWindow = record {
      size = pos default_initial_window_size;
      initial_size = default_initial_window_size;
    } in
    let s : ManagedStream = new_stream f.promised_stream_id window window true in
    let without : s.resolver ≡ none = unfold new_stream in refl in
    let d = decode_pending_headers (push_header_bytes f.payload s) in
    elim (Bool-cases f.end_headers) [
      | inr more ↦
          rw (handle_push_promise, more)
            (fresh-Owes m _ (buffered f.payload s) keyed ((buffered-same f.payload s).1 ∙ without)
              refl refl)
      | inl whole ↦ elim (Option-cases d.1) [
        | inl none_ ↦
            rw (handle_push_promise, whole, none_)
              (fresh-Owes m _ d.0 keyed ((decoded-same f.payload s).1 ∙ without) refl refl)
        | inr (e, thrown) ↦
            rw (handle_push_promise, whole, thrown)
              (fresh-Owes m _ d.0 keyed ((decoded-same f.payload s).1 ∙ without) refl refl)
      ]
    ]

-- A pushed stream is told of when its headers are whole.
shown-same :
    (t : ManagedStream) (m : Manager)
    → let shown : Manager =
        if t.is_push_promise
        then emit_event (push t.id t.response_headers) (put_stream t m)
        else put_stream t m in
      (shown.streams ≡ Table.set t.id t m.streams) × (shown.settled ≡ m.settled)
unfolding emit_event put_stream
shown-same t m = elim (Bool-cases t.is_push_promise) [
  | inl pushed ↦ rw pushed (refl, refl)
  | inr asked ↦ rw asked (refl, refl)
]

module _ (to_number : Text → Option ℕ) where
  pub handle_continuation-Owes :
      (f : ContinuationFrame) (m : Manager)
      → IsKeyed m.streams
      → Owes m (handle_continuation to_number f m).manager
  unfolding handle_continuation
  handle_continuation-Owes f m keyed =
      let promised = Table.find f.stream_id m.pending_push_continuation in
      let target : ℕ = elim promised [ none ↦ f.stream_id | some id ↦ id ] in
      let left : List (ℕ × ℕ) = elim promised [
        | none ↦ m.pending_push_continuation
        | some id ↦ Table.delete f.stream_id m.pending_push_continuation
      ] in
      elim (Option-cases (Table.find target m.streams)) [
        | inl none_ ↦ rw (handle_continuation, none_) (Owes-same m m refl refl keyed)
        | inr (s, found) ↦
            let d = decode_pending_headers (push_header_bytes f.payload s) in
            elim (Bool-cases (not f.end_headers)) [
              | inl more ↦
                  rw (handle_continuation, found, more)
                    (put-Owes m m target s (buffered f.payload s) keyed found
                      (buffered-same f.payload s) refl refl)
              | inr whole ↦ elim (Option-cases d.1) [
                | inr (e, thrown) ↦
                    rw (handle_continuation, found, whole, thrown)
                      (put-Owes m _ target s d.0 keyed found (decoded-same f.payload s) refl refl)
                | inl none_ ↦
                    let (streams, settled) =
                      shown-same d.0 (record m { pending_push_continuation = left }) in
                    rw (handle_continuation, found, whole, none_)
                      (put_resolve-Owes to_number m _ target s d.0 keyed found
                        (decoded-same f.payload s) streams settled)
              ]
            ]
      ]
