-- ===== src/Stream/Abort.antt =====
-- src/stream/stream.ts: whom `abortAll` and `handleGoaway` reject.
use browsercore_http.Common.{
  ℕ, ◌≡◌, refl, sym, ap, ◌∙◌, arith, none, some, List, [], ◌∷◌, ◌++◌, ltb, if◌then◌else◌, inl, inr,
  Option-cases, Bool-cases, Error, goaway_received_error, append-nil, append_assoc,
}
use browsercore_http.Frame.Types.{GoawayFrame}
use browsercore_http.Stream.Types.{
  Manager, ManagedStream, Streams, Event, stream_closed, goaway_event, Settlement, rejected,
}
use browsercore_http.Stream.Settle.{reject_stream, finalize_stream, emit_event}
use browsercore_http.Stream.Receive.{reject_above, handle_goaway}
use browsercore_http.Stream.Manager.{reject_each, abort_all}

-- The promises that a stream has to reject: the one that is registered, if any.
abbrev pub rejection : Error → ManagedStream → List Settlement
rejection error s = elim s.resolver [ none ↦ [] | some r ↦ rejected r error ∷ [] ]

-- Every registered promise once, in the order of the streams.
abbrev pub rejections : Error → Streams → List Settlement
rejections error [] = []
rejections error ((id, s) ∷ streams) = rejection error s ++ rejections error streams

abbrev pub closings : Streams → List Event
closings [] = []
closings ((id, s) ∷ streams) = stream_closed s.id ∷ closings streams

-- The streams whose id is above the last that the peer serves.
abbrev pub above : ℕ → Streams → Streams
above last_stream_id [] = []
above last_stream_id ((id, s) ∷ streams) =
    if ltb last_stream_id id
    then (id, s) ∷ above last_stream_id streams
    else above last_stream_id streams

reject_stream-settled :
    (s : ManagedStream) (error : Error) (m : Manager)
    → (reject_stream s error m).settled ≡ m.settled ++ rejection error s
unfolding reject_stream finalize_stream emit_event
reject_stream-settled s error m = elim (Option-cases s.resolver) [
  | inl none_ ↦ rw none_ (sym (append-nil m.settled))
  | inr (r, registered) ↦ rw registered refl
]

reject_stream-events :
    (s : ManagedStream) (error : Error) (m : Manager)
    → (reject_stream s error m).events ≡ m.events ++ (stream_closed s.id ∷ [])
unfolding reject_stream finalize_stream emit_event
reject_stream-events s error m = ground arith

reject_each-settled :
    (error : Error) (streams : Streams) (m : Manager)
    → (reject_each error streams m).settled ≡ m.settled ++ rejections error streams
unfolding reject_each
reject_each-settled error [] m = sym (append-nil m.settled)
reject_each-settled error ((id, s) ∷ streams) m =
    reject_each-settled error streams (reject_stream s error m)
    ∙ ap (λ l. l ++ rejections error streams) (reject_stream-settled s error m)
    ∙ append_assoc m.settled (rejection error s) (rejections error streams)

reject_each-events :
    (error : Error) (streams : Streams) (m : Manager)
    → (reject_each error streams m).events ≡ m.events ++ closings streams
unfolding reject_each
reject_each-events error [] m = sym (append-nil m.events)
reject_each-events error ((id, s) ∷ streams) m =
    reject_each-events error streams (reject_stream s error m)
    ∙ ap (λ l. l ++ closings streams) (reject_stream-events s error m)
    ∙ append_assoc m.events (stream_closed s.id ∷ []) (closings streams)

pub reject_above_lem :
    (last_stream_id : ℕ) (error : Error) (streams : Streams) (m : Manager)
    → reject_above last_stream_id error streams m
      ≡ reject_each error (above last_stream_id streams) m
unfolding reject_above reject_each
reject_above_lem last_stream_id error [] m = refl
reject_above_lem last_stream_id error ((id, s) ∷ streams) m =
    elim (Bool-cases (ltb last_stream_id id)) [
      | inl higher ↦
          rw (reject_above, higher)
            (reject_above_lem last_stream_id error streams (reject_stream s error m))
      | inr served ↦ rw (reject_above, served) (reject_above_lem last_stream_id error streams m)
    ]

-- `abortAll` empties the map, rejects every registered promise once with the error, in the order
-- of the streams, and tells that each stream is closed.
pub abort_all_lem :
    (error : Error) (m : Manager)
    → ((abort_all error m).streams ≡ [])
      × ((abort_all error m).settled ≡ m.settled ++ rejections error m.streams)
      × ((abort_all error m).events ≡ m.events ++ closings m.streams)
unfolding abort_all
abort_all_lem error m =
    (refl, reject_each-settled error m.streams m, reject_each-events error m.streams m)

-- A GOAWAY tells its contents, then rejects every promise that is registered for a stream above the
-- last one served, once and with the contents as the error, and tells that each of those
-- streams is closed; it settles no other promise.
pub handle_goaway_lem :
    (f : GoawayFrame) (m : Manager)
    → ((handle_goaway f m).settled
        ≡ m.settled
          ++ rejections
              (goaway_received_error f.last_stream_id f.error_code f.debug_data)
              (above f.last_stream_id m.streams))
      × ((handle_goaway f m).events
          ≡ (m.events ++ (goaway_event f.last_stream_id f.error_code f.debug_data ∷ []))
            ++ closings (above f.last_stream_id m.streams))
unfolding handle_goaway emit_event
handle_goaway_lem f m =
    let error = goaway_received_error f.last_stream_id f.error_code f.debug_data in
    let told : Manager = emit_event (goaway_event f.last_stream_id f.error_code f.debug_data) m in
    let each = reject_above_lem f.last_stream_id error m.streams told in
    (
      ap (λ (n : Manager). n.settled) each
          ∙ reject_each-settled error (above f.last_stream_id m.streams) told,
      ap (λ (n : Manager). n.events) each
          ∙ reject_each-events error (above f.last_stream_id m.streams) told,
    )
