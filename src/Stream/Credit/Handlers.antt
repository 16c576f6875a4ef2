-- ===== src/Stream/Credit/Handlers.antt =====
-- src/stream/stream.ts: the functions that leave the connection's send window alone and send no DATA.
use browsercore_http.Common.{
  ℕ, ◌≡◌, refl, ap, ◌∙◌, arith, Bool, true, false, Option, [], ◌∷◌, ◌++◌, ◌==◌, ltb, if◌then◌else◌,
  length, inl, inr, Option-cases, Bool-cases, Text, Error, append-nil, bit_and,
}
use browsercore_http.Common.Int.{pos, ◌-ℤ◌}
use browsercore_http.Common.Table
use browsercore_http.Frame.Types.{
  Frame, DataFrame, HeadersFrame, RstStreamFrame, PushPromiseFrame, PingFrame, GoawayFrame,
  ContinuationFrame,
}
use browsercore_http.Stream.Types.{Manager, ManagedStream, Streams, Event, goaway_event}
use browsercore_http.Stream.Drain.Flow.{data_payload, sent_payload, sent_payload-append}
use browsercore_http.Stream.Settle.{
  put_stream, emit_event, send_frame, finalize_stream, reject_stream, maybe_resolve_response,
}
use browsercore_http.Stream.Receive.{
  handle_data, handle_headers, handle_rst_stream, handle_push_promise, handle_ping, handle_goaway,
  handle_continuation, reject_above, send_settings_ack, send_ping_ack, send_window_update,
  is_closed, strip_padding, end_of_stream,
}
use browsercore_http.Stream.Manager.{reject_each}

-- The same window, and the same DATA octets sent.
pub record Keeps (m n : Manager) : Type 0 where
  pub window : n.connection_send_window ≡ m.connection_send_window
  pub payload : sent_payload n.sent ≡ sent_payload m.sent

pub Keeps-same :
    (m n : Manager)
    → n.connection_send_window ≡ m.connection_send_window
    → n.sent ≡ m.sent
    → Keeps m n
Keeps-same m n same_window same_sent = record {
  window = same_window;
  payload = ap sent_payload same_sent;
}

Keeps-trans : (l m n : Manager) → Keeps l m → Keeps m n → Keeps l n
Keeps-trans l m n a b = record { window = b.window ∙ a.window; payload = b.payload ∙ a.payload }

put_stream-Keeps : (s : ManagedStream) (l m : Manager) → Keeps l m → Keeps l (put_stream s m)
unfolding put_stream
put_stream-Keeps s l m kept = record { window = kept.window; payload = kept.payload }

emit_event-Keeps : (e : Event) (l m : Manager) → Keeps l m → Keeps l (emit_event e m)
unfolding emit_event
emit_event-Keeps e l m kept = record { window = kept.window; payload = kept.payload }

pub same : (m : Manager) → Keeps m m
same m = Keeps-same m m refl refl

pub send_frame-Keeps : (f : Frame) (m : Manager) → data_payload f ≡ [] → Keeps m (send_frame f m)
unfolding send_frame
send_frame-Keeps f m h = record {
  window = refl;
  payload = sent_payload-append m.sent (f ∷ []) ∙ rw h (append-nil (sent_payload m.sent));
}

pub send_settings_ack-Keeps : (m : Manager) → Keeps m (send_settings_ack m)
unfolding send_settings_ack
send_settings_ack-Keeps m = send_frame-Keeps _ m refl

pub send_window_update-Keeps : (id n : ℕ) (m : Manager) → Keeps m (send_window_update id n m)
unfolding send_window_update
send_window_update-Keeps id n m = send_frame-Keeps _ m refl

pub handle_ping-Keeps : (f : PingFrame) (m : Manager) → Keeps m (handle_ping f m)
unfolding handle_ping send_ping_ack emit_event
handle_ping-Keeps f m = elim (Bool-cases f.ack) [
  | inl acked ↦ rw acked (Keeps-same m _ refl refl)
  | inr asked ↦ rw asked (send_frame-Keeps _ m refl)
]

pub reject_stream-Keeps :
    (s : ManagedStream) (e : Error) (m : Manager) → Keeps m (reject_stream s e m)
unfolding reject_stream finalize_stream emit_event
reject_stream-Keeps s e m = elim (Option-cases s.resolver) [
  | inl none_ ↦ rw none_ (Keeps-same m _ refl refl)
  | inr (r, registered) ↦ rw registered (Keeps-same m _ refl refl)
]

pub handle_rst_stream-Keeps : (f : RstStreamFrame) (m : Manager) → Keeps m (handle_rst_stream f m)
unfolding handle_rst_stream
handle_rst_stream-Keeps f m = elim (Option-cases (Table.find f.stream_id m.streams)) [
  | inl none_ ↦ rw (handle_rst_stream, none_) (same m)
  | inr (s, found) ↦ rw (handle_rst_stream, found) (reject_stream-Keeps s _ m)
]

reject_above-Keeps :
    (last_stream_id : ℕ) (e : Error) (streams : Streams) (m : Manager)
    → Keeps m (reject_above last_stream_id e streams m)
unfolding reject_above
reject_above-Keeps last_stream_id e [] m = Keeps-same m m refl refl
reject_above-Keeps last_stream_id e ((id, s) ∷ streams) m =
    elim (Bool-cases (ltb last_stream_id id)) [
      | inl above ↦
          rw (reject_above, above)
            (Keeps-trans m (reject_stream s e m) _ (reject_stream-Keeps s e m)
              (reject_above-Keeps last_stream_id e streams (reject_stream s e m)))
      | inr served ↦ rw (reject_above, served) (reject_above-Keeps last_stream_id e streams m)
    ]

pub handle_goaway-Keeps : (f : GoawayFrame) (m : Manager) → Keeps m (handle_goaway f m)
unfolding handle_goaway
handle_goaway-Keeps f m =
    let told : Manager = emit_event (goaway_event f.last_stream_id f.error_code f.debug_data) m in
    Keeps-trans m told _ (emit_event-Keeps _ m m (same m))
      (reject_above-Keeps f.last_stream_id _ m.streams told)

pub reject_each-Keeps :
    (e : Error) (streams : Streams) (m : Manager) → Keeps m (reject_each e streams m)
unfolding reject_each
reject_each-Keeps e [] m = Keeps-same m m refl refl
reject_each-Keeps e ((id, s) ∷ streams) m =
    Keeps-trans m (reject_stream s e m) _ (reject_stream-Keeps s e m)
      (reject_each-Keeps e streams (reject_stream s e m))

pub handle_push_promise-Keeps :
    (f : PushPromiseFrame) (m : Manager) → Keeps m (handle_push_promise f m).manager
unfolding handle_push_promise put_stream emit_event
handle_push_promise-Keeps f m = Keeps-same m _ (ground arith) (ground arith)

module _ (to_number : Text → Option ℕ) where
  maybe_resolve_response-Keeps :
      (s : ManagedStream) (m : Manager) → Keeps m (maybe_resolve_response to_number s m)
  unfolding maybe_resolve_response finalize_stream emit_event
  maybe_resolve_response-Keeps s m = Keeps-same m _ (ground arith) (ground arith)

  resolving-Keeps :
      (s : ManagedStream) (l m : Manager)
      → Keeps l m
      → Keeps l (maybe_resolve_response to_number s m)
  resolving-Keeps s l m kept = Keeps-trans l m _ kept (maybe_resolve_response-Keeps s m)

  replenish-Keeps :
      (b : Bool) (id n : ℕ) (l m : Manager)
      → Keeps l m
      → Keeps l (
          if b
          then send_window_update 0 n m
          else send_window_update id n (send_window_update 0 n m))
  replenish-Keeps true id n l m kept = Keeps-trans l m _ kept (send_window_update-Keeps 0 n m)
  replenish-Keeps false id n l m kept =
      Keeps-trans l (send_window_update 0 n m) _
        (Keeps-trans l m _ kept (send_window_update-Keeps 0 n m))
        (send_window_update-Keeps id n (send_window_update 0 n m))

  pub handle_data-Keeps : (f : DataFrame) (m : Manager) → Keeps m (handle_data to_number f m)
  unfolding handle_data
  handle_data-Keeps f m = elim (Option-cases (Table.find f.stream_id m.streams)) [
    | inl none_ ↦ rw (handle_data, none_) (same m)
    | inr (s, found) ↦
        let n = length f.payload in
        let counted : Manager = record m {
          connection_receive_window = m.connection_receive_window -ℤ pos n;
        } in
        let credited =
          replenish-Keeps (is_closed s.state) s.id n m counted (Keeps-same m counted refl refl) in
        elim (Bool-cases (bit_and f.flags 0x1 == 0)) [
          | inl more ↦ rw (handle_data, found, more) (put_stream-Keeps _ m _ credited)
          | inr last ↦
              let chunk = strip_padding f.flags f.payload in
              let received : ManagedStream = record s {
                remote_window = record {
                  size = s.remote_window.size -ℤ pos n;
                  initial_size = s.remote_window.initial_size;
                };
                response_chunks =
                    if ltb 0 (length chunk)
                    then s.response_chunks ++ (chunk ∷ [])
                    else s.response_chunks;
              } in
              rw (handle_data, found, last)
                (resolving-Keeps (end_of_stream received) m _
                  (put_stream-Keeps (end_of_stream received) m _ credited))
        ]
  ]

  pub handle_headers-Keeps :
      (f : HeadersFrame) (m : Manager) → Keeps m (handle_headers to_number f m).manager
  unfolding handle_headers put_stream maybe_resolve_response finalize_stream emit_event
  handle_headers-Keeps f m = Keeps-same m _ (ground arith) (ground arith)

  pub handle_continuation-Keeps :
      (f : ContinuationFrame) (m : Manager) → Keeps m (handle_continuation to_number f m).manager
  unfolding handle_continuation put_stream maybe_resolve_response finalize_stream emit_event
  handle_continuation-Keeps f m = Keeps-same m _ (ground arith) (ground arith)
