-- ===== src/Stream/Promises/Frames.antt =====
-- src/stream/stream.ts: what a frame from the peer does to the promises.
use browsercore_http.Common.{
  ℕ, ◌≡◌, refl, sym, ap, arith, ◌==◌, if◌then◌else◌, Option, some, List, [], ◌∷◌, ◌++◌, inl, inr,
  Bool-cases, Option-cases, Text, ltb, not, length, bit_and, subst,
}
use browsercore_http.Common.Int.{pos, ◌-ℤ◌}
use browsercore_http.Common.Table
use browsercore_http.Frame.Types.{DataFrame, HeadersFrame, RstStreamFrame, PingFrame}
use browsercore_http.Stream.Types.{Manager, ManagedStream}
use browsercore_http.Stream.Settle.{put_stream, emit_event, send_frame, maybe_resolve_response}
use browsercore_http.Stream.Receive.{
  handle_data, handle_headers, handle_rst_stream, handle_ping, send_ping_ack, send_window_update,
  strip_padding, end_of_stream, is_closed, push_header_bytes, decode_pending_headers, promote,
}
use browsercore_http.Stream.Promises.{IsKeyed, find-IsKeyed}
use browsercore_http.Stream.Promises.Handlers.{
  Owes, Owes-same, update-Owes, update_resolve-Owes, reject_stream-Owes,
}

pub handle_ping-Owes : (f : PingFrame) (m : Manager) → IsKeyed m.streams → Owes m (handle_ping f m)
unfolding handle_ping send_ping_ack send_frame emit_event
handle_ping-Owes f m keyed = Owes-same m _ (ground arith) (ground arith) keyed

pub handle_rst_stream-Owes :
    (f : RstStreamFrame) (m : Manager) → IsKeyed m.streams → Owes m (handle_rst_stream f m)
unfolding handle_rst_stream
handle_rst_stream-Owes f m keyed = elim (Option-cases (Table.find f.stream_id m.streams)) [
  | inl none_ ↦ rw (handle_rst_stream, none_) (Owes-same m m refl refl keyed)
  | inr (s, found) ↦
      rw (handle_rst_stream, found)
        (reject_stream-Owes s _ m keyed (
          subst (λ (k : ℕ). Table.find k m.streams ≡ some s)
            (sym (find-IsKeyed f.stream_id s m.streams keyed found)) found))
]

-- What `handleData` makes of a stream, and the credits that it sends.
abbrev received : DataFrame → ManagedStream → ManagedStream
received f s =
    let chunk = strip_padding f.flags f.payload in
    record s {
      remote_window = record {
        size = s.remote_window.size -ℤ pos (length f.payload);
        initial_size = s.remote_window.initial_size;
      };
      response_chunks =
          if ltb 0 (length chunk) then s.response_chunks ++ (chunk ∷ []) else s.response_chunks;
    }

abbrev credited : DataFrame → ManagedStream → Manager → Manager
credited f s m =
    let n = length f.payload in
    let connection =
      send_window_update 0 n
        (record m { connection_receive_window = m.connection_receive_window -ℤ pos n }) in
    if is_closed s.state then connection else send_window_update s.id n connection

credited-same :
    (f : DataFrame) (s : ManagedStream) (m : Manager)
    → ((credited f s m).streams ≡ m.streams) × ((credited f s m).settled ≡ m.settled)
unfolding send_window_update send_frame
credited-same f s m = (ground arith, ground arith)

-- Header bytes that come in change neither the id nor the promise.
abbrev pub buffered : List ℕ → ManagedStream → ManagedStream
buffered payload s = push_header_bytes payload s

abbrev pub decoded : List ℕ → ManagedStream → ManagedStream
decoded payload s = (decode_pending_headers (push_header_bytes payload s)).0

pub buffered-same :
    (payload : List ℕ) (s : ManagedStream)
    → ((buffered payload s).id ≡ s.id) × ((buffered payload s).resolver ≡ s.resolver)
unfolding push_header_bytes
buffered-same payload s = (refl, refl)

pub decoded-same :
    (payload : List ℕ) (s : ManagedStream)
    → ((decoded payload s).id ≡ s.id) × ((decoded payload s).resolver ≡ s.resolver)
unfolding push_header_bytes decode_pending_headers
decoded-same payload s = (ground arith, ground arith)

-- What `handleHeaders` makes of a stream whose header block is whole.
abbrev answered : HeadersFrame → ManagedStream → ManagedStream
answered f s =
    let d = decoded f.payload s in
    let opened : ManagedStream = record d { state = promote d.state } in
    if f.end_stream then end_of_stream opened else opened

answered-same :
    (f : HeadersFrame) (s : ManagedStream)
    → ((answered f s).id ≡ s.id) × ((answered f s).resolver ≡ s.resolver)
unfolding end_of_stream
answered-same f s =
    let (same_id, same_promise) = decoded-same f.payload s in
    elim (Bool-cases f.end_stream) [
      | inl last ↦ rw last (same_id, same_promise)
      | inr more ↦ rw more (same_id, same_promise)
    ]

pub put-Owes :
    (m n : Manager) (k : ℕ) (s t : ManagedStream)
    → IsKeyed m.streams
    → Table.find k m.streams ≡ some s
    → (t.id ≡ s.id) × (t.resolver ≡ s.resolver)
    → n.streams ≡ m.streams
    → n.settled ≡ m.settled
    → Owes m (put_stream t n)
unfolding put_stream
put-Owes m n k s t keyed found (same_id, same_promise) streams settled =
    update-Owes m (put_stream t n) k s t keyed found same_id same_promise
      (ap (Table.set t.id t) streams) settled

module _ (to_number : Text → Option ℕ) where
  pub handle_data-Owes :
      (f : DataFrame) (m : Manager) → IsKeyed m.streams → Owes m (handle_data to_number f m)
  unfolding handle_data put_stream end_of_stream
  handle_data-Owes f m keyed = elim (Option-cases (Table.find f.stream_id m.streams)) [
    | inl none_ ↦ rw (handle_data, none_) (Owes-same m m refl refl keyed)
    | inr (s, found) ↦
        let (streams, settled) = credited-same f s m in
        let after = received f s in
        let ended = end_of_stream after in
        elim (Bool-cases (bit_and f.flags 0x1 == 0)) [
          | inl more ↦
              rw (handle_data, found, more)
                (update-Owes m (put_stream after (credited f s m)) f.stream_id s after keyed found
                  refl refl (ap (Table.set s.id after) streams) settled)
          | inr last ↦
              rw (handle_data, found, last)
                (update_resolve-Owes to_number m (put_stream ended (credited f s m)) f.stream_id s
                  ended keyed found refl refl (ap (Table.set s.id ended) streams) settled)
        ]
  ]

  pub put_resolve-Owes :
      (m n : Manager) (k : ℕ) (s t : ManagedStream)
      → IsKeyed m.streams
      → Table.find k m.streams ≡ some s
      → (t.id ≡ s.id) × (t.resolver ≡ s.resolver)
      → n.streams ≡ Table.set t.id t m.streams
      → n.settled ≡ m.settled
      → Owes m (maybe_resolve_response to_number t n)
  put_resolve-Owes m n k s t keyed found (same_id, same_promise) streams settled =
      update_resolve-Owes to_number m n k s t keyed found same_id same_promise streams settled

  pub handle_headers-Owes :
      (f : HeadersFrame) (m : Manager)
      → IsKeyed m.streams
      → Owes m (handle_headers to_number f m).manager
  unfolding handle_headers
  handle_headers-Owes f m keyed = elim (Option-cases (Table.find f.stream_id m.streams)) [
    | inl none_ ↦ rw (handle_headers, none_) (Owes-same m m refl refl keyed)
    | inr (s, found) ↦
        let d = decode_pending_headers (push_header_bytes f.payload s) in
        elim (Bool-cases (not f.end_headers)) [
          | inl more ↦
              rw (handle_headers, found, more)
                (put-Owes m m f.stream_id s (buffered f.payload s) keyed found
                  (buffered-same f.payload s) refl refl)
          | inr whole ↦ elim (Option-cases d.1) [
            | inr (e, thrown) ↦
                rw (handle_headers, found, whole, thrown)
                  (put-Owes m m f.stream_id s d.0 keyed found (decoded-same f.payload s) refl refl)
            | inl none_ ↦
                rw (handle_headers, found, whole, none_)
                  (put_resolve-Owes m (put_stream (answered f s) m) f.stream_id s (answered f s)
                    keyed found (answered-same f s) (unfold put_stream in refl)
                    (unfold put_stream in refl))
          ]
        ]
  ]
