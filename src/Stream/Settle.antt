-- ===== src/Stream/Settle.antt =====
-- src/stream/stream.ts: how a stream ends, `finalizeStream`, `maybeResolveResponse` and `rejectStream`.
-- `to_number` is the platform's `Number(…)` with `Number.isFinite`: `none` where the value is not
-- finite. A status code is a natural number here.
use browsercore_http.Common.{
  ℕ, not, ◌||◌, Option, none, some, [], ◌∷◌, ◌++◌, if◌then◌else◌, Text, codes, Error,
}
use browsercore_http.Common.Dict
use browsercore_http.Common.Dict.{Headers}
use browsercore_http.Common.Table
use mathlib.Core.List.{flatten}
use browsercore_http.Frame.Types.{Frame}
use browsercore_http.Stream.Types.{
  Manager, ManagedStream, Http2Response, StreamState, closed, normal, open_state, local_half_closed,
  remote_half_closed, remote_reserved, idle, local_reserved, Event, stream_closed,
  push_response_event, resolved, rejected,
}

abbrev pub default_status : ℕ
default_status = 200

unfoldable pub transition_on_end_stream : StreamState → StreamState
transition_on_end_stream open_state = remote_half_closed
transition_on_end_stream local_half_closed = closed normal
transition_on_end_stream remote_reserved = closed normal
transition_on_end_stream idle = idle
transition_on_end_stream local_reserved = local_reserved
transition_on_end_stream remote_half_closed = remote_half_closed
transition_on_end_stream (closed reason) = closed reason

-- `streams.set` for a stream that is there: the object in the map is the one that changed.
unfoldable pub put_stream : ManagedStream → Manager → Manager
put_stream s m = record m { streams = Table.set s.id s m.streams }

unfoldable pub emit_event : Event → Manager → Manager
emit_event e m = record m { events = m.events ++ (e ∷ []) }

unfoldable pub send_frame : Frame → Manager → Manager
send_frame f m = record m { sent = m.sent ++ (f ∷ []) }

-- The stream leaves the map, so its closed state is not kept.
unfoldable pub finalize_stream : ℕ → Manager → Manager
unfolding emit_event
finalize_stream id m =
    emit_event (stream_closed id) (record m { streams = Table.delete id m.streams })

-- The stream leaves the map; a registered `reject` is called with the error.
unfoldable pub reject_stream : ManagedStream → Error → Manager → Manager
unfolding finalize_stream
reject_stream s error m = elim s.resolver [
  | none ↦ finalize_stream s.id m
  | some r ↦
      let m' = finalize_stream s.id m in
      record m' { settled = m'.settled ++ (rejected r error ∷ []) }
]

module _ (to_number : Text → Option ℕ) where
  unfoldable pub parse_status : Headers → ℕ
  parse_status headers = elim (Dict.get (codes ":status") headers) [
    | none ↦ default_status
    | some raw ↦ elim (to_number raw) [ none ↦ default_status | some value ↦ value ]
  ]

  unfoldable pub response_of : ManagedStream → Http2Response
  unfolding parse_status
  response_of s = record {
    status_code = parse_status s.response_headers;
    headers = s.response_headers;
    body = flatten s.response_chunks;
  }

  -- The stream is in the map when the function is called, with what the handler made of it.
  unfoldable pub maybe_resolve_response : ManagedStream → Manager → Manager
  unfolding response_of finalize_stream emit_event
  maybe_resolve_response s m =
      if not s.headers_complete || not s.end_stream_seen then m else elim s.resolver [
        | none ↦ m
        | some r ↦
            let response = response_of s in
            let pushed =
              if s.is_push_promise then emit_event (push_response_event s.id response) m else m in
            let final = finalize_stream s.id pushed in
            record final { settled = final.settled ++ (resolved r response ∷ []) }
      ]
