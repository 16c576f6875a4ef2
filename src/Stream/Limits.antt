-- ===== src/Stream/Limits.antt =====
-- src/stream/stream.ts: the frame size and the next stream id in everything the manager does.
use browsercore_http.Common.{
  ℕ, ◌%◌, ◌≤◌, ◌≡◌, refl, ◌∙◌, arith, Bool, Option, List, [], ◌∷◌, ◌++◌, ◌==◌, ltb, if◌then◌else◌,
  inl, inr, Option-cases, Bool-cases, Text, Error, goaway_received_error, length, bit_and,
}
use browsercore_http.Common.Int.{pos, ◌-ℤ◌}
use browsercore_http.Common.Table
use browsercore_http.Frame.Types.{
  Frame, data_frame, headers_frame, priority_frame, rst_stream_frame, settings_frame,
  push_promise_frame, ping_frame, goaway_frame, window_update_frame, continuation_frame, DataFrame,
  Settings, SettingsFrame, GoawayFrame, WindowUpdateFrame,
}
use browsercore_http.Stream.Types.{
  Manager, ManagedStream, Streams, create_stream_manager, min_max_frame_size, max_max_frame_size,
  goaway_event,
}
use browsercore_http.Stream.Settle.{
  put_stream, emit_event, send_frame, finalize_stream, reject_stream, maybe_resolve_response,
}
use browsercore_http.Stream.Settings.{
  clamp_max_frame_size, drain_stream, drain_all, apply_initial_window_size, apply_setting,
  apply_remote_settings, handle_window_update,
}
use browsercore_http.Stream.Receive.{
  handle_data, handle_headers, handle_rst_stream, handle_push_promise, handle_ping, handle_goaway,
  handle_continuation, handle_settings, reject_above, send_settings_ack, send_ping_ack,
  send_window_update, strip_padding, end_of_stream, is_closed,
}
use browsercore_http.Stream.Manager.{
  dispatch, open_stream, apply_window_update, send_data, expect_response, reject_each, abort_all,
}
use browsercore_http.Stream.Credit.Runs.{
  Call, frame_received, stream_opened, data_sent, awaited, window_updated, aborted, call, run,
}

-- The frame size is in the range of RFC 9113, and the next id is that of a client.
pub record IsLimited (m : Manager) : Type 0 where
  pub low : min_max_frame_size ≤ m.max_frame_size
  pub high : m.max_frame_size ≤ max_max_frame_size
  pub odd : m.next_stream_id % 2 ≡ 1

record Fixes (m n : Manager) : Type 0 where
  frame_size : n.max_frame_size ≡ m.max_frame_size
  next_id : n.next_stream_id ≡ m.next_stream_id

fixed : (m n : Manager) → Fixes m n → IsLimited m → IsLimited n
fixed m n f h = record {
  low = omega (arith, f.frame_size, h.low);
  high = omega (arith, f.frame_size, h.high);
  odd = omega (arith, f.next_id, h.odd);
}

reject_stream-Fixes : (s : ManagedStream) (e : Error) (m : Manager) → Fixes m (reject_stream s e m)
unfolding reject_stream finalize_stream emit_event
reject_stream-Fixes s e m = record { frame_size = ground arith; next_id = ground arith }

reject_each-Fixes :
    (e : Error) (streams : Streams) (m : Manager) → Fixes m (reject_each e streams m)
unfolding reject_each
reject_each-Fixes e [] m = record { frame_size = refl; next_id = refl }
reject_each-Fixes e ((id, s) ∷ streams) m =
    let one = reject_stream-Fixes s e m in
    let rest = reject_each-Fixes e streams (reject_stream s e m) in
    record { frame_size = rest.frame_size ∙ one.frame_size; next_id = rest.next_id ∙ one.next_id }

reject_above-Fixes :
    (last_stream_id : ℕ) (e : Error) (streams : Streams) (m : Manager)
    → Fixes m (reject_above last_stream_id e streams m)
unfolding reject_above
reject_above-Fixes last_stream_id e [] m = record { frame_size = refl; next_id = refl }
reject_above-Fixes last_stream_id e ((id, s) ∷ streams) m =
    let one = reject_stream-Fixes s e m in
    let m' : Manager = if ltb last_stream_id id then reject_stream s e m else m in
    let rest = reject_above-Fixes last_stream_id e streams m' in
    record {
      frame_size = rest.frame_size ∙ ground (arith, one.frame_size);
      next_id = rest.next_id ∙ ground (arith, one.next_id);
    }

goaway-Fixes : (f : GoawayFrame) (m : Manager) → Fixes m (handle_goaway f m)
unfolding handle_goaway emit_event
goaway-Fixes f m =
    let all =
      reject_above-Fixes f.last_stream_id
        (goaway_received_error f.last_stream_id f.error_code f.debug_data) m.streams
        (emit_event (goaway_event f.last_stream_id f.error_code f.debug_data) m) in
    record { frame_size = all.frame_size; next_id = all.next_id }

window_update-Fixes : (f : WindowUpdateFrame) (m : Manager) → Fixes m (handle_window_update f m)
unfolding handle_window_update drain_all drain_stream
window_update-Fixes f m = record { frame_size = ground arith; next_id = ground arith }

clamp_max_frame_size_lem :
    (value : ℕ)
    → (min_max_frame_size ≤ clamp_max_frame_size value)
      × (clamp_max_frame_size value ≤ max_max_frame_size)
unfolding clamp_max_frame_size
clamp_max_frame_size_lem value = ground arith

apply_setting-IsLimited :
    (key value : ℕ) (m : Manager) → IsLimited m → IsLimited (apply_setting key value m)
unfolding apply_setting apply_initial_window_size drain_all
apply_setting-IsLimited key value m h =
    let (low, high) = clamp_max_frame_size_lem value in
    record {
      low = ground (arith, low, h.low);
      high = ground (arith, high, h.high);
      odd = ground (arith, h.odd);
    }

apply_remote_settings-IsLimited :
    (settings : Settings) (m : Manager) → IsLimited m → IsLimited (apply_remote_settings settings m)
unfolding apply_remote_settings
apply_remote_settings-IsLimited [] m h = h
apply_remote_settings-IsLimited ((key, value) ∷ settings) m h =
    apply_remote_settings-IsLimited settings (apply_setting key value m)
      (apply_setting-IsLimited key value m h)

handle_settings-IsLimited :
    (f : SettingsFrame) (m : Manager) → IsLimited m → IsLimited (handle_settings f m)
unfolding handle_settings emit_event send_settings_ack send_frame
handle_settings-IsLimited f m h =
    let applied = apply_remote_settings-IsLimited f.settings m h in
    record {
      low = ground (arith, h.low, applied.low);
      high = ground (arith, h.high, applied.high);
      odd = ground (arith, h.odd, applied.odd);
    }

module _ (to_number : Text → Option ℕ) where
  resolve-Fixes :
      (s t : ManagedStream) (b : Bool) (id n : ℕ) (m l : Manager)
      → Fixes l m
      → let credited =
          if b
          then send_window_update 0 n m
          else send_window_update id n (send_window_update 0 n m) in
        Fixes l (maybe_resolve_response to_number s (put_stream t credited))
  unfolding maybe_resolve_response put_stream emit_event finalize_stream send_window_update
      send_frame
  resolve-Fixes s t b id n m l fix = record {
    frame_size = ground (arith, fix.frame_size);
    next_id = ground (arith, fix.next_id);
  }

  handle_data-Fixes : (f : DataFrame) (m : Manager) → Fixes m (handle_data to_number f m)
  unfolding handle_data
  handle_data-Fixes f m = elim (Option-cases (Table.find f.stream_id m.streams)) [
    | inl none_ ↦ rw (handle_data, none_) (record { frame_size = refl; next_id = refl })
    | inr (s, found) ↦
        let n = length f.payload in
        let counted : Manager = record m {
          connection_receive_window = m.connection_receive_window -ℤ pos n;
        } in
        let chunk = strip_padding f.flags f.payload in
        let received : ManagedStream = record s {
          remote_window = record {
            size = s.remote_window.size -ℤ pos n;
            initial_size = s.remote_window.initial_size;
          };
          response_chunks =
              if ltb 0 (length chunk) then s.response_chunks ++ (chunk ∷ []) else s.response_chunks;
        } in
        elim (Bool-cases (bit_and f.flags 0x1 == 0)) [
          | inl more ↦
              rw (handle_data, found, more)
                (unfold put_stream send_window_update send_frame in
                  record { frame_size = ground arith; next_id = ground arith })
          | inr last ↦
              rw (handle_data, found, last)
                (resolve-Fixes (end_of_stream received) (end_of_stream received) (is_closed s.state)
                  s.id n counted m (record { frame_size = refl; next_id = refl }))
        ]
  ]

  dispatch-IsLimited :
      (f : Frame) (m : Manager) → IsLimited m → IsLimited (dispatch to_number f m).manager
  unfolding dispatch handle_headers handle_rst_stream handle_push_promise handle_ping
      handle_continuation put_stream emit_event send_frame finalize_stream reject_stream
      maybe_resolve_response send_ping_ack send_window_update
  dispatch-IsLimited (data_frame f) m h = fixed m _ (handle_data-Fixes f m) h
  dispatch-IsLimited (headers_frame f) m h =
      fixed m _ (record { frame_size = ground arith; next_id = ground arith }) h
  dispatch-IsLimited (priority_frame f) m h = h
  dispatch-IsLimited (rst_stream_frame f) m h =
      fixed m _ (record { frame_size = ground arith; next_id = ground arith }) h
  dispatch-IsLimited (settings_frame f) m h = handle_settings-IsLimited f m h
  dispatch-IsLimited (push_promise_frame f) m h =
      fixed m _ (record { frame_size = ground arith; next_id = ground arith }) h
  dispatch-IsLimited (ping_frame f) m h =
      fixed m _ (record { frame_size = ground arith; next_id = ground arith }) h
  dispatch-IsLimited (goaway_frame f) m h = fixed m _ (goaway-Fixes f m) h
  dispatch-IsLimited (window_update_frame f) m h = fixed m _ (window_update-Fixes f m) h
  dispatch-IsLimited (continuation_frame f) m h =
      fixed m _ (record { frame_size = ground arith; next_id = ground arith }) h

  call-IsLimited : (c : Call) (m : Manager) → IsLimited m → IsLimited (call to_number c m)
  unfolding call open_stream put_stream apply_window_update abort_all send_data drain_stream
      expect_response
  call-IsLimited (frame_received f) m h = dispatch-IsLimited f m h
  call-IsLimited stream_opened m h = record {
    low = h.low;
    high = h.high;
    odd = omega (arith, h.odd);
  }
  call-IsLimited (data_sent id bytes end_stream) m h =
      fixed m _ (record { frame_size = ground arith; next_id = ground arith }) h
  call-IsLimited (awaited id resolver) m h =
      fixed m _ (record { frame_size = ground arith; next_id = ground arith }) h
  call-IsLimited (window_updated id increment) m h = fixed m _ (window_update-Fixes _ m) h
  call-IsLimited (aborted error) m h =
      let all = reject_each-Fixes error m.streams m in
      fixed m _ (record { frame_size = all.frame_size; next_id = all.next_id }) h

  run_from-IsLimited :
      (calls : List Call) (m : Manager) → IsLimited m → IsLimited (run to_number calls m)
  unfolding run
  run_from-IsLimited [] m h = h
  run_from-IsLimited (c ∷ calls) m h =
      run_from-IsLimited calls (call to_number c m) (call-IsLimited c m h)

  -- Whatever the peer sends and the connection asks, from a new manager on: the frame size is from
  -- 16384 to 16777215, and the next stream id is odd.
  pub run-IsLimited : (calls : List Call) → IsLimited (run to_number calls create_stream_manager)
  unfolding create_stream_manager
  run-IsLimited calls =
      run_from-IsLimited calls create_stream_manager
        (record { low = omega arith; high = omega arith; odd = refl })
