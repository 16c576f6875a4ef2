-- ===== src/Stream/Promises/Runs.antt =====
-- src/stream/stream.ts: the promises in everything that the manager is asked, in any order.
use browsercore_http.Common.{
  ℕ, ◌+◌, ◌≤◌, ◌≡◌, refl, sym, arith, Option, some, List, [], ◌∷◌, inl, inr, Option-cases, Text,
  subst, rst_stream_error,
}
use browsercore_http.Common.Table
use browsercore_http.Frame.Types.{
  Frame, data_frame, headers_frame, priority_frame, rst_stream_frame, settings_frame,
  push_promise_frame, ping_frame, goaway_frame, window_update_frame, continuation_frame,
}
use browsercore_http.Stream.Types.{
  Manager, ManagedStream, create_stream_manager, new_stream, rejected,
}
use browsercore_http.Stream.Settle.{put_stream}
use browsercore_http.Stream.Manager.{dispatch, open_stream, apply_window_update, expect_response}
use browsercore_http.Stream.Credit.Runs.{
  Call, frame_received, stream_opened, data_sent, awaited, window_updated, aborted, call, run,
}
use browsercore_http.Stream.Promises.{
  counted, settlements-append, holds, IsKeyed, registrations-set_found, find-IsKeyed, set-IsKeyed,
}
use browsercore_http.Stream.Promises.Handlers.{Owes, Owes-same}
use browsercore_http.Stream.Promises.Frames.{
  handle_ping-Owes, handle_rst_stream-Owes, handle_data-Owes, handle_headers-Owes,
}
use browsercore_http.Stream.Promises.Pushes.{
  fresh-Owes, handle_push_promise-Owes, handle_continuation-Owes,
}
use browsercore_http.Stream.Promises.Rejections.{abort_all-Owes, handle_goaway-Owes}
use browsercore_http.Stream.Promises.Queues.{
  handle_window_update-Owes, handle_settings-Owes, send_data-Owes,
}

-- Every promise is registered or settled at most as often as a response was awaited with it.
pub record IsAccounted (count : ℕ → ℕ) (m : Manager) : Type 0 where
  pub keyed : IsKeyed m.streams
  pub counts : (p : ℕ) → holds p m ≤ count p

-- How often a response is awaited with the promise.
abbrev pub call_awaits : ℕ → Call → ℕ
call_awaits p (frame_received f) = 0
call_awaits p stream_opened = 0
call_awaits p (data_sent id bytes end_stream) = 0
call_awaits p (awaited id resolver) = counted p (some resolver)
call_awaits p (window_updated id increment) = 0
call_awaits p (aborted error) = 0

abbrev pub awaits : ℕ → List Call → ℕ
awaits p [] = 0
awaits p (c ∷ calls) = call_awaits p c + awaits p calls

accounted :
    (before after : ℕ → ℕ) (m n : Manager)
    → IsAccounted before m
    → ((p : ℕ) → before p ≤ after p)
    → Owes m n
    → IsAccounted after n
accounted before after m n a more o = record {
  keyed = o.keyed;
  counts = λ p. omega (arith, a.counts p, more p, o.counts p);
}

expect_response-IsAccounted :
    (count : ℕ → ℕ) (id r : ℕ) (m : Manager)
    → IsAccounted count m
    → IsAccounted (λ p. count p + counted p (some r)) (expect_response id r m)
unfolding expect_response put_stream
expect_response-IsAccounted count id r m a = elim (Option-cases (Table.find id m.streams)) [
  | inl none_ ↦
      rw (expect_response, none_)
        (record {
          keyed = a.keyed;
          counts = λ p. omega (
            arith,
            a.counts p,
            settlements-append p m.settled (rejected r (rst_stream_error id 0x1) ∷ []),
          );
        })
  | inr (s, found) ↦
      let t : ManagedStream = record s { resolver = some r } in
      let found' : Table.find s.id m.streams ≡ some s =
        subst (λ (j : ℕ). Table.find j m.streams ≡ some s)
          (sym (find-IsKeyed id s m.streams a.keyed found)) found in
      rw (expect_response, found)
        (record {
          keyed = set-IsKeyed s.id t m.streams refl a.keyed;
          counts =
              λ p. omega (arith, a.counts p, registrations-set_found p s.id t s m.streams found');
        })
]

module _ (to_number : Text → Option ℕ) where
  dispatch-Owes :
      (f : Frame) (m : Manager) → IsKeyed m.streams → Owes m (dispatch to_number f m).manager
  unfolding dispatch
  dispatch-Owes (data_frame f) m keyed = handle_data-Owes to_number f m keyed
  dispatch-Owes (headers_frame f) m keyed = handle_headers-Owes to_number f m keyed
  dispatch-Owes (priority_frame f) m keyed = Owes-same m m refl refl keyed
  dispatch-Owes (rst_stream_frame f) m keyed = handle_rst_stream-Owes f m keyed
  dispatch-Owes (settings_frame f) m keyed = handle_settings-Owes f m keyed
  dispatch-Owes (push_promise_frame f) m keyed = handle_push_promise-Owes f m keyed
  dispatch-Owes (ping_frame f) m keyed = handle_ping-Owes f m keyed
  dispatch-Owes (goaway_frame f) m keyed = handle_goaway-Owes f m keyed
  dispatch-Owes (window_update_frame f) m keyed = handle_window_update-Owes f m keyed
  dispatch-Owes (continuation_frame f) m keyed = handle_continuation-Owes to_number f m keyed

  open_stream-Owes : (m : Manager) → IsKeyed m.streams → Owes m (open_stream m).1
  unfolding open_stream put_stream new_stream
  open_stream-Owes m keyed = fresh-Owes m _ _ keyed refl refl refl

  call-IsAccounted :
      (count : ℕ → ℕ) (c : Call) (m : Manager)
      → IsAccounted count m
      → IsAccounted (λ p. count p + call_awaits p c) (call to_number c m)
  unfolding call apply_window_update
  call-IsAccounted count (frame_received f) m a =
      accounted count _ m _ a (λ p. omega arith) (dispatch-Owes f m a.keyed)
  call-IsAccounted count stream_opened m a =
      accounted count _ m _ a (λ p. omega arith) (open_stream-Owes m a.keyed)
  call-IsAccounted count (data_sent id bytes end_stream) m a =
      accounted count _ m _ a (λ p. omega arith) (send_data-Owes id bytes end_stream m a.keyed)
  call-IsAccounted count (awaited id r) m a = expect_response-IsAccounted count id r m a
  call-IsAccounted count (window_updated id increment) m a =
      accounted count _ m _ a (λ p. omega arith) (handle_window_update-Owes _ m a.keyed)
  call-IsAccounted count (aborted error) m a =
      accounted count _ m _ a (λ p. omega arith) (abort_all-Owes error m a.keyed)

  run_from-IsAccounted :
      (calls : List Call) (count : ℕ → ℕ) (m : Manager)
      → IsAccounted count m
      → IsAccounted (λ p. count p + awaits p calls) (run to_number calls m)
  unfolding run
  run_from-IsAccounted [] count m a = record {
    keyed = a.keyed;
    counts = λ p. omega (arith, a.counts p);
  }
  run_from-IsAccounted (c ∷ calls) count m a =
      let rest =
        run_from-IsAccounted calls (λ p. count p + call_awaits p c) (call to_number c m)
          (call-IsAccounted count c m a) in
      record { keyed = rest.keyed; counts = λ p. omega (arith, rest.counts p) }

  -- Whatever the peer sends and the connection asks, in whatever order, from a new manager on: every
  -- stream stands in the map once and under its id, and every promise of a response is settled, or
  -- registered for a stream of the map, at most as often as a response was awaited with it: one
  -- that is awaited once is settled once at most, and is registered no more when it is settled.
  pub run-IsAccounted :
      (calls : List Call)
      → IsAccounted (λ p. awaits p calls) (run to_number calls create_stream_manager)
  unfolding create_stream_manager
  run-IsAccounted calls =
      let all =
        run_from-IsAccounted calls (λ p. 0) create_stream_manager
          (record { keyed = tt; counts = λ p. omega arith }) in
      record { keyed = all.keyed; counts = λ p. omega (arith, all.counts p) }
