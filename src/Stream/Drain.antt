-- ===== src/Stream/Drain.antt =====
-- src/stream/stream.ts: `drainSendQueue`.
pub mod Flow
use browsercore_http.Common.{
  ℕ, zero, suc, min, Bool, true, false, ◌&&◌, List, [], ◌∷◌, ◌++◌, ◌==◌, if◌then◌else◌, length,
  take, drop, ◌||◌,
}
use browsercore_http.Common.Int.{ℤ, pos, pos_part, ◌-ℤ◌, is_nonpositive}
use browsercore_http.Frame.Types.{Frame, DataFrame, data_frame}
use browsercore_http.Stream.Types.{ManagedStream}

-- What the loop changes: the connection's send window, the stream and the frames sent.
pub record Draining : Type 0 where
  pub window : ℤ
  pub stream : ManagedStream
  pub frames : List Frame

-- The frame of `sendDataFrame`.
unfoldable pub data_frame_of : ℕ → List ℕ → Bool → Frame
data_frame_of stream_id payload end_stream =
    data_frame
      (record { flags = if end_stream then 0x1 else 0; stream_id = stream_id; payload = payload })

-- `Math.min(maxFrameSize, connectionSendWindow, stream.localWindow.size)`, where both windows are
-- above zero.
abbrev pub send_cap : ℕ → Draining → ℕ
send_cap max_frame_size d =
    min max_frame_size (min (pos_part d.window) (pos_part d.stream.local_window.size))

-- One round: the chunk goes out, and both windows pay for it.
unfoldable pub send_chunk : ℕ → Draining → Draining
unfolding data_frame_of
send_chunk cap d =
    let s = d.stream in
    let chunk_len = min cap (length s.send_queue) in
    let is_last = s.send_queue_end_stream && (chunk_len == length s.send_queue) in
    record {
      window = d.window -ℤ pos chunk_len;
      stream = record s {
        local_window = record {
          size = s.local_window.size -ℤ pos chunk_len;
          initial_size = s.local_window.initial_size;
        };
        send_queue = drop chunk_len s.send_queue;
      };
      frames = d.frames ++ (data_frame_of s.id (take chunk_len s.send_queue) is_last ∷ []);
    }

-- The loop's own condition, and its three early returns.
unfoldable pub is_blocked : ℕ → Draining → Bool
is_blocked max_frame_size d =
    (length d.stream.send_queue == 0)
    || (is_nonpositive d.window
        || (is_nonpositive d.stream.local_window.size || (send_cap max_frame_size d == 0)))

-- A round sends an octet at least, so the length of the queue is fuel enough.
unfoldable pub drain_loop : ℕ → ℕ → Draining → Draining
drain_loop zero max_frame_size d = d
drain_loop (suc fuel) max_frame_size d =
    let rest = drain_loop fuel max_frame_size (send_chunk (send_cap max_frame_size d) d) in
    if is_blocked max_frame_size d then d else rest

unfoldable pub drain : ℕ → Draining → Draining
drain max_frame_size d = drain_loop (length d.stream.send_queue) max_frame_size d
