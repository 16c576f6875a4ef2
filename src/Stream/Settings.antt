-- ===== src/Stream/Settings.antt =====
-- src/stream/stream.ts: the send windows of all streams, `applyRemoteSettings` and
-- `handleWindowUpdate`.
use browsercore_http.Common.{ℕ, none, some, List, [], ◌∷◌, ◌++◌, ◌==◌, ltb, if◌then◌else◌}
use browsercore_http.Common.Int.{ℤ, pos, ◌+ℤ◌, ◌-ℤ◌}
use browsercore_http.Common.Table
use browsercore_http.Frame.Types.{Frame, Settings, WindowUpdateFrame}
use browsercore_http.Stream.Types.{
  Manager, ManagedStream, Streams, min_max_frame_size, max_max_frame_size,
}
use browsercore_http.Stream.Drain.{drain}

-- `clampMaxFrameSize`; a 32-bit value is finite.
unfoldable pub clamp_max_frame_size : ℕ → ℕ
clamp_max_frame_size value =
    if ltb value min_max_frame_size
    then min_max_frame_size
    else if ltb max_max_frame_size value
    then max_max_frame_size
    else value

-- `drainSendQueue(s)` for a stream of the map.
unfoldable pub drain_stream : ManagedStream → Manager → Manager
drain_stream s m =
    let d =
      drain m.max_frame_size
        (record { window = m.connection_send_window; stream = s; frames = [] }) in
    record m {
      streams = Table.set s.id d.stream m.streams;
      connection_send_window = d.window;
      sent = m.sent ++ d.frames;
    }

-- What `for (const s of streams.values()) drainSendQueue(s)` changes.
pub record DrainedAll : Type 0 where
  pub streams : Streams
  pub window : ℤ
  pub frames : List Frame

unfoldable pub drain_each : ℕ → ℤ → Streams → DrainedAll
drain_each max_frame_size window [] = record { streams = []; window = window; frames = [] }
drain_each max_frame_size window ((id, s) ∷ streams) =
    let d = drain max_frame_size (record { window = window; stream = s; frames = [] }) in
    let rest = drain_each max_frame_size d.window streams in
    record {
      streams = (id, d.stream) ∷ rest.streams;
      window = rest.window;
      frames = d.frames ++ rest.frames;
    }

unfoldable pub drain_all : Manager → Manager
drain_all m =
    let r = drain_each m.max_frame_size m.connection_send_window m.streams in
    record m { streams = r.streams; connection_send_window = r.window; sent = m.sent ++ r.frames }

-- `s.localWindow = { size: s.localWindow.size + delta, … }`
unfoldable pub grow_local : ℤ → ManagedStream → ManagedStream
grow_local delta s = record s {
  local_window = record {
    size = s.local_window.size +ℤ delta;
    initial_size = s.local_window.initial_size;
  };
}

unfoldable pub grow_each : ℤ → Streams → Streams
grow_each delta [] = []
grow_each delta ((id, s) ∷ streams) = (id, grow_local delta s) ∷ grow_each delta streams

-- The case of SETTINGS_INITIAL_WINDOW_SIZE.
unfoldable pub apply_initial_window_size : ℕ → Manager → Manager
apply_initial_window_size value m =
    let delta = pos value -ℤ pos m.remote_initial_window_size in
    drain_all (record m { remote_initial_window_size = value; streams = grow_each delta m.streams })

unfoldable pub apply_setting : ℕ → ℕ → Manager → Manager
apply_setting key value m =
    if key == 0x3
    then record m { max_concurrent_streams = value }
    else if key == 0x4
    then apply_initial_window_size value m
    else if key == 0x5
    then record m { max_frame_size = clamp_max_frame_size value }
    else m

unfoldable pub apply_remote_settings : Settings → Manager → Manager
apply_remote_settings [] m = m
apply_remote_settings ((key, value) ∷ settings) m =
    apply_remote_settings settings (apply_setting key value m)

unfoldable pub handle_window_update : WindowUpdateFrame → Manager → Manager
handle_window_update frame m =
    if frame.stream_id == 0
    then drain_all (record m {
      connection_send_window = m.connection_send_window +ℤ pos frame.window_size_increment;
    })
    else elim (Table.find frame.stream_id m.streams) [
      | none ↦ m
      | some s ↦ drain_stream (grow_local (pos frame.window_size_increment) s) m
    ]
