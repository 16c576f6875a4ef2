-- ===== src/Stream/Promises/Queues.antt =====
-- src/stream/stream.ts: what the send queues, the windows and SETTINGS do to the promises.
use browsercore_http.Common.{
  ℕ, ◌≡◌, refl, sym, ap, ◌∙◌, ◌==◌, Bool, some, List, [], ◌∷◌, inl, inr, Bool-cases, Option-cases,
}
use browsercore_http.Common.Int.{pos, ◌-ℤ◌, ◌+ℤ◌}
use browsercore_http.Common.Table
use browsercore_http.Frame.Types.{Settings, SettingsFrame, WindowUpdateFrame}
use browsercore_http.Stream.Types.{Manager, ManagedStream}
use browsercore_http.Stream.Drain.{drain}
use browsercore_http.Stream.Settle.{emit_event, send_frame}
use browsercore_http.Stream.Settings.{
  drain_stream, drain_all, grow_local, grow_each, apply_initial_window_size, apply_setting,
  apply_remote_settings, handle_window_update,
}
use browsercore_http.Stream.Receive.{handle_settings, send_settings_ack}
use browsercore_http.Stream.Manager.{send_data}
use browsercore_http.Stream.Promises.{IsKeyed}
use browsercore_http.Stream.Promises.Handlers.{Owes, Owes-same, Owes-trans, update-Owes}
use browsercore_http.Stream.Promises.Alike.{
  IsAlike, drain-IsAlike, drain_each-AreAlike, grow_each-AreAlike, alike-Owes,
}

drain_stream-Owes :
    (k : ℕ) (s t : ManagedStream) (m : Manager)
    → IsKeyed m.streams
    → Table.find k m.streams ≡ some s
    → IsAlike s t
    → Owes m (drain_stream t m)
unfolding drain_stream
drain_stream-Owes k s t m keyed found (same_id, same_promise) =
    let d =
      drain m.max_frame_size
        (record { window = m.connection_send_window; stream = t; frames = [] }) in
    let (drained_id, drained_promise) =
      drain-IsAlike m.max_frame_size
        (record { window = m.connection_send_window; stream = t; frames = [] }) in
    update-Owes m (drain_stream t m) k s d.stream keyed found (drained_id ∙ same_id)
      (drained_promise ∙ same_promise)
      (ap (λ (j : ℕ). Table.set j d.stream m.streams) (sym drained_id)) refl

drain_all-Owes : (m : Manager) → IsKeyed m.streams → Owes m (drain_all m)
unfolding drain_all
drain_all-Owes m keyed =
    alike-Owes m (drain_all m) keyed
      (drain_each-AreAlike m.max_frame_size m.connection_send_window m.streams) refl

pub handle_window_update-Owes :
    (f : WindowUpdateFrame) (m : Manager) → IsKeyed m.streams → Owes m (handle_window_update f m)
unfolding handle_window_update grow_local
handle_window_update-Owes f m keyed = elim (Bool-cases (f.stream_id == 0)) [
  | inl whole ↦
      let grown : Manager = record m {
        connection_send_window = m.connection_send_window +ℤ pos f.window_size_increment;
      } in
      rw (handle_window_update, whole)
        (Owes-trans m grown _ (Owes-same m grown refl refl keyed) (drain_all-Owes grown keyed))
  | inr one ↦ elim (Option-cases (Table.find f.stream_id m.streams)) [
    | inl none_ ↦ rw (handle_window_update, one, none_) (Owes-same m m refl refl keyed)
    | inr (s, found) ↦
        rw (handle_window_update, one, found)
          (drain_stream-Owes f.stream_id s (grow_local (pos f.window_size_increment) s) m keyed
            found (refl, refl))
  ]
]

apply_initial_window_size-Owes :
    (value : ℕ) (m : Manager) → IsKeyed m.streams → Owes m (apply_initial_window_size value m)
unfolding apply_initial_window_size
apply_initial_window_size-Owes value m keyed =
    let delta = pos value -ℤ pos m.remote_initial_window_size in
    let grown : Manager = record m {
      remote_initial_window_size = value;
      streams = grow_each delta m.streams;
    } in
    let first = alike-Owes m grown keyed (grow_each-AreAlike delta m.streams) refl in
    Owes-trans m grown _ first (drain_all-Owes grown first.keyed)

apply_setting-Owes :
    (key value : ℕ) (m : Manager) → IsKeyed m.streams → Owes m (apply_setting key value m)
unfolding apply_setting
apply_setting-Owes key value m keyed = elim (Bool-cases (key == 0x3)) [
  | inl streams ↦ rw (apply_setting, streams) (Owes-same m _ refl refl keyed)
  | inr other ↦ elim (Bool-cases (key == 0x4)) [
    | inl window ↦ rw (apply_setting, other, window) (apply_initial_window_size-Owes value m keyed)
    | inr neither ↦ elim (Bool-cases (key == 0x5)) [
      | inl size ↦ rw (apply_setting, other, neither, size) (Owes-same m _ refl refl keyed)
      | inr unknown ↦ rw (apply_setting, other, neither, unknown) (Owes-same m m refl refl keyed)
    ]
  ]
]

apply_remote_settings-Owes :
    (settings : Settings) (m : Manager)
    → IsKeyed m.streams
    → Owes m (apply_remote_settings settings m)
unfolding apply_remote_settings
apply_remote_settings-Owes [] m keyed = Owes-same m m refl refl keyed
apply_remote_settings-Owes ((key, value) ∷ settings) m keyed =
    let one = apply_setting-Owes key value m keyed in
    Owes-trans m (apply_setting key value m) _ one
      (apply_remote_settings-Owes settings (apply_setting key value m) one.keyed)

pub handle_settings-Owes :
    (f : SettingsFrame) (m : Manager) → IsKeyed m.streams → Owes m (handle_settings f m)
unfolding handle_settings emit_event send_settings_ack send_frame
handle_settings-Owes f m keyed = elim (Bool-cases f.ack) [
  | inl acked ↦ rw (handle_settings, acked) (Owes-same m _ refl refl keyed)
  | inr asked ↦
      let applied = apply_remote_settings-Owes f.settings m keyed in
      rw (handle_settings, asked)
        (Owes-trans m (apply_remote_settings f.settings m) _ applied
          (Owes-same (apply_remote_settings f.settings m) _ refl refl applied.keyed))
]

pub send_data-Owes :
    (id : ℕ) (bytes : List ℕ) (end_stream : Bool) (m : Manager)
    → IsKeyed m.streams
    → Owes m (send_data id bytes end_stream m)
unfolding send_data
send_data-Owes id bytes end_stream m keyed = elim (Option-cases (Table.find id m.streams)) [
  | inl none_ ↦ rw (send_data, none_) (Owes-same m m refl refl keyed)
  | inr (s, found) ↦ rw (send_data, found) (drain_stream-Owes id s _ m keyed found (refl, refl))
]
