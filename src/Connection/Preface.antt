-- ===== src/Connection/Preface.antt =====
-- src/connection.ts: `connectHttp2`, `sendFrame` and `randomUint64`.
pub mod Sent
use browsercore_http.Common.{
  ℕ, zero, suc, ◌+◌, ◌*◌, ◌^◌, Bool, true, false, Option, none, some, List, [], ◌∷◌, ◌++◌, Text,
  codes,
}
use browsercore_http.Frame.Types.{
  Frame, Settings, settings_frame, window_update_frame, priority_frame,
}
use browsercore_http.Stream.Settle.{send_frame}
use browsercore_http.Connection.Request.{Http2Options, PriorityFrameSpec}
use browsercore_http.Connection.State.{Connection, new_connection}
use browsercore_http.Connection.Calls.{wait_for_settings_ack}
use browsercore_http.Connection.Reader.Frames.{serialize_all}

abbrev pub default_settings_ack_timeout_ms : ℕ
default_settings_ack_timeout_ms = 5000

abbrev line_end : Text
line_end = 13 ∷ 10 ∷ []

abbrev pub client_preface : List ℕ
client_preface =
    codes "PRI * HTTP/2.0" ++ (line_end ++ (line_end ++ (codes "SM" ++ (line_end ++ line_end))))

-- `options.initialSettings ?? {}`, and `grease` where `options.settingsGrease === true`.
abbrev pub given_settings : Option Settings → Settings
given_settings none = []
given_settings (some settings) = settings

abbrev pub given_grease : Option Bool → Bool
given_grease none = false
given_grease (some grease) = grease

unfoldable pub preface_settings : Http2Options → Frame
preface_settings options = settings_frame (record {
  flags = 0;
  stream_id = 0;
  ack = false;
  settings = given_settings options.initial_settings;
  settings_order = options.settings_order;
  grease = given_grease options.settings_grease;
})

unfoldable pub preface_window_update : Http2Options → List Frame
preface_window_update options = elim options.connection_window_update [
  | none ↦ []
  | some increment ↦
      window_update_frame (record { flags = 0; stream_id = 0; window_size_increment = increment })
      ∷ []
]

unfoldable pub frames_of_specs : List PriorityFrameSpec → List Frame
frames_of_specs [] = []
frames_of_specs (spec ∷ specs) =
    priority_frame (record {
      flags = 0;
      stream_id = spec.stream_id;
      exclusive = spec.exclusive;
      stream_dependency = spec.stream_dependency;
      weight = spec.weight;
    })
    ∷ frames_of_specs specs

unfoldable pub preface_priorities : Http2Options → List Frame
unfolding frames_of_specs
preface_priorities options = elim options.priority_frames [
  | none ↦ []
  | some specs ↦ frames_of_specs specs
]

-- The frames that `connectHttp2` sends, in order.
unfoldable pub preface_frames : Http2Options → List Frame
unfolding preface_settings preface_window_update preface_priorities
preface_frames options =
    preface_settings options ∷ (preface_window_update options ++ preface_priorities options)

-- What it writes to the transport.
unfoldable pub preface_octets : ℕ → Http2Options → List ℕ
unfolding preface_frames
preface_octets nibble options = client_preface ++ serialize_all nibble (preface_frames options)

unfoldable pub send_each : List Frame → Connection → Connection
unfolding send_frame
send_each [] c = c
send_each (f ∷ fs) c = send_each fs (record c { manager = send_frame f c.manager })

-- The connection that it returns, whose wait for the SETTINGS ACK has that name. The read loop that
-- it starts is `read_loop`.
unfoldable pub connect_http2 : ℕ → Http2Options → Connection
unfolding new_connection preface_frames send_each wait_for_settings_ack
connect_http2 promise options =
    let timeout_ms : ℕ = elim options.settings_ack_timeout_ms [
      | none ↦ default_settings_ack_timeout_ms
      | some ms ↦ ms
    ] in
    wait_for_settings_ack promise timeout_ms (send_each (preface_frames options) new_connection)

-- `view.getUint32` of the eight octets that the provider has drawn, twice; with fewer it throws.
unfoldable pub random_uint64 : List ℕ → Option ℕ
random_uint64 (a ∷ b ∷ c ∷ d ∷ e ∷ f ∷ g ∷ h ∷ bytes) =
    let hi = a * 2 ^ 24 + b * 2 ^ 16 + c * 256 + d in
    let lo = e * 2 ^ 24 + f * 2 ^ 16 + g * 256 + h in some (hi * 2 ^ 32 + lo)
random_uint64 _ = none
