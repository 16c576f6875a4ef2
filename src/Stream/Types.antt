-- ===== src/Stream/Types.antt =====
-- src/stream/stream.ts and src/types.ts: the state of a stream and of the stream manager.
-- What a handler does to the outside is a log in the state: the frames given to `sendFrame`, the
-- events given to the private emitter, and the promises settled, each oldest first.
use browsercore_http.Common.{ℕ, Bool, false, Option, none, List, [], Error, if◌then◌else◌}
use browsercore_http.Common.Dict.{Headers}
use browsercore_http.Common.Int.{ℤ, pos}
use browsercore_http.Frame.Types.{Frame}

pub data StreamCloseReason : Type 0 where
  rst_stream : ℕ → StreamCloseReason
  normal : StreamCloseReason
  goaway : ℕ → StreamCloseReason

pub data StreamState : Type 0 where
  idle local_reserved remote_reserved open_state local_half_closed remote_half_closed : StreamState
  closed : StreamCloseReason → StreamState

pub record FlowControlWindow : Type 0 where
  pub size : ℤ
  pub initial_size : ℕ

pub record Http2Response : Type 0 where
  pub status_code : ℕ
  pub headers : Headers
  pub body : List ℕ

-- `resolver` stands for the callbacks `resolve` and `reject`, which the source sets and clears
-- together; the number names the pair.
pub record ManagedStream : Type 0 where
  pub id : ℕ
  pub state : StreamState
  pub local_window : FlowControlWindow
  pub remote_window : FlowControlWindow
  pub headers_complete : Bool
  pub end_stream_seen : Bool
  pub response_headers : Headers
  pub response_chunks : List (List ℕ)
  pub pending_header_bytes : List ℕ
  pub send_queue : List ℕ
  pub send_queue_end_stream : Bool
  pub resolver : Option ℕ
  pub is_push_promise : Bool
  pub push_response : Option Http2Response

unfoldable pub new_stream : ℕ → FlowControlWindow → FlowControlWindow → Bool → ManagedStream
new_stream id local_window remote_window is_push_promise = record {
  id = id;
  state = if is_push_promise then remote_reserved else open_state;
  local_window = local_window;
  remote_window = remote_window;
  headers_complete = false;
  end_stream_seen = false;
  response_headers = [];
  response_chunks = [];
  pending_header_bytes = [];
  send_queue = [];
  send_queue_end_stream = false;
  resolver = none;
  is_push_promise = is_push_promise;
  push_response = none;
}

pub data Event : Type 0 where
  settings_ack : Event
  ping_ack : ℕ → Event
  goaway_event : ℕ → ℕ → List ℕ → Event
  push : ℕ → Headers → Event
  push_response_event : ℕ → Http2Response → Event
  stream_closed : ℕ → Event

pub data Settlement : Type 0 where
  resolved : ℕ → Http2Response → Settlement
  rejected : ℕ → Error → Settlement

abbrev pub Streams : Type 0
Streams = List (ℕ × ManagedStream)

-- The variables of `createStreamManager`.
pub record Manager : Type 0 where
  pub streams : Streams
  pub pending_push_continuation : List (ℕ × ℕ)
  pub remote_initial_window_size : ℕ
  pub max_concurrent_streams : ℕ
  pub max_frame_size : ℕ
  pub connection_send_window : ℤ
  pub connection_receive_window : ℤ
  pub next_stream_id : ℕ
  pub sent : List Frame
  pub events : List Event
  pub settled : List Settlement

abbrev pub default_initial_window_size : ℕ
default_initial_window_size = 65535

abbrev pub min_max_frame_size : ℕ
min_max_frame_size = 16384

abbrev pub max_max_frame_size : ℕ
max_max_frame_size = 16777215

abbrev pub default_max_concurrent_streams : ℕ
default_max_concurrent_streams = 100

abbrev pub default_max_frame_size : ℕ
default_max_frame_size = 16384

unfoldable pub create_stream_manager : Manager
create_stream_manager = record {
  streams = [];
  pending_push_continuation = [];
  remote_initial_window_size = default_initial_window_size;
  max_concurrent_streams = default_max_concurrent_streams;
  max_frame_size = default_max_frame_size;
  connection_send_window = pos default_initial_window_size;
  connection_receive_window = pos default_initial_window_size;
  next_stream_id = 1;
  sent = [];
  events = [];
  settled = [];
}
