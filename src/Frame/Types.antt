-- ===== src/Frame/Types.antt =====
-- src/types.ts: the frames, one record for each interface and a constructor for each variant.
-- The optional priority fields of HEADERS are left out: nothing in the library sets or reads them.
use browsercore_http.Common.{ℕ, Bool, Option, List}

-- A settings map: its pairs in the order of `Object.entries`, which for integer keys is ascending.
abbrev pub Settings : Type 0
Settings = List (ℕ × ℕ)

pub record DataFrame : Type 0 where
  pub flags : ℕ
  pub stream_id : ℕ
  pub payload : List ℕ

pub record HeadersFrame : Type 0 where
  pub flags : ℕ
  pub stream_id : ℕ
  pub end_headers : Bool
  pub end_stream : Bool
  pub padded : Bool
  pub payload : List ℕ

pub record PriorityFrame : Type 0 where
  pub flags : ℕ
  pub stream_id : ℕ
  pub exclusive : Bool
  pub stream_dependency : ℕ
  pub weight : ℕ

pub record RstStreamFrame : Type 0 where
  pub flags : ℕ
  pub stream_id : ℕ
  pub error_code : ℕ

pub record SettingsFrame : Type 0 where
  pub flags : ℕ
  pub stream_id : ℕ
  pub ack : Bool
  pub settings : Settings
  pub settings_order : Option (List ℕ)
  pub grease : Bool

pub record PushPromiseFrame : Type 0 where
  pub flags : ℕ
  pub stream_id : ℕ
  pub end_headers : Bool
  pub padded : Bool
  pub promised_stream_id : ℕ
  pub payload : List ℕ

pub record PingFrame : Type 0 where
  pub flags : ℕ
  pub stream_id : ℕ
  pub ack : Bool
  pub opaque_data : ℕ

pub record GoawayFrame : Type 0 where
  pub flags : ℕ
  pub stream_id : ℕ
  pub last_stream_id : ℕ
  pub error_code : ℕ
  pub debug_data : List ℕ

pub record WindowUpdateFrame : Type 0 where
  pub flags : ℕ
  pub stream_id : ℕ
  pub window_size_increment : ℕ

pub record ContinuationFrame : Type 0 where
  pub flags : ℕ
  pub stream_id : ℕ
  pub end_headers : Bool
  pub payload : List ℕ

pub data Frame : Type 0 where
  data_frame : DataFrame → Frame
  headers_frame : HeadersFrame → Frame
  priority_frame : PriorityFrame → Frame
  rst_stream_frame : RstStreamFrame → Frame
  settings_frame : SettingsFrame → Frame
  push_promise_frame : PushPromiseFrame → Frame
  ping_frame : PingFrame → Frame
  goaway_frame : GoawayFrame → Frame
  window_update_frame : WindowUpdateFrame → Frame
  continuation_frame : ContinuationFrame → Frame

-- `frame.type`.
unfoldable pub type_of : Frame → ℕ
type_of (data_frame f) = 0x0
type_of (headers_frame f) = 0x1
type_of (priority_frame f) = 0x2
type_of (rst_stream_frame f) = 0x3
type_of (settings_frame f) = 0x4
type_of (push_promise_frame f) = 0x5
type_of (ping_frame f) = 0x6
type_of (goaway_frame f) = 0x7
type_of (window_update_frame f) = 0x8
type_of (continuation_frame f) = 0x9

unfoldable pub flags_of : Frame → ℕ
flags_of (data_frame f) = f.flags
flags_of (headers_frame f) = f.flags
flags_of (priority_frame f) = f.flags
flags_of (rst_stream_frame f) = f.flags
flags_of (settings_frame f) = f.flags
flags_of (push_promise_frame f) = f.flags
flags_of (ping_frame f) = f.flags
flags_of (goaway_frame f) = f.flags
flags_of (window_update_frame f) = f.flags
flags_of (continuation_frame f) = f.flags

unfoldable pub stream_id_of : Frame → ℕ
stream_id_of (data_frame f) = f.stream_id
stream_id_of (headers_frame f) = f.stream_id
stream_id_of (priority_frame f) = f.stream_id
stream_id_of (rst_stream_frame f) = f.stream_id
stream_id_of (settings_frame f) = f.stream_id
stream_id_of (push_promise_frame f) = f.stream_id
stream_id_of (ping_frame f) = f.stream_id
stream_id_of (goaway_frame f) = f.stream_id
stream_id_of (window_update_frame f) = f.stream_id
stream_id_of (continuation_frame f) = f.stream_id
