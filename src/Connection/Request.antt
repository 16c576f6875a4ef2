-- ===== src/Connection/Request.antt =====
-- src/connection.ts: `buildRequestHeaders` and `sendHeaders`, with the request and the options of
-- src/types.ts that they read.
pub mod Loops
pub mod Arranged
pub mod Lookup
pub mod Delivery
use browsercore_http.Common.{
  ℕ, Bool, true, false, not, ◌&&◌, ◌||◌, Option, none, some, List, [], ◌∷◌, ◌++◌, if◌then◌else◌,
  Text, text_eq, codes, Outcome, ok, ◌>>=◌,
}
use browsercore_http.Common.Dict.{Headers, get, has, set}
use browsercore_http.Frame.Types.{Frame, Settings, headers_frame}
use browsercore_http.Hpack.Helpers.{encode_headers}

-- `body` is absent where it is undefined.
pub record Http2Request : Type 0 where
  pub method : Text
  pub scheme : Text
  pub authority : Text
  pub path : Text
  pub headers : Headers
  pub body : Option (List ℕ)

pub record PriorityFrameSpec : Type 0 where
  pub stream_id : ℕ
  pub exclusive : Bool
  pub stream_dependency : ℕ
  pub weight : ℕ

-- The options that shape the preface and the requests. The transport, the clock and the sources of
-- randomness are left out.
pub record Http2Options : Type 0 where
  pub initial_settings : Option Settings
  pub settings_ack_timeout_ms : Option ℕ
  pub settings_order : Option (List ℕ)
  pub settings_grease : Option Bool
  pub connection_window_update : Option ℕ
  pub priority_frames : Option (List PriorityFrameSpec)
  pub pseudo_header_order : Option (List Text)
  pub header_order : Option (List Text)
  pub hpack_huffman : Option Bool
  pub hpack_indexing : Option Bool
  pub hpack_max_table_size : Option ℕ

abbrev pub pseudo_sources : Http2Request → Headers
pseudo_sources req =
    (codes ":method", req.method)
    ∷ (codes ":scheme", req.scheme)
    ∷ (codes ":authority", req.authority)
    ∷ (codes ":path", req.path)
    ∷ []

-- `Array.prototype.includes`, and `has` of a `Set`.
unfoldable pub includes_name : Text → List Text → Bool
includes_name name [] = false
includes_name name (n ∷ names) = text_eq n name || includes_name name names

-- `for (const [name, value] of source) headers.set(name, value)`
unfoldable pub set_all : Headers → Headers → Headers
set_all [] headers = headers
set_all ((name, value) ∷ source) headers = set_all source (set name value headers)

-- The names of an explicit order that the source has, in that order.
unfoldable pub set_ordered : List Text → Headers → Headers → Headers
set_ordered [] source headers = headers
set_ordered (name ∷ order) source headers =
    set_ordered order source
      (elim (get name source) [ none ↦ headers | some value ↦ set name value headers ])

-- The pseudo-headers that the order does not list.
unfoldable pub set_unlisted : List Text → Headers → Headers → Headers
set_unlisted order [] headers = headers
set_unlisted order ((name, value) ∷ source) headers = set_unlisted order source (
    if not (includes_name name order) && not (has name headers)
    then set name value headers
    else headers)

unfoldable pub set_pseudo : Option (List Text) → Headers → Headers → Headers
unfolding set_all set_ordered set_unlisted
set_pseudo none source headers = set_all source headers
set_pseudo (some order) source headers =
    set_unlisted order source (set_ordered order source headers)

-- The names that the loop over the order put into `seen`.
unfoldable pub seen_names : List Text → Headers → List Text
seen_names [] source = []
seen_names (name ∷ order) source = elim (get name source) [
  | none ↦ seen_names order source
  | some value ↦ name ∷ seen_names order source
]

unfoldable pub set_unseen : List Text → Headers → Headers → Headers
set_unseen seen [] headers = headers
set_unseen seen ((name, value) ∷ source) headers =
    set_unseen seen source (if includes_name name seen then headers else set name value headers)

unfoldable pub set_regular : Option (List Text) → Headers → Headers → Headers
unfolding set_all set_ordered seen_names set_unseen
set_regular none source headers = set_all source headers
set_regular (some order) source headers =
    set_unseen (seen_names order source) source (set_ordered order source headers)

unfoldable pub build_request_headers : Http2Options → Http2Request → Headers
unfolding set_pseudo set_regular
build_request_headers options req =
    set_regular options.header_order req.headers
      (set_pseudo options.pseudo_header_order (pseudo_sources req) [])

module _ (to_lower_case : Text → Text) where
  -- The frame that `sendHeaders` sends.
  unfoldable pub request_frame : Http2Options → ℕ → Http2Request → Bool → Outcome Frame
  request_frame options stream_id req end_stream =
      encode_headers to_lower_case (build_request_headers options req) options.hpack_indexing
        options.hpack_huffman options.hpack_max_table_size
      >>= λ encoded. ok (
          headers_frame (record {
            flags = if end_stream then 0x5 else 0x4;
            stream_id = stream_id;
            end_headers = true;
            end_stream = end_stream;
            padded = false;
            payload = encoded;
          }))
