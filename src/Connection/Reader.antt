-- ===== src/Connection/Reader.antt =====
-- src/connection.ts: `readOneFrame` and `readLoop`.
pub mod Chunks
pub mod Frames
pub mod Loop
use browsercore_http.Common.{
  ℕ, zero, suc, ◌+◌, Bool, List, [], ◌∷◌, ◌++◌, ltb, if◌then◌else◌, length, take, drop, Error,
  transport_error, Outcome, ok, err, stuck, ◌>>=◌,
}
use browsercore_http.Frame.Types.{Frame}
use browsercore_http.Frame.Serialize.{frame_header_length}
use browsercore_http.Frame.Parse.{parse_frame_header, parse_frame}

-- `unread` is what later calls of the transport's `read` give, in order; after those it rejects.
pub record Incoming : Type 0 where
  pub read_buffer : List ℕ
  pub unread : List (List ℕ)

-- `while (bytes.length < need) bytes = concat(bytes, await transport.read())`
unfoldable pub top_up : ℕ → List ℕ → List (List ℕ) → Outcome (List ℕ × List (List ℕ))
top_up need bytes [] = if ltb (length bytes) need then err transport_error else ok (bytes, [])
top_up need bytes (extra ∷ unread) =
    let more = top_up need (bytes ++ extra) unread in
    if ltb (length bytes) need then more else ok (bytes, extra ∷ unread)

unfoldable pub read_one_frame : Incoming → Outcome (Frame × Incoming)
read_one_frame incoming =
    top_up frame_header_length incoming.read_buffer incoming.unread >>= λ (header_bytes, unread).
    (parse_frame_header header_bytes >>= λ header.
    (top_up (frame_header_length + header.len) header_bytes unread >>= λ (frame_bytes, left).
    (parse_frame (take (frame_header_length + header.len) frame_bytes) >>= λ frame. ok (
      frame,
      record { read_buffer = drop (frame_header_length + header.len) frame_bytes; unread = left },
    ))))

-- The loop, over what a frame and an error do to the state. A frame takes nine octets at least, so
-- the number of octets that come in is fuel enough.
module _ {S : Type 0} (is_stopped : S → Bool) (on_frame : Frame → S → S)
    (on_error : Error → S → S) where
  unfoldable pub read_loop : ℕ → Incoming → S → S
  read_loop zero incoming s = s
  read_loop (suc fuel) incoming s = if is_stopped s then s else elim (read_one_frame incoming) [
    | ok (frame, incoming') ↦ read_loop fuel incoming' (on_frame frame s)
    | err e ↦ on_error e s
    | stuck ↦ s
  ]
