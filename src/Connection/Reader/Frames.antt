-- ===== src/Connection/Reader/Frames.antt =====
-- src/connection.ts: the frames that the peer sends are the frames that the connection handles.
use browsercore_http.Common.{
  ℕ, ◌+◌, ◌<◌, ◌^◌, ◌≡◌, sym, ap, ◌∙◌, arith, false, List, [], ◌∷◌, ◌++◌, ltb, length, ok, ◌>>=◌,
  append_assoc, append-nil, length-append, le→ltb, take-length-append, drop-length-append,
}
use browsercore_http.Frame.Types.{Frame, type_of, flags_of, stream_id_of}
use browsercore_http.Frame.Serialize.{put_header, serialize_payload, serialize_frame}
use browsercore_http.Frame.Parse.{FrameHeader, parse_frame_header, parse_frame}
use browsercore_http.Frame.Wire.{IsWire, parse-put_header, length-put_header}
use browsercore_http.Frame.RoundTrip.{type_of-lt, parse_frame-serialize_frame}
use browsercore_http.Connection.Reader.Chunks.{next_frame}

-- A frame that the wire format can carry.
abbrev pub Fits : ℕ → Frame → Type 0
Fits nibble f =
    IsWire f
    × (flags_of f < 256)
    × (stream_id_of f < 2 ^ 31)
    × (length (serialize_payload nibble f) < 2 ^ 24)

abbrev pub serialize_all : ℕ → List Frame → List ℕ
serialize_all nibble [] = []
serialize_all nibble (f ∷ fs) = serialize_frame nibble f ++ serialize_all nibble fs

pub length-serialize_frame :
    (nibble : ℕ) (f : Frame)
    → length (serialize_frame nibble f) ≡ 9 + length (serialize_payload nibble f)
unfolding serialize_frame
length-serialize_frame nibble f =
    let payload = serialize_payload nibble f in
    length-append (put_header (length payload) (type_of f) (flags_of f) (stream_id_of f)) payload
    ∙ ap (λ (n : ℕ). n + length payload)
        (length-put_header (length payload) (type_of f) (flags_of f) (stream_id_of f))

header_of : ℕ → Frame → FrameHeader
header_of nibble f = record {
  type_byte = type_of f;
  flags = flags_of f;
  stream_id = stream_id_of f;
  len = length (serialize_payload nibble f);
}

read_header :
    (nibble : ℕ) (f : Frame) (rest : List ℕ)
    → Fits nibble f
    → parse_frame_header (serialize_frame nibble f ++ rest) ≡ ok (header_of nibble f)
unfolding serialize_frame header_of
read_header nibble f rest (w, hf, hs, hl) =
    let payload = serialize_payload nibble f in
    ap parse_frame_header (
      append_assoc (put_header (length payload) (type_of f) (flags_of f) (stream_id_of f)) payload
        rest)
    ∙ parse-put_header (length payload) (type_of f) (flags_of f) (stream_id_of f) (payload ++ rest)
        hl (type_of-lt f) hf hs

pub next_frame-serialize_frame :
    (nibble : ℕ) (f : Frame) (rest : List ℕ)
    → Fits nibble f
    → next_frame (serialize_frame nibble f ++ rest) ≡ ok (f, rest)
unfolding next_frame header_of
next_frame-serialize_frame nibble f rest fits =
    let (w, hf, hs, hl) = fits in
    let sent = serialize_frame nibble f in
    let len = length-serialize_frame nibble f in
    let total : 9 + length (serialize_payload nibble f) ≡ length sent = sym len in
    let whole = parse_frame-serialize_frame nibble f [] w hf hs hl in
    let enough₁ : ltb (length (sent ++ rest)) 9 ≡ false =
      le→ltb (length (sent ++ rest)) 9 (omega (arith, len, length-append sent rest)) in
    let enough₂ : ltb (length (sent ++ rest)) (length sent) ≡ false =
      le→ltb (length (sent ++ rest)) (length sent) (omega (arith, length-append sent rest)) in
    rw (enough₁, read_header nibble f rest fits)
      (rw total (
        rw (enough₂, take-length-append sent rest, drop-length-append sent rest)
          (ap (λ o. o >>= λ frame. ok (frame, rest))
            (ap parse_frame (sym (append-nil sent)) ∙ whole))))
