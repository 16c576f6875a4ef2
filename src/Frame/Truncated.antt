-- ===== src/Frame/Truncated.antt =====
-- src/frame/frame.ts: a buffer that ends within a frame.
-- The comment of `parseFrame` has a RangeError for a short buffer; the code throws a `FrameParseError`.
use browsercore_http.Common.{
  ℕ, suc, ◌+◌, ◌-◌, ◌≤◌, ◌<◌, ◌^◌, ◌≡◌, refl, ap, ◌∙◌, arith, List, [], ◌∷◌, ◌++◌, length, take,
  err, frame_parse_error, ltb, if◌then◌else◌, inl, inr, Bool-cases, ltb→lt, length-take,
  length-append,
}
use browsercore_http.Frame.Types.{Frame, type_of, flags_of, stream_id_of}
use browsercore_http.Frame.Serialize.{put_header, serialize_payload, serialize_frame}
use browsercore_http.Frame.Parse.{parse_frame_header, parse_frame}
use browsercore_http.Frame.Wire.{parse-put_header, length-put_header}
use browsercore_http.Frame.RoundTrip.{type_of-lt}

short_header : (buf : List ℕ) → length buf < 9 → parse_frame_header buf ≡ err (frame_parse_error 0)
unfolding parse_frame_header
short_header [] h = refl
short_header (a ∷ []) h = refl
short_header (a ∷ b ∷ []) h = refl
short_header (a ∷ b ∷ c ∷ []) h = refl
short_header (a ∷ b ∷ c ∷ d ∷ []) h = refl
short_header (a ∷ b ∷ c ∷ d ∷ e ∷ []) h = refl
short_header (a ∷ b ∷ c ∷ d ∷ e ∷ f ∷ []) h = refl
short_header (a ∷ b ∷ c ∷ d ∷ e ∷ f ∷ g ∷ []) h = refl
short_header (a ∷ b ∷ c ∷ d ∷ e ∷ f ∷ g ∷ i ∷ []) h = refl
short_header (a ∷ b ∷ c ∷ d ∷ e ∷ f ∷ g ∷ i ∷ j ∷ rest) h = absurd (omega arith)

one_more : (n k : ℕ) → suc n + k ≡ suc (n + k)
one_more n k = omega arith

take-append : (xs ys : List ℕ) (k : ℕ) → take (length xs + k) (xs ++ ys) ≡ xs ++ take k ys
take-append [] ys k = ap (λ (n : ℕ). take n ys) (omega arith)
take-append (x ∷ xs) ys k =
    ap (λ (n : ℕ). take n (x ∷ (xs ++ ys))) (one_more (length xs) k)
    ∙ ap (λ (l : List ℕ). x ∷ l) (take-append xs ys k)

-- The nine octets of the header and a part of the payload.
cut_payload :
    (nibble j : ℕ) (f : Frame)
    → flags_of f < 256
    → stream_id_of f < 2 ^ 31
    → length (serialize_payload nibble f) < 2 ^ 24
    → j < length (serialize_payload nibble f)
    → parse_frame (
        put_header (length (serialize_payload nibble f)) (type_of f) (flags_of f) (stream_id_of f)
        ++ take j (serialize_payload nibble f))
      ≡ err (frame_parse_error 9)
unfolding parse_frame
cut_payload nibble j f hf hs hl below =
    let payload = serialize_payload nibble f in
    let front = put_header (length payload) (type_of f) (flags_of f) (stream_id_of f) in
    ground (
      arith,
      parse-put_header (length payload) (type_of f) (flags_of f) (stream_id_of f) (take j payload)
          hl (type_of-lt f) hf hs,
      length-append front (take j payload),
      length-take j payload,
      length-put_header (length payload) (type_of f) (flags_of f) (stream_id_of f),
    )

-- A buffer that ends within a frame that `serializeFrame` wrote, whose flags fit an octet, whose
-- stream id fits 31 bits and whose payload's length fits 24 bits, is refused with a
-- `FrameParseError`: at offset 0 where its header is not whole, and else at offset 9.
pub parse_frame-take :
    (nibble k : ℕ) (f : Frame)
    → flags_of f < 256
    → stream_id_of f < 2 ^ 31
    → length (serialize_payload nibble f) < 2 ^ 24
    → k < length (serialize_frame nibble f)
    → parse_frame (take k (serialize_frame nibble f))
      ≡ err (frame_parse_error (if ltb k 9 then 0 else 9))
unfolding serialize_frame
parse_frame-take nibble k f hf hs hl below =
    let payload = serialize_payload nibble f in
    let front = put_header (length payload) (type_of f) (flags_of f) (stream_id_of f) in
    let nine = length-put_header (length payload) (type_of f) (flags_of f) (stream_id_of f) in
    elim (Bool-cases (ltb k 9)) [
      | inl early ↦ rw early (
          unfold parse_frame in
          ground (
            arith,
            short_header (take k (front ++ payload))
                (omega (arith, length-take k (front ++ payload), ltb→lt k 9 early)),
          ))
      | inr late ↦
          let far : 9 ≤ k = ground arith in
          let split : take k (front ++ payload) ≡ front ++ take (k - 9) payload =
            ap (λ (n : ℕ). take n (front ++ payload)) (omega (arith, nine))
            ∙ take-append front payload (k - 9) in
          rw (late, split)
            (cut_payload nibble (k - 9) f hf hs hl
              (omega (arith, length-append front payload, nine)))
    ]
