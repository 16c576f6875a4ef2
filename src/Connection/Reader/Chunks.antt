-- ===== src/Connection/Reader/Chunks.antt =====
-- src/connection.ts: the frames that are read do not depend on how the transport cuts the octets.
use browsercore_http.Common.{
  ℕ, zero, suc, ◌+◌, ◌≤◌, ◌<◌, ◌≡◌, refl, sym, ap, ◌∙◌, arith, List, [], ◌∷◌, ◌++◌, ltb,
  if◌then◌else◌, length, take, drop, transport_error, Outcome, ok, err, stuck, ◌>>=◌, append_assoc,
  append-nil, length-append, inl, inr, Bool-cases, ltb→lt,
}
use mathlib.Core.List.{flatten}
use browsercore_http.Frame.Types.{Frame}
use browsercore_http.Frame.Serialize.{frame_header_length}
use browsercore_http.Frame.Parse.{FrameHeader, parse_frame_header, parse_frame}
use browsercore_http.Connection.Reader.{Incoming, top_up, read_one_frame}

-- All octets that come in, in order.
abbrev pub octets_of : Incoming → List ℕ
octets_of incoming = incoming.read_buffer ++ flatten incoming.unread

-- The next frame of a run of octets, and what follows it.
unfoldable pub next_frame : List ℕ → Outcome (Frame × List ℕ)
next_frame octets =
    if ltb (length octets) 9
    then err transport_error
    else parse_frame_header octets >>= λ header.
        (if ltb (length octets) (9 + header.len)
          then err transport_error
          else parse_frame (take (9 + header.len) octets) >>= λ frame.
              ok (frame, drop (9 + header.len) octets))

-- Where `top_up` succeeds it has enough octets in hand, and has lost none.
record Topped (need : ℕ) (bytes : List ℕ) (unread : List (List ℕ)) : Type 0 where
  in_hand : List ℕ
  left : List (List ℕ)
  succeeds : top_up need bytes unread ≡ ok (in_hand, left)
  kept : in_hand ++ flatten left ≡ bytes ++ flatten unread
  enough : need ≤ length in_hand

top_up-enough :
    (need : ℕ) (bytes : List ℕ) (unread : List (List ℕ))
    → need ≤ length (bytes ++ flatten unread)
    → Topped need bytes unread
unfolding top_up flatten
top_up-enough need bytes [] h =
    let all : need ≤ length bytes = rw (append-nil bytes) at h in
    record { in_hand = bytes; left = []; succeeds = ground (arith, all); kept = refl; enough = all }
top_up-enough need bytes (extra ∷ unread) h =
    let joined = append_assoc bytes extra (flatten unread) in
    elim (Bool-cases (ltb (length bytes) need)) [
      | inl short ↦
          let t = top_up-enough need (bytes ++ extra) unread (rw joined h) in
          record {
            in_hand = t.in_hand;
            left = t.left;
            succeeds = rw (top_up, short) t.succeeds;
            kept = t.kept ∙ joined;
            enough = t.enough;
          }
      | inr full ↦ record {
        in_hand = bytes;
        left = extra ∷ unread;
        succeeds = rw (top_up, full) refl;
        kept = refl;
        enough = ground arith;
      }
    ]

top_up-short :
    (need : ℕ) (bytes : List ℕ) (unread : List (List ℕ))
    → length (bytes ++ flatten unread) < need
    → top_up need bytes unread ≡ err transport_error
unfolding top_up flatten
top_up-short need bytes [] h =
    let all : length bytes < need = rw (append-nil bytes) at h in ground (arith, all)
top_up-short need bytes (extra ∷ unread) h =
    let joined = append_assoc bytes extra (flatten unread) in
    ground (
      arith,
      top_up-short need (bytes ++ extra) unread (rw joined h),
      length-append bytes (extra ++ flatten unread),
    )

parse_frame_header-append :
    (octets rest : List ℕ)
    → 9 ≤ length octets
    → parse_frame_header (octets ++ rest) ≡ parse_frame_header octets
unfolding parse_frame_header
parse_frame_header-append [] rest h = absurd (omega arith)
parse_frame_header-append (a ∷ []) rest h = absurd (omega arith)
parse_frame_header-append (a ∷ b ∷ []) rest h = absurd (omega arith)
parse_frame_header-append (a ∷ b ∷ c ∷ []) rest h = absurd (omega arith)
parse_frame_header-append (a ∷ b ∷ c ∷ d ∷ []) rest h = absurd (omega arith)
parse_frame_header-append (a ∷ b ∷ c ∷ d ∷ e ∷ []) rest h = absurd (omega arith)
parse_frame_header-append (a ∷ b ∷ c ∷ d ∷ e ∷ f ∷ []) rest h = absurd (omega arith)
parse_frame_header-append (a ∷ b ∷ c ∷ d ∷ e ∷ f ∷ g ∷ []) rest h = absurd (omega arith)
parse_frame_header-append (a ∷ b ∷ c ∷ d ∷ e ∷ f ∷ g ∷ i ∷ []) rest h = absurd (omega arith)
parse_frame_header-append (a ∷ b ∷ c ∷ d ∷ e ∷ f ∷ g ∷ i ∷ j ∷ octets) rest h = refl

take-append_le : (n : ℕ) (xs ys : List ℕ) → n ≤ length xs → take n (xs ++ ys) ≡ take n xs
take-append_le zero xs ys h = refl
take-append_le (suc n) [] ys h = absurd (omega arith)
take-append_le (suc n) (x ∷ xs) ys h =
    ap (λ (l : List ℕ). x ∷ l) (take-append_le n xs ys (omega arith))

drop-append_le : (n : ℕ) (xs ys : List ℕ) → n ≤ length xs → drop n (xs ++ ys) ≡ drop n xs ++ ys
drop-append_le zero xs ys h = refl
drop-append_le (suc n) [] ys h = absurd (omega arith)
drop-append_le (suc n) (x ∷ xs) ys h = drop-append_le n xs ys (omega arith)

-- A reading without the state of the transport that it leaves, but for the octets left in it.
abbrev pub seen_as : Outcome (Frame × Incoming) → Outcome (Frame × List ℕ)
seen_as o = o >>= λ (frame, incoming). ok (frame, octets_of incoming)

-- What `readOneFrame` does once it knows the header, and what is to be read then.
abbrev read_rest : List ℕ → List (List ℕ) → FrameHeader → Outcome (Frame × Incoming)
read_rest bytes unread header =
    top_up (frame_header_length + header.len) bytes unread >>= λ (frame_bytes, left).
    (parse_frame (take (frame_header_length + header.len) frame_bytes) >>= λ frame. ok (
      frame,
      record { read_buffer = drop (frame_header_length + header.len) frame_bytes; unread = left },
    ))

abbrev rest_of : List ℕ → FrameHeader → Outcome (Frame × List ℕ)
rest_of octets header =
    if ltb (length octets) (9 + header.len)
    then err transport_error
    else parse_frame (take (9 + header.len) octets) >>= λ frame.
        ok (frame, drop (9 + header.len) octets)

seen_as-parsed :
    (parsed : Outcome Frame) (incoming : Incoming) (octets : List ℕ)
    → octets_of incoming ≡ octets
    → seen_as (parsed >>= λ frame. ok (frame, incoming)) ≡ (parsed >>= λ frame. ok (frame, octets))
seen_as-parsed (ok frame) incoming octets e = rw e refl
seen_as-parsed (err e') incoming octets e = refl
seen_as-parsed stuck incoming octets e = refl

read_rest_lem :
    (bytes : List ℕ) (unread : List (List ℕ)) (header : FrameHeader)
    → seen_as (read_rest bytes unread header) ≡ rest_of (bytes ++ flatten unread) header
read_rest_lem bytes unread header =
    let total = 9 + header.len in
    elim (Bool-cases (ltb (length (bytes ++ flatten unread)) total)) [
      | inl short ↦ rw (short, top_up-short total bytes unread (ltb→lt _ total short)) refl
      | inr whole ↦
          let t = top_up-enough total bytes unread (ground arith) in
          rw (whole, t.succeeds, sym t.kept)
            (rw (take-append_le total t.in_hand (flatten t.left) t.enough) (
              seen_as-parsed (parse_frame (take total t.in_hand))
                (record { read_buffer = drop total t.in_hand; unread = t.left })
                (drop total (t.in_hand ++ flatten t.left))
                (sym (drop-append_le total t.in_hand (flatten t.left) t.enough))))
    ]

read_header_lem :
    (parsed : Outcome FrameHeader) (bytes : List ℕ) (unread : List (List ℕ))
    → seen_as (parsed >>= read_rest bytes unread) ≡ (parsed >>= rest_of (bytes ++ flatten unread))
read_header_lem (ok header) bytes unread = read_rest_lem bytes unread header
read_header_lem (err e) bytes unread = refl
read_header_lem stuck bytes unread = refl

-- `readOneFrame` reads the next frame of the octets that come in, wherever they are cut into reads,
-- leaves the octets behind it, and fails as it would on the octets in one piece: with the
-- transport's error where they end within a frame, and with the parser's where that refuses.
pub read_one_frame_lem :
    (incoming : Incoming) → seen_as (read_one_frame incoming) ≡ next_frame (octets_of incoming)
unfolding read_one_frame next_frame
read_one_frame_lem incoming = elim (Bool-cases (ltb (length (octets_of incoming)) 9)) [
  | inl short ↦
      rw (next_frame, short)
        (rw (top_up-short 9 incoming.read_buffer incoming.unread (ltb→lt _ 9 short)) refl)
  | inr whole ↦
      let t = top_up-enough 9 incoming.read_buffer incoming.unread (ground arith) in
      rw (next_frame, whole)
        (rw t.succeeds (
          rw (sym t.kept) (
            rw (parse_frame_header-append t.in_hand (flatten t.left) t.enough)
              (read_header_lem (parse_frame_header t.in_hand) t.in_hand t.left))))
]
