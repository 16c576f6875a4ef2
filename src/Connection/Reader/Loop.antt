-- ===== src/Connection/Reader/Loop.antt =====
-- src/connection.ts: `readLoop` on the octets of frames that the peer sent.
use browsercore_http.Common.{
  ℕ, zero, suc, ◌<◌, ◌≡◌, refl, ap, ◌∙◌, arith, Bool, List, [], ◌∷◌, if◌then◌else◌, length, Error,
  transport_error, Outcome, ok, err, stuck, length-append, All,
}
use browsercore_http.Frame.Types.{Frame}
use browsercore_http.Frame.Serialize.{serialize_frame}
use browsercore_http.Connection.Reader.{Incoming, read_one_frame, read_loop}
use browsercore_http.Connection.Reader.Chunks.{octets_of, next_frame, read_one_frame_lem, seen_as}
use browsercore_http.Connection.Reader.Frames.{
  Fits, serialize_all, length-serialize_frame, next_frame-serialize_frame,
}

-- A reading that is seen as a frame and the octets behind it.
record Read (reading : Outcome (Frame × Incoming)) (f : Frame) (rest : List ℕ) : Type 0 where
  left : Incoming
  gives : reading ≡ ok (f, left)
  behind : octets_of left ≡ rest

seen_as-Read :
    (reading : Outcome (Frame × Incoming)) (f : Frame) (rest : List ℕ)
    → seen_as reading ≡ ok (f, rest)
    → Read reading f rest
seen_as-Read (ok (g, left)) f rest h =
    let same : g ≡ f = cc in record { left = left; gives = rw same refl; behind = cc }
seen_as-Read (err e) f rest h = cc
seen_as-Read stuck f rest h = cc

seen_as-err :
    (reading : Outcome (Frame × Incoming)) (e : Error) → seen_as reading ≡ err e → reading ≡ err e
seen_as-err (ok (g, left)) e h = cc
seen_as-err (err e') e h = cc
seen_as-err stuck e h = cc

module _ {S : Type 0} (is_stopped : S → Bool) (on_frame : Frame → S → S)
    (on_error : Error → S → S) where
  -- The frames handled one after the other until the state stops; behind them the transport fails.
  abbrev pub deliver : List Frame → S → S
  deliver [] s = if is_stopped s then s else on_error transport_error s
  deliver (f ∷ fs) s = let rest = deliver fs (on_frame f s) in if is_stopped s then s else rest

  -- Frames that the wire can carry, in however many pieces their octets come in: `readLoop` handles
  -- each of them once and in order while the connection is not closed, then fails with the
  -- transport's error, and it ends within as many rounds as there are octets, and one more.
  pub read_loop-serialize_all :
      (nibble fuel : ℕ) (fs : List Frame) (incoming : Incoming) (s : S)
      → octets_of incoming ≡ serialize_all nibble fs
      → All (Fits nibble) fs
      → length (octets_of incoming) < fuel
      → read_loop is_stopped on_frame on_error fuel incoming s ≡ deliver fs s
  unfolding read_loop next_frame
  read_loop-serialize_all nibble zero fs incoming s e fit h = absurd (omega arith)
  read_loop-serialize_all nibble (suc fuel) [] incoming s e fit h =
      let ends : next_frame (octets_of incoming) ≡ err transport_error = rw (next_frame, e) refl in
      let failed = seen_as-err _ transport_error (read_one_frame_lem incoming ∙ ends) in
      rw (read_loop, failed) refl
  read_loop-serialize_all nibble (suc fuel) (f ∷ fs) incoming s e fit h =
      let rest = serialize_all nibble fs in
      let one = ap next_frame e ∙ next_frame-serialize_frame nibble f rest fit.0 in
      let r = seen_as-Read (read_one_frame incoming) f rest (read_one_frame_lem incoming ∙ one) in
      let shorter : length (octets_of r.left) < fuel = omega (
        arith,
        h,
        ap length e,
        ap length r.behind,
        length-append (serialize_frame nibble f) rest,
        length-serialize_frame nibble f,
      ) in
      let later =
        read_loop-serialize_all nibble fuel fs r.left (on_frame f s) r.behind fit.1 shorter in
      rw (read_loop, r.gives) (rw later refl)
