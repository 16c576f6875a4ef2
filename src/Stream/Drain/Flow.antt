-- ===== src/Stream/Drain/Flow.antt =====
-- src/stream/stream.ts: what `drainSendQueue` sends, and that it stays within both windows.
use browsercore_http.Common.{
  ℕ, zero, suc, ◌+◌, ◌-◌, ◌≤◌, ◌<◌, ◌≡◌, refl, ap, ◌∙◌, sym, arith, min, true, false, ◌&&◌, List,
  [], ◌∷◌, ◌++◌, ◌==◌, length, take, All, length-append, length-take, length-drop, take-append-drop,
  append_assoc, append-nil, ◌⊎◌, inl, inr, Bool-cases,
}
use browsercore_http.Common.Int.{
  ℤ, pos, negsuc, pos_part, ◌-ℤ◌, is_nonpositive, -ℤ_parts, eq_of_parts,
}
use browsercore_http.Frame.Types.{
  Frame, data_frame, headers_frame, priority_frame, rst_stream_frame, settings_frame,
  push_promise_frame, ping_frame, goaway_frame, window_update_frame, continuation_frame,
}
use browsercore_http.Stream.Drain.{
  Draining, data_frame_of, send_cap, send_chunk, is_blocked, drain_loop, drain,
}

-- The octets that a frame takes from the flow-control windows: those of a DATA payload.
abbrev pub data_payload : Frame → List ℕ
data_payload (data_frame f) = f.payload
data_payload (headers_frame f) = []
data_payload (priority_frame f) = []
data_payload (rst_stream_frame f) = []
data_payload (settings_frame f) = []
data_payload (push_promise_frame f) = []
data_payload (ping_frame f) = []
data_payload (goaway_frame f) = []
data_payload (window_update_frame f) = []
data_payload (continuation_frame f) = []

abbrev pub sent_payload : List Frame → List ℕ
sent_payload [] = []
sent_payload (f ∷ fs) = data_payload f ++ sent_payload fs

pub sent_payload-append :
    (xs ys : List Frame) → sent_payload (xs ++ ys) ≡ sent_payload xs ++ sent_payload ys
sent_payload-append [] ys = refl
sent_payload-append (x ∷ xs) ys =
    ap (◌++◌ (data_payload x)) (sent_payload-append xs ys)
    ∙ sym (append_assoc (data_payload x) (sent_payload xs) (sent_payload ys))

-- What holds between the start and any later point of the loop: `moved` octets went out of the
-- queue, in order and in DATA frames of the stream no longer than the limit, and both windows
-- paid for them.
pub record Flows (max_frame_size : ℕ) (d e : Draining) (moved : List Frame) : Type 0 where
  pub logged : e.frames ≡ d.frames ++ moved
  pub kept : sent_payload moved ++ e.stream.send_queue ≡ d.stream.send_queue
  pub sized : All (λ f. length (data_payload f) ≤ max_frame_size) moved
  pub connection_paid : e.window ≡ d.window -ℤ pos (length (sent_payload moved))
  pub stream_paid :
      e.stream.local_window.size ≡ d.stream.local_window.size -ℤ pos (length (sent_payload moved))
  pub connection_within : (moved ≡ []) ⊎ (length (sent_payload moved) ≤ pos_part d.window)
  pub stream_within :
      (moved ≡ []) ⊎ (length (sent_payload moved) ≤ pos_part d.stream.local_window.size)

sub-zero : (a : ℤ) → a -ℤ pos 0 ≡ a
unfolding ◌-ℤ◌
sub-zero (pos n) = ground arith
sub-zero (negsuc n) = ground arith

sub-add : (a : ℤ) (b c : ℕ) → a -ℤ pos b -ℤ pos c ≡ a -ℤ pos (b + c)
sub-add a b c = omega (arith, -ℤ_parts, eq_of_parts)

Flows-none : (max_frame_size : ℕ) (d : Draining) → Flows max_frame_size d d []
Flows-none max_frame_size d = record {
  logged = sym (append-nil d.frames);
  kept = refl;
  sized = tt;
  connection_paid = sym (sub-zero d.window);
  stream_paid = sym (sub-zero d.stream.local_window.size);
  connection_within = inl refl;
  stream_within = inl refl;
}

left_of :
    (a : ℤ) (n : ℕ)
    → is_nonpositive a ≡ false
    → n ≤ pos_part a
    → pos_part (a -ℤ pos n) ≡ pos_part a - n
unfolding ◌-ℤ◌
left_of (pos m) n h le = ground arith
left_of (negsuc m) n h le = absurd (ground arith)

-- The facts that a round which is not blocked has.
open_round :
    (max_frame_size : ℕ) (d : Draining)
    → is_blocked max_frame_size d ≡ false
    → (is_nonpositive d.window ≡ false)
      × (is_nonpositive d.stream.local_window.size ≡ false)
      × (0 < length d.stream.send_queue)
      × (0 < send_cap max_frame_size d)
unfolding is_blocked
open_round max_frame_size d h = ground arith

abbrev chunk_len : ℕ → Draining → ℕ
chunk_len max_frame_size d = min (send_cap max_frame_size d) (length d.stream.send_queue)

abbrev chunk_frame : ℕ → Draining → Frame
chunk_frame max_frame_size d =
    let s = d.stream in
    data_frame_of s.id (take (chunk_len max_frame_size d) s.send_queue)
      (s.send_queue_end_stream && (chunk_len max_frame_size d == length s.send_queue))

chunk_payload :
    (max_frame_size : ℕ) (d : Draining)
    → data_payload (chunk_frame max_frame_size d)
      ≡ take (chunk_len max_frame_size d) d.stream.send_queue
unfolding data_frame_of
chunk_payload max_frame_size d = refl

length-chunk :
    (max_frame_size : ℕ) (d : Draining)
    → length (take (chunk_len max_frame_size d) d.stream.send_queue) ≡ chunk_len max_frame_size d
length-chunk max_frame_size d =
    omega (arith, length-take (chunk_len max_frame_size d) d.stream.send_queue)

-- A limit on what follows a round is a limit on all of it.
within_more :
    (a : ℤ) (n rest : ℕ) (moved : List Frame)
    → is_nonpositive a ≡ false
    → n ≤ pos_part a
    → length (sent_payload moved) ≡ rest
    → (moved ≡ []) ⊎ (length (sent_payload moved) ≤ pos_part (a -ℤ pos n))
    → n + rest ≤ pos_part a
within_more a n rest moved open_ le e (inl none_) =
    omega (arith, ap (λ fs. length (sent_payload fs)) none_)
within_more a n rest moved open_ le e (inr within) = omega (arith, left_of a n open_ le)

Flows-round :
    (max_frame_size : ℕ) (d e : Draining) (moved : List Frame)
    → is_blocked max_frame_size d ≡ false
    → Flows max_frame_size (send_chunk (send_cap max_frame_size d) d) e moved
    → Flows max_frame_size d e (chunk_frame max_frame_size d ∷ moved)
unfolding send_chunk
Flows-round max_frame_size d e moved going f =
    let n = chunk_len max_frame_size d in
    let q = d.stream.send_queue in
    let (window_open, local_open, some_left, cap_open) = open_round max_frame_size d going in
    let counted : length (take n q ++ sent_payload moved) ≡ n + length (sent_payload moved) =
      length-append (take n q) (sent_payload moved)
      ∙ omega (arith, length-chunk max_frame_size d) in
    record {
      logged = f.logged ∙ append_assoc d.frames (chunk_frame max_frame_size d ∷ []) moved;
      kept =
          append_assoc (take n q) (sent_payload moved) e.stream.send_queue
          ∙ ap (◌++◌ (take n q)) f.kept
          ∙ take-append-drop n q;
      sized = (omega (arith, length-chunk max_frame_size d), f.sized);
      connection_paid =
          f.connection_paid
          ∙ sub-add d.window n (length (sent_payload moved))
          ∙ ap (λ (k : ℕ). d.window -ℤ pos k) (sym counted);
      stream_paid =
          f.stream_paid
          ∙ sub-add d.stream.local_window.size n (length (sent_payload moved))
          ∙ ap (λ (k : ℕ). d.stream.local_window.size -ℤ pos k) (sym counted);
      connection_within = inr (
          rw counted
            (within_more d.window n _ moved window_open (omega arith) refl f.connection_within));
      stream_within = inr (
          rw counted (
            within_more d.stream.local_window.size n _ moved local_open (omega arith) refl
              f.stream_within));
    }

-- The whole loop: some frames went out under the rules above, whatever the fuel.
drain_loop-Flows :
    (fuel max_frame_size : ℕ) (d : Draining)
    → (moved : List Frame) × Flows max_frame_size d (drain_loop fuel max_frame_size d) moved
unfolding drain_loop
drain_loop-Flows zero max_frame_size d = ([], Flows-none max_frame_size d)
drain_loop-Flows (suc fuel) max_frame_size d =
    let next = send_chunk (send_cap max_frame_size d) d in
    elim (Bool-cases (is_blocked max_frame_size d)) [
      | inl stop ↦ rw stop ([], Flows-none max_frame_size d)
      | inr going ↦
          let (moved, f) = drain_loop-Flows fuel max_frame_size next in
          rw going (
            chunk_frame max_frame_size d ∷ moved,
            Flows-round max_frame_size d (drain_loop fuel max_frame_size next) moved going f,
          )
    ]

-- A round that is not blocked makes the queue shorter.
send_chunk-shorter :
    (max_frame_size : ℕ) (d : Draining)
    → is_blocked max_frame_size d ≡ false
    → length (send_chunk (send_cap max_frame_size d) d).stream.send_queue
      < length d.stream.send_queue
unfolding send_chunk
send_chunk-shorter max_frame_size d going =
    let (_, _, some_left, cap_open) = open_round max_frame_size d going in
    omega (arith, length-drop (chunk_len max_frame_size d) d.stream.send_queue)

empty_blocked :
    (max_frame_size : ℕ) (d : Draining)
    → length d.stream.send_queue ≡ 0
    → is_blocked max_frame_size d ≡ true
unfolding is_blocked
empty_blocked max_frame_size d h = ground arith

drain_loop-blocked :
    (fuel max_frame_size : ℕ) (d : Draining)
    → length d.stream.send_queue ≤ fuel
    → is_blocked max_frame_size (drain_loop fuel max_frame_size d) ≡ true
unfolding drain_loop
drain_loop-blocked zero max_frame_size d le = empty_blocked max_frame_size d (omega arith)
drain_loop-blocked (suc fuel) max_frame_size d le =
    let next = send_chunk (send_cap max_frame_size d) d in
    elim (Bool-cases (is_blocked max_frame_size d)) [
      | inl stop ↦ rw stop stop
      | inr going ↦ rw going (
          drain_loop-blocked fuel max_frame_size next
            (omega (arith, send_chunk-shorter max_frame_size d going)))
    ]

-- `drain` stops where the loop of the source stops, with the queue empty, a window closed or no
-- room in a frame; what it sent and what it left in the queue are the queue it started from, in
-- order; each frame is within the frame size; both windows shrink by the octets sent, and neither
-- pays more than it had.
pub drain_lem :
    (max_frame_size : ℕ) (d : Draining)
    → (is_blocked max_frame_size (drain max_frame_size d) ≡ true)
      × ((moved : List Frame) × Flows max_frame_size d (drain max_frame_size d) moved)
unfolding drain
drain_lem max_frame_size d = (
  drain_loop-blocked (length d.stream.send_queue) max_frame_size d (omega arith),
  drain_loop-Flows (length d.stream.send_queue) max_frame_size d,
)
