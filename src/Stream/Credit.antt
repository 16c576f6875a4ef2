-- ===== src/Stream/Credit.antt =====
-- src/stream/stream.ts: the connection's send window against the octets sent, in the functions that
-- send DATA.
pub mod Handlers
pub mod Runs
use browsercore_http.Common.{
  ℕ, zero, suc, ◌+◌, ◌-◌, ◌≤◌, ◌≡◌, refl, ap, ◌∙◌, sym, arith, Bool, true, false, Option, none,
  some, List, [], ◌∷◌, ◌++◌, ◌==◌, ltb, if◌then◌else◌, length, length-append, inl, inr, ◌⊎◌,
  Option-cases, Bool-cases,
}
use browsercore_http.Common.Int.{ℤ, pos, pos_part, ◌-ℤ◌, ◌+ℤ◌, pos-sub, pos-add}
use browsercore_http.Common.Table
use browsercore_http.Frame.Types.{Frame, Settings, WindowUpdateFrame}
use browsercore_http.Stream.Types.{Manager, ManagedStream, Streams}
use browsercore_http.Stream.Drain.{Draining, drain}
use browsercore_http.Stream.Drain.Flow.{sent_payload, sent_payload-append, Flows, drain_lem}
use browsercore_http.Stream.Settings.{
  drain_stream, DrainedAll, drain_each, drain_all, grow_local, grow_each, apply_initial_window_size,
  apply_setting, apply_remote_settings, handle_window_update,
}

-- Of `credit` octets that the peer allowed, `spent` are sent, and the window is what is left.
abbrev pub Owes : ℕ → ℤ → ℕ → Type 0
Owes credit window spent = (spent ≤ credit) × (window ≡ pos (credit - spent))

abbrev pub octets_sent : List Frame → ℕ
octets_sent fs = length (sent_payload fs)

pub octets_sent-append :
    (xs ys : List Frame) → octets_sent (xs ++ ys) ≡ octets_sent xs + octets_sent ys
octets_sent-append xs ys =
    ap length (sent_payload-append xs ys) ∙ length-append (sent_payload xs) (sent_payload ys)

Owes-eq : (credit : ℕ) (window : ℤ) (a b : ℕ) → a ≡ b → Owes credit window a → Owes credit window b
Owes-eq credit window a b e owes = rw (sym e) owes

-- The connection's window is the credit less every DATA octet sent so far.
abbrev pub Balanced : ℕ → Manager → Type 0
Balanced credit m = Owes credit m.connection_send_window (octets_sent m.sent)

within :
    (credit spent more : ℕ) (window : ℤ) (moved : List Frame)
    → Owes credit window spent
    → octets_sent moved ≡ more
    → (moved ≡ []) ⊎ (octets_sent moved ≤ pos_part window)
    → more ≤ credit - spent
within credit spent more window moved owes e (inl none_) = omega (arith, ap octets_sent none_)
within credit spent more window moved owes e (inr le) = omega (arith, ap pos_part owes.1)

drain-Owes :
    (credit spent max_frame_size : ℕ) (window : ℤ) (s : ManagedStream)
    → Owes credit window spent
    → let d = drain max_frame_size (record { window = window; stream = s; frames = [] }) in
      Owes credit d.window (spent + octets_sent d.frames)
drain-Owes credit spent max_frame_size window s owes =
    let d : Draining = record { window = window; stream = s; frames = [] } in
    let (moved, f) = (drain_lem max_frame_size d).1 in
    let more = octets_sent moved in
    let room : more ≤ credit - spent =
      within credit spent more window moved owes refl f.connection_within in
    let counted : octets_sent (drain max_frame_size d).frames ≡ more = ap octets_sent f.logged in
    (
      omega (arith, owes.0),
      f.connection_paid
          ∙ ap (λ (w : ℤ). w -ℤ pos more) owes.1
          ∙ pos-sub (credit - spent) more room
          ∙ ap pos (omega arith),
    )

pub drain_stream-Balanced :
    (credit : ℕ) (s : ManagedStream) (m : Manager)
    → Balanced credit m
    → Balanced credit (drain_stream s m)
unfolding drain_stream
drain_stream-Balanced credit s m b =
    let d : Draining =
      drain m.max_frame_size
        (record { window = m.connection_send_window; stream = s; frames = [] }) in
    rw (octets_sent-append m.sent d.frames)
      (drain-Owes credit (octets_sent m.sent) m.max_frame_size m.connection_send_window s b)

drain_each-Owes :
    (credit spent max_frame_size : ℕ) (window : ℤ) (streams : Streams)
    → Owes credit window spent
    → let r = drain_each max_frame_size window streams in
      Owes credit r.window (spent + octets_sent r.frames)
unfolding drain_each
drain_each-Owes credit spent max_frame_size window [] owes =
    Owes-eq credit window _ _ (omega arith) owes
drain_each-Owes credit spent max_frame_size window ((id, s) ∷ streams) owes =
    let d : Draining = drain max_frame_size (record { window = window; stream = s; frames = [] }) in
    let rest : DrainedAll = drain_each max_frame_size d.window streams in
    let one = drain-Owes credit spent max_frame_size window s owes in
    let all =
      drain_each-Owes credit (spent + octets_sent d.frames) max_frame_size d.window streams one in
    Owes-eq credit rest.window _ _ (omega (arith, octets_sent-append d.frames rest.frames)) all

drain_all-Balanced : (credit : ℕ) (m : Manager) → Balanced credit m → Balanced credit (drain_all m)
unfolding drain_all
drain_all-Balanced credit m b =
    let r : DrainedAll = drain_each m.max_frame_size m.connection_send_window m.streams in
    rw (octets_sent-append m.sent r.frames) (
      drain_each-Owes credit (octets_sent m.sent) m.max_frame_size m.connection_send_window
        m.streams b)

apply_setting-Balanced :
    (credit key value : ℕ) (m : Manager)
    → Balanced credit m
    → Balanced credit (apply_setting key value m)
unfolding apply_setting apply_initial_window_size
apply_setting-Balanced credit key value m b =
    let delta = pos value -ℤ pos m.remote_initial_window_size in
    let moved : Manager = record m {
      remote_initial_window_size = value;
      streams = grow_each delta m.streams;
    } in
    elim (Bool-cases (key == 0x3)) [
      | inl three ↦ rw three b
      | inr three ↦ elim (Bool-cases (key == 0x4)) [
        | inl four ↦ rw (three, four) (drain_all-Balanced credit moved b)
        | inr four ↦ elim (Bool-cases (key == 0x5)) [
          | inl five ↦ rw (three, four, five) b
          | inr five ↦ rw (three, four, five) b
        ]
      ]
    ]

pub apply_remote_settings-Balanced :
    (credit : ℕ) (settings : Settings) (m : Manager)
    → Balanced credit m
    → Balanced credit (apply_remote_settings settings m)
unfolding apply_remote_settings
apply_remote_settings-Balanced credit [] m b = b
apply_remote_settings-Balanced credit ((key, value) ∷ settings) m b =
    apply_remote_settings-Balanced credit settings (apply_setting key value m)
      (apply_setting-Balanced credit key value m b)

-- What a WINDOW_UPDATE adds to the connection's credit.
abbrev pub connection_increment : WindowUpdateFrame → ℕ
connection_increment f = if f.stream_id == 0 then f.window_size_increment else 0

more_credit :
    (credit more : ℕ) (window : ℤ) (spent : ℕ)
    → Owes credit window spent
    → Owes (credit + more) (window +ℤ pos more) spent
more_credit credit more window spent owes = (
  omega (arith, owes.0),
  ap (λ (w : ℤ). w +ℤ pos more) owes.1
      ∙ pos-add (credit - spent) more
      ∙ ap pos (omega (arith, owes.0)),
)

pub same_credit : (credit : ℕ) (m : Manager) → Balanced credit m → Balanced (credit + 0) m
same_credit credit m b = (omega (arith, b.0), b.1 ∙ ap pos (omega arith))

pub handle_window_update-Balanced :
    (credit : ℕ) (f : WindowUpdateFrame) (m : Manager)
    → Balanced credit m
    → Balanced (credit + connection_increment f) (handle_window_update f m)
unfolding handle_window_update
handle_window_update-Balanced credit f m b = elim (Bool-cases (f.stream_id == 0)) [
  | inl whole ↦
      let grown : Manager = record m {
        connection_send_window = m.connection_send_window +ℤ pos f.window_size_increment;
      } in
      rw whole (
        drain_all-Balanced (credit + f.window_size_increment) grown (
          more_credit credit f.window_size_increment m.connection_send_window (octets_sent m.sent)
            b))
  | inr single ↦ elim (Option-cases (Table.find f.stream_id m.streams)) [
    | inl none_ ↦ rw (single, none_) (same_credit credit m b)
    | inr (s, found) ↦
        rw (single, found)
          (same_credit credit (drain_stream (grow_local (pos f.window_size_increment) s) m)
            (drain_stream-Balanced credit (grow_local (pos f.window_size_increment) s) m b))
  ]
]
