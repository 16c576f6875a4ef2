-- ===== src/Connection/Pings.antt =====
-- src/connection.ts: which promises of `ping` an ACK resolves.
use browsercore_http.Common.{
  ℕ, ◌≡◌, refl, sym, ap, ◌∙◌, subst, arith, Bool, none, List, [], ◌∷◌, ◌++◌, append-nil,
  append_assoc, ◌==◌, ==→eq, inl, inr, if◌then◌else◌, Bool-cases,
}
use browsercore_http.Common.Table
use browsercore_http.Stream.Types.{ping_ack}
use browsercore_http.Connection.State.{
  Connection, PromiseResult, ping_acked, settle, ping_handler, on_ping_ack, hear,
}

abbrev pub Pings : Type 0
Pings = List (ℕ × ℕ)

-- The pings that sent other data, and the `resolve` calls for those that sent this data.
abbrev pub unanswered : ℕ → Pings → Pings
unanswered acked [] = []
unanswered acked ((promise, opaque_data) ∷ pings) =
    if acked == opaque_data
    then unanswered acked pings
    else (promise, opaque_data) ∷ unanswered acked pings

abbrev pub answers : ℕ → Pings → List (ℕ × PromiseResult)
answers acked [] = []
answers acked ((promise, opaque_data) ∷ pings) =
    if acked == opaque_data
    then (promise, ping_acked acked) ∷ answers acked pings
    else answers acked pings

-- No promise stands twice.
abbrev pub IsTable : Pings → Type 0
IsTable [] = Unit {0}
IsTable ((promise, opaque_data) ∷ pings) = (Table.find promise pings ≡ none) × IsTable pings

find-present :
    (kept pings : Pings) (promise opaque_data : ℕ)
    → ¬ (Table.find promise (kept ++ ((promise, opaque_data) ∷ pings)) ≡ none)
unfolding Table.find
find-present [] pings promise opaque_data h = ground (arith, h)
find-present ((q, d) ∷ kept) pings promise opaque_data h =
    ground (arith, h, find-present kept pings promise opaque_data)

-- The head of the second part is not in the first.
IsTable-apart :
    (kept pings : Pings) (promise opaque_data : ℕ)
    → IsTable (kept ++ ((promise, opaque_data) ∷ pings))
    → Table.find promise kept ≡ none
unfolding Table.find
IsTable-apart [] pings promise opaque_data h = refl
IsTable-apart ((q, d) ∷ kept) pings promise opaque_data (new, h) =
    elim (Bool-cases (q == promise)) [
      | inl here ↦
          let same : q ≡ promise = ==→eq q promise here in
          absurd (
            find-present kept pings promise opaque_data (
              subst (λ (k : ℕ). Table.find k (kept ++ ((promise, opaque_data) ∷ pings)) ≡ none) same
                new))
      | inr there ↦ ground (arith, there, IsTable-apart kept pings promise opaque_data h)
    ]

delete-last :
    (kept pings : Pings) (promise opaque_data : ℕ)
    → Table.find promise kept ≡ none
    → Table.delete promise (kept ++ ((promise, opaque_data) ∷ pings)) ≡ kept ++ pings
unfolding Table.find Table.delete
delete-last [] pings promise opaque_data h = ground arith
delete-last ((q, d) ∷ kept) pings promise opaque_data h = elim (Bool-cases (q == promise)) [
  | inl here ↦ absurd (ground (arith, h, here))
  | inr there ↦
      ground (arith, there, delete-last kept pings promise opaque_data (ground (arith, h, there)))
]

find-without :
    (k : ℕ) (kept pings : Pings) (promise opaque_data : ℕ)
    → Table.find k (kept ++ ((promise, opaque_data) ∷ pings)) ≡ none
    → Table.find k (kept ++ pings) ≡ none
unfolding Table.find
find-without k [] pings promise opaque_data h = ground (arith, h)
find-without k ((q, d) ∷ kept) pings promise opaque_data h =
    ground (arith, h, find-without k kept pings promise opaque_data)

IsTable-without :
    (kept pings : Pings) (promise opaque_data : ℕ)
    → IsTable (kept ++ ((promise, opaque_data) ∷ pings))
    → IsTable (kept ++ pings)
IsTable-without [] pings promise opaque_data (new, h) = h
IsTable-without ((q, d) ∷ kept) pings promise opaque_data (new, h) = (
  find-without q kept pings promise opaque_data new,
  IsTable-without kept pings promise opaque_data h,
)

-- What answering the pings of a list leaves.
record Answered (acked : ℕ) (kept pings : Pings) (c d : Connection) : Type 0 where
  listening : d.ping_listeners ≡ kept ++ unanswered acked pings
  answered : d.results ≡ c.results ++ answers acked pings

on_ping_ack-Answered :
    (acked : ℕ) (kept pings : Pings) (c : Connection)
    → c.ping_listeners ≡ kept ++ pings
    → IsTable (kept ++ pings)
    → IsTable pings
    → Answered acked kept pings c (on_ping_ack acked pings c)
unfolding on_ping_ack ping_handler settle
on_ping_ack-Answered acked kept [] c e whole table = record {
  listening = e;
  answered = sym (append-nil c.results);
}
on_ping_ack-Answered acked kept ((promise, opaque_data) ∷ pings) c e whole (new, table) =
    elim (Bool-cases (acked == opaque_data)) [
      | inl mine ↦
          let fewer : Connection = record c {
            ping_listeners = Table.delete promise c.ping_listeners;
          } in
          let result = ping_acked acked in
          let next : Connection = record fewer {
            results = c.results ++ ((promise, result) ∷ []);
          } in
          let step : ping_handler acked promise opaque_data c ≡ next =
            ap (λ (b : Bool). if b then settle promise result fewer else c) mine in
          let gone : next.ping_listeners ≡ kept ++ pings =
            ap (Table.delete promise) e
            ∙ delete-last kept pings promise opaque_data
                (IsTable-apart kept pings promise opaque_data whole) in
          let rest =
            on_ping_ack-Answered acked kept pings next gone
              (IsTable-without kept pings promise opaque_data whole) table in
          subst
            (λ (d : Connection).
              Answered acked kept ((promise, opaque_data) ∷ pings) c (on_ping_ack acked pings d))
            (sym step)
            (record {
              listening = rest.listening ∙ ap (λ (l : Pings). kept ++ l) (rw mine refl);
              answered =
                  rest.answered
                  ∙ append_assoc c.results ((promise, result) ∷ []) (answers acked pings)
                  ∙ ap (λ (l : List (ℕ × PromiseResult)). c.results ++ l) (rw mine refl);
            })
      | inr other ↦
          let more = kept ++ ((promise, opaque_data) ∷ []) in
          let moved = append_assoc kept ((promise, opaque_data) ∷ []) pings in
          let step : ping_handler acked promise opaque_data c ≡ c =
            ap
              (λ (b : Bool).
                if b
                then settle promise (ping_acked acked)
                    (record c { ping_listeners = Table.delete promise c.ping_listeners })
                else c)
              other in
          let rest =
            on_ping_ack-Answered acked more pings c (e ∙ sym moved)
              (subst IsTable (sym moved) whole) table in
          subst
            (λ (d : Connection).
              Answered acked kept ((promise, opaque_data) ∷ pings) c (on_ping_ack acked pings d))
            (sym step)
            (record {
              listening =
                  rest.listening
                  ∙ append_assoc kept ((promise, opaque_data) ∷ []) (unanswered acked pings)
                  ∙ ap (λ (l : Pings). kept ++ l) (rw other refl);
              answered =
                  rest.answered
                  ∙ ap (λ (l : List (ℕ × PromiseResult)). c.results ++ l) (rw other refl);
            })
    ]

-- An ACK of a PING resolves every ping that sent its data, in the order in which they were sent, and
-- no other: those wait on, where no promise stands for two pings.
pub hear-ping_ack :
    (acked : ℕ) (c : Connection)
    → IsTable c.ping_listeners
    → ((hear (ping_ack acked) c).ping_listeners ≡ unanswered acked c.ping_listeners)
      × ((hear (ping_ack acked) c).results ≡ c.results ++ answers acked c.ping_listeners)
unfolding hear
hear-ping_ack acked c table =
    let a = on_ping_ack-Answered acked [] c.ping_listeners c refl table table in
    (a.listening, a.answered)
