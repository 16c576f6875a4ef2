-- ===== src/Connection/Waits.antt =====
-- src/connection.ts: how the waits of `waitForSettingsAck` end.
use browsercore_http.Common.{
  ℕ, ◌≡◌, refl, sym, ap, ◌∙◌, arith, false, none, List, [], ◌∷◌, ◌++◌, ◌==◌,
}
use browsercore_http.Common.Table
use browsercore_http.Connection.State.{
  Connection, PromiseResult, settings_acked, settings_ack_timeout, delete_id, has_id,
}
use browsercore_http.Connection.Calls.{wait_for_settings_ack}

-- The promises of the waits whose timer is armed.
abbrev pub armed : List (ℕ × ℕ) → List ℕ
armed [] = []
armed ((promise, timeout_ms) ∷ timers) = promise ∷ armed timers

-- No promise stands twice.
abbrev pub IsDistinct : List ℕ → Type 0
IsDistinct [] = Unit {0}
IsDistinct (promise ∷ promises) = (has_id promise promises ≡ false) × IsDistinct promises

-- The waits that listen are those whose timer is armed, and no promise stands for two of them.
abbrev pub IsPaired : Connection → Type 0
IsPaired c = (c.settings_ack_listeners ≡ armed c.timers) × IsDistinct c.settings_ack_listeners

-- The `resolve` calls that the ACK makes.
abbrev pub acks : List ℕ → List (ℕ × PromiseResult)
acks [] = []
acks (promise ∷ promises) = (promise, settings_acked) ∷ acks promises

-- What an ACK leaves where the listeners are those that it calls, each with an armed timer.
record Acked (promises : List ℕ) (c d : Connection) : Type 0 where
  unheard : d.settings_ack_listeners ≡ []
  disarmed : d.timers ≡ []
  resolved : d.results ≡ c.results ++ acks promises

-- What a timer that is armed leaves.
expired : ℕ → ℕ → Connection → Connection
expired promise timeout_ms c = record c {
  settings_ack_reject = none;
  timers = Table.delete promise c.timers;
  settings_ack_listeners = delete_id promise c.settings_ack_listeners;
  results = c.results ++ ((promise, settings_ack_timeout timeout_ms) ∷ []);
}

armed-append :
    (timers : List (ℕ × ℕ)) (promise timeout_ms : ℕ)
    → armed (timers ++ ((promise, timeout_ms) ∷ [])) ≡ armed timers ++ (promise ∷ [])
armed-append [] promise timeout_ms = refl
armed-append ((q, t) ∷ timers) promise timeout_ms =
    ap (λ (l : List ℕ). q ∷ l) (armed-append timers promise timeout_ms)

has_id-append :
    (id promise : ℕ) (promises : List ℕ)
    → has_id id promises ≡ false
    → (promise == id) ≡ false
    → has_id id (promises ++ (promise ∷ [])) ≡ false
unfolding has_id
has_id-append id promise [] h other = ground (arith, h, other)
has_id-append id promise (q ∷ promises) h other =
    ground (arith, h, other, has_id-append id promise promises)

IsDistinct-append :
    (promise : ℕ) (promises : List ℕ)
    → has_id promise promises ≡ false
    → IsDistinct promises
    → IsDistinct (promises ++ (promise ∷ []))
unfolding has_id
IsDistinct-append promise [] fresh d = (refl, tt)
IsDistinct-append promise (q ∷ promises) fresh (new, d) = (
  has_id-append q promise promises new (ground (arith, fresh)),
  IsDistinct-append promise promises (ground (arith, fresh)) d,
)

-- A wait for a new promise keeps the pairing.
pub wait_for_settings_ack-IsPaired :
    (promise timeout_ms : ℕ) (c : Connection)
    → has_id promise c.settings_ack_listeners ≡ false
    → IsPaired c
    → IsPaired (wait_for_settings_ack promise timeout_ms c)
unfolding wait_for_settings_ack
wait_for_settings_ack-IsPaired promise timeout_ms c fresh (paired, distinct) = (
  ap (λ (l : List ℕ). l ++ (promise ∷ [])) paired ∙ sym (armed-append c.timers promise timeout_ms),
  IsDistinct-append promise c.settings_ack_listeners fresh distinct,
)
