-- ===== src/Common/Throws.antt =====
-- The result of code that may throw, with every error class of the library as a value.
use Prim.Native.Nat.{ℕ, ◌<◌, ◌≤◌}
use native.Mathlib.Omega.{arith}
use mathlib.Core.List.{List}
use mathlib.Core.Path.{◌≡◌, refl}
use mathlib.Core.Bool.{Bool, true, false}
use browsercore_http.Common.Tests.{if◌then◌else◌}

-- src/hpack/error.ts: one constructor for each message that the wire-format modules raise.
pub data HpackFault : Type 0 where
  integer_underflow_first integer_underflow_continuation : HpackFault
  huffman_encode_invalid huffman_underflow huffman_no_code : HpackFault
  string_non_latin1 : ℕ → HpackFault
  string_underflow string_empty_prefix : HpackFault
  string_length_exceeds : ℕ → HpackFault
  header_underflow literal_underflow : HpackFault
  index_out_of_range name_index_out_of_range : ℕ → HpackFault

-- src/errors.ts, with `range_error` for what the platform throws on a bad DataView access and
-- `transport_error` for what the transport rejects with.
pub data Error : Type 0 where
  hpack_error : HpackFault → Error
  frame_parse_error : ℕ → Error
  stream_closed_error : ℕ → Error
  rst_stream_error : ℕ → ℕ → Error
  goaway_received_error : ℕ → ℕ → List ℕ → Error
  connection_closed_error range_error transport_error : Error

-- `stuck` is no value of the source: a loop's fuel ran out.
pub data Outcome {ℓ} (A : Type ℓ) : Type ℓ where
  ok : A → Outcome A
  err : Error → Outcome A
  stuck : Outcome A

infixl 5 ◌>>=◌
abbrev pub ◌>>=◌ {ℓ₁ ℓ₂} :
    {Value : Type ℓ₁} {Next : Type ℓ₂} → Outcome Value → (Value → Outcome Next) → Outcome Next
ok value >>= next = next value
err thrown >>= next = err thrown
stuck >>= next = stuck

abbrev pub IsHpackError : Error → Type 0
IsHpackError (hpack_error fault) = Unit {0}
IsHpackError (frame_parse_error offset) = ⊥
IsHpackError (stream_closed_error id) = ⊥
IsHpackError (rst_stream_error id code) = ⊥
IsHpackError (goaway_received_error last code debug) = ⊥
IsHpackError connection_closed_error = ⊥
IsHpackError range_error = ⊥
IsHpackError transport_error = ⊥

-- The code returns a value that satisfies `P` or throws an `HpackError`: no other error, and no
-- loop that runs out of fuel.
abbrev pub Ends {ℓ} : {A : Type ℓ} → (A → Type 0) → Outcome A → Type 0
Ends P (ok value) = P value
Ends P (err thrown) = IsHpackError thrown
Ends P stuck = ⊥

module _ {ℓ₁ ℓ₂} {A : Type ℓ₁} {B : Type ℓ₂} (P : A → Type 0) (Q : B → Type 0) where
  -- The rest of the code runs on what the first part returns.
  pub >>=-Ends :
      (first : Outcome A) (next : A → Outcome B)
      → Ends P first
      → ((value : A) → P value → Ends Q (next value))
      → Ends Q (first >>= next)
  >>=-Ends (ok value) next h rest = rest value h
  >>=-Ends (err thrown) next h rest = h
  >>=-Ends stuck next h rest = h

module _ {ℓ} {A : Type ℓ} (P : A → Type 0) where
  pub if-Ends :
      (test : Bool) (a b : Outcome A)
      → (test ≡ true → Ends P a)
      → (test ≡ false → Ends P b)
      → Ends P (if test then a else b)
  if-Ends true a b on off = on refl
  if-Ends false a b on off = off refl

  pub Ends-weaken : (Q : A → Type 0) (o : Outcome A) → ((a : A) → P a → Q a) → Ends P o → Ends Q o
  Ends-weaken Q (ok value) weaker h = weaker value h
  Ends-weaken Q (err thrown) weaker h = h
  Ends-weaken Q stuck weaker h = h

-- What is read ends behind `offset`.
abbrev pub EndsPast {ℓ} : {A : Type ℓ} → ℕ → Outcome (A × ℕ) → Type 0
EndsPast offset o = Ends (λ p. offset < p.1) o

pub EndsPast-weaken {ℓ} :
    {A : Type ℓ} (m n : ℕ) (o : Outcome (A × ℕ)) → m ≤ n → EndsPast n o → EndsPast m o
EndsPast-weaken m n (ok p) le h = omega arith
EndsPast-weaken m n (err thrown) le h = h
EndsPast-weaken m n stuck le h = h
