-- ===== src/Common/Bits.antt =====
-- Masks on one octet as arithmetic; each is a table of at most 256 entries, checked by evaluation.
use Prim.Native.Nat.{ℕ, zero, suc, ◌+◌, ◌-◌, ◌*◌, ◌/◌, ◌%◌, ◌^◌, ◌<◌, bit_and, bit_or}
use mathlib.Core.Path.{◌≡◌, refl}
use mathlib.Core.Bool.{Bool, true, ◌&&◌}
use mathlib.Core.Logic.{◌⊎◌, inl, inr}
use native.Mathlib.Omega.{arith}
use browsercore_http.Common.Tests.{Bool-cases, ◌==◌, ==→eq}

module _ (f g : ℕ → ℕ) where
  -- The two functions agree on every octet below the bound.
  agree : ℕ → Bool
  agree zero = true
  agree (suc bound) = agree bound && (f bound == g bound)

  equal_below : (bound : ℕ) → agree bound ≡ true → (octet : ℕ) → octet < bound → f octet ≡ g octet
  unfolding agree
  equal_below zero all_agree octet below = absurd (omega arith)
  equal_below (suc bound) all_agree octet below = elim (Bool-cases (octet == bound)) [
    | inl here ↦ rw (==→eq octet bound here) (==→eq (f bound) (g bound) (ground arith))
    | inr before ↦ equal_below bound (ground arith) octet (ground arith)
  ]

-- `octet & 0x7f` and `(octet & 0x80) !== 0`.
pub bit_and-0x7f : (b : ℕ) → b < 256 → bit_and b 0x7f ≡ b % 128
unfolding agree
bit_and-0x7f = equal_below _ _ 256 refl

pub bit_and-0x80 : (b : ℕ) → b < 256 → bit_and b 0x80 ≡ b / 128 * 128
unfolding agree
bit_and-0x80 = equal_below _ _ 256 refl

-- The four flags that the encoder sets over a prefix with those bits clear.
pub bit_or-0x80 : (b : ℕ) → b < 128 → bit_or b 0x80 ≡ b + 128
unfolding agree
bit_or-0x80 = equal_below _ _ 128 refl

pub bit_or-0x40 : (b : ℕ) → b < 64 → bit_or b 0x40 ≡ b + 64
unfolding agree
bit_or-0x40 = equal_below _ _ 64 refl

pub bit_or-0x20 : (b : ℕ) → b < 32 → bit_or b 0x20 ≡ b + 32
unfolding agree
bit_or-0x20 = equal_below _ _ 32 refl

pub bit_or-0x10 : (b : ℕ) → b < 16 → bit_or b 0x10 ≡ b + 16
unfolding agree
bit_or-0x10 = equal_below _ _ 16 refl

-- The decoder's tests on the high bits.
pub bit_and-0xc0 : (b : ℕ) → b < 256 → bit_and b 0xc0 ≡ b / 64 * 64
unfolding agree
bit_and-0xc0 = equal_below _ _ 256 refl

pub bit_and-0xe0 : (b : ℕ) → b < 256 → bit_and b 0xe0 ≡ b / 32 * 32
unfolding agree
bit_and-0xe0 = equal_below _ _ 256 refl

pub bit_and-0xf0 : (b : ℕ) → b < 256 → bit_and b 0xf0 ≡ b / 16 * 16
unfolding agree
bit_and-0xf0 = equal_below _ _ 256 refl

-- The prefix masks `(1 << n) - 1` that the wire format uses.
abbrev pub IsPrefixBits : ℕ → Type 0
IsPrefixBits n = (n ≡ 4) ⊎ ((n ≡ 5) ⊎ ((n ≡ 6) ⊎ (n ≡ 7)))

bit_and-0x0f : (b : ℕ) → b < 256 → bit_and b 15 ≡ b % 16
unfolding agree
bit_and-0x0f = equal_below _ _ 256 refl

bit_and-0x1f : (b : ℕ) → b < 256 → bit_and b 31 ≡ b % 32
unfolding agree
bit_and-0x1f = equal_below _ _ 256 refl

bit_and-0x3f : (b : ℕ) → b < 256 → bit_and b 63 ≡ b % 64
unfolding agree
bit_and-0x3f = equal_below _ _ 256 refl

pub bit_and_prefix : (n b : ℕ) → IsPrefixBits n → b < 256 → bit_and b (2 ^ n - 1) ≡ b % 2 ^ n
bit_and_prefix n b (inl e) h = rw e (bit_and-0x0f b h)
bit_and_prefix n b (inr (inl e)) h = rw e (bit_and-0x1f b h)
bit_and_prefix n b (inr (inr (inl e))) h = rw e (bit_and-0x3f b h)
bit_and_prefix n b (inr (inr (inr e))) h = rw e (bit_and-0x7f b h)
