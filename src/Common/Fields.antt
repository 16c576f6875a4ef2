-- ===== src/Common/Fields.antt =====
-- Bit fields of any width as arithmetic: `|` of disjoint fields, `&` with a mask of low bits, and
-- how a number splits at a power of two.
use Prim.Native.Nat.{
  ℕ, zero, suc, ◌+◌, ◌-◌, ◌*◌, ◌/◌, ◌%◌, ◌^◌, ◌≤◌, ◌<◌, min, max, bit_and, bit_or, digits,
  bit_and-bitwise, bit_or-bitwise,
}
use mathlib.Core.Path.{◌≡◌, refl, sym, ap, ◌∙◌}
use native.Mathlib.Omega.{arith}
use native.Mathlib.Nat.{
  pow-suc, one-le-pow, mod-lt, mod-eq_of_lt, div-add-mod, mul-add-div_right, mul-add-mod_self_right,
  zero-mod, div-div-eq-div-mul, div-eq_of_lt,
}

pub pow-pos : (k : ℕ) → 0 < 2 ^ k
pow-pos k = omega (arith, one-le-pow k 2)

pub pow-add : (m n : ℕ) → 2 ^ (m + n) ≡ 2 ^ m * 2 ^ n
pow-add zero n = let e : 0 + n ≡ n = omega arith in omega (arith, ap (λ (k : ℕ). 2 ^ k) e)
pow-add (suc m) n = grind (arith, pow-suc 2 (m + n), pow-suc 2 m, pow-add m n)

-- The remainder by a product, one factor after the other.
pub mod-mul : (a d e : ℕ) → 0 < d → 0 < e → a % (d * e) ≡ a / d % e * d + a % d
mod-mul a d e hd he =
    let low : a / d % e * d + a % d < d * e = grind (arith, mod-lt a hd, mod-lt (a / d) he) in
    let split : a ≡ a / d / e * (d * e) + (a / d % e * d + a % d) =
      omega (arith, div-add-mod a d, ap (λ (t : ℕ). d * t) (div-add-mod (a / d) e)) in
    ap (λ (x : ℕ). x % (d * e)) split
    ∙ mul-add-mod_self_right (a / d / e) (d * e) (a / d % e * d + a % d)
    ∙ mod-eq_of_lt low

-- The recursion behind `|`, on any fuel that covers the upper field.
max-digits-zero : (n q : ℕ) → q ≤ n → digits (λ b. b) max n q 0 ≡ q
max-digits-zero zero zero h = refl
max-digits-zero zero (suc q) h = absurd (omega arith)
max-digits-zero (suc n) zero h = refl
max-digits-zero (suc n) (suc q) h = omega (arith, max-digits-zero n (suc q / 2) (omega arith))

max-digits_fields :
    (n k q a r : ℕ) → a ≡ q * 2 ^ k → a ≤ n → r < 2 ^ k → digits (λ b. b) max n a r ≡ a + r
max-digits_fields zero k q zero r e h low = omega arith
max-digits_fields zero k q (suc a) r e h low = absurd (omega arith)
max-digits_fields (suc n) k q zero r e h low = omega arith
max-digits_fields (suc n) zero q (suc a) r e h low =
    let r0 : r ≡ 0 = omega arith in rw r0 (max-digits-zero (suc n) (suc a) h ∙ omega arith)
max-digits_fields (suc n) (suc k) q (suc a) r e h low =
    let twice : suc a ≡ q * 2 ^ k * 2 = omega (arith, e, ap (λ (t : ℕ). q * t) (pow-suc 2 k)) in
    omega (
      arith,
      pow-suc 2 k,
      max-digits_fields n k q (suc a / 2) (r / 2) (omega arith) (omega arith)
          (omega (arith, pow-suc 2 k)),
    )

-- `(q << k) | r` for an `r` that fits `k` bits.
pub bit_or_fields : (k q r : ℕ) → r < 2 ^ k → bit_or (q * 2 ^ k) r ≡ q * 2 ^ k + r
bit_or_fields k q r low =
    (λ i. bit_or-bitwise (q * 2 ^ k) r i)
    ∙ max-digits_fields (q * 2 ^ k) k q (q * 2 ^ k) r refl (omega arith) low

min-digits_mask : (n k a : ℕ) → a ≤ n → digits (λ b. 0) min n a (2 ^ k - 1) ≡ a % 2 ^ k
min-digits_mask zero k zero h = sym (zero-mod (2 ^ k))
min-digits_mask zero k (suc a) h = absurd (omega arith)
min-digits_mask (suc n) k zero h = sym (zero-mod (2 ^ k))
min-digits_mask (suc n) zero (suc a) h =
    omega (arith, min-digits_mask n zero (suc a / 2) (omega arith))
min-digits_mask (suc n) (suc k) (suc a) h =
    let twice : 2 ^ suc k ≡ 2 * 2 ^ k = omega (arith, pow-suc 2 k) in
    let half : (2 ^ suc k - 1) / 2 ≡ 2 ^ k - 1 = omega (arith, twice, pow-pos k) in
    omega (
      arith,
      twice,
      pow-pos k,
      ap (λ (m : ℕ). suc a % m) twice,
      mod-mul (suc a) 2 (2 ^ k) (omega arith) (pow-pos k),
      min-digits_mask n k (suc a / 2) (omega arith),
      ap (λ (m : ℕ). digits (λ b. 0) min n (suc a / 2) m) half,
    )

pub bit_and_mask : (k a : ℕ) → bit_and a (2 ^ k - 1) ≡ a % 2 ^ k
bit_and_mask k a = (λ i. bit_and-bitwise a (2 ^ k - 1) i) ∙ min-digits_mask a k a (omega arith)

-- A number below the field under it.
module _ (k q r : ℕ) (low : r < 2 ^ k) where
  pub upper_field : (q * 2 ^ k + r) / 2 ^ k ≡ q
  upper_field = mul-add-div_right (pow-pos k) q r ∙ omega (arith, div-eq_of_lt low)

  pub lower_field : (q * 2 ^ k + r) % 2 ^ k ≡ r
  lower_field = mul-add-mod_self_right q (2 ^ k) r ∙ mod-eq_of_lt low

-- The lowest `m` bits are those of the lowest `k`.
pub mod_mod-pow : (m k w : ℕ) → m ≤ k → w % 2 ^ k % 2 ^ m ≡ w % 2 ^ m
mod_mod-pow m k w h =
    let parts : 2 ^ k ≡ 2 ^ m * 2 ^ (k - m) =
      (let e : m + (k - m) ≡ k = omega arith in
        omega (arith, ap (λ (i : ℕ). 2 ^ i) e, pow-add m (k - m))) in
    let split =
      ap (λ (d : ℕ). w % d) parts ∙ mod-mul w (2 ^ m) (2 ^ (k - m)) (pow-pos m) (pow-pos (k - m)) in
    ap (λ (x : ℕ). x % 2 ^ m) split
    ∙ lower_field m (w / 2 ^ m % 2 ^ (k - m)) (w % 2 ^ m) (mod-lt w (pow-pos m))

-- The lowest `m + k` bits are `m` bits over the lowest `k`.
pub mod-pow_add : (m k w : ℕ) → w % 2 ^ (m + k) ≡ w / 2 ^ k % 2 ^ m * 2 ^ k + w % 2 ^ k
mod-pow_add m k w =
    let swapped : 2 ^ (m + k) ≡ 2 ^ k * 2 ^ m = omega (arith, pow-add m k) in
    ap (λ (d : ℕ). w % d) swapped ∙ mod-mul w (2 ^ k) (2 ^ m) (pow-pos k) (pow-pos m)

-- The highest `i` of the lowest `j` bits.
pub high_bits : (i d w : ℕ) → w % 2 ^ (i + d) / 2 ^ d ≡ w / 2 ^ d % 2 ^ i
high_bits i d w =
    ap (λ (x : ℕ). x / 2 ^ d) (mod-pow_add i d w)
    ∙ upper_field d (w / 2 ^ d % 2 ^ i) (w % 2 ^ d) (mod-lt w (pow-pos d))

pub div-pow_add : (m n w : ℕ) → w / 2 ^ m / 2 ^ n ≡ w / 2 ^ (m + n)
div-pow_add m n w = div-div-eq-div-mul w (2 ^ m) (2 ^ n) ∙ sym (ap (λ (d : ℕ). w / d) (pow-add m n))
