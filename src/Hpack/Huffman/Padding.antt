-- ===== src/Hpack/Huffman/Padding.antt =====
-- src/hpack/string.ts: the codes of a text with the padding behind them, and what passes for padding.
use browsercore_http.Common.{
  ℕ, zero, suc, ◌+◌, ◌-◌, ◌*◌, ◌^◌, ◌≤◌, ◌<◌, ◌≡◌, refl, arith, ap, ◌∙◌, true, false, leb, lt→ltb,
  eq→==, ◌==◌, [], ◌∷◌, Text,
}
use native.Mathlib.Nat.{mod-eq_of_lt, mod-one, mul-le-mul_right}
use browsercore_http.Common.Fields.{pow-pos, pow-add}
use browsercore_http.Hpack.Huffman.Codes.{IsShort, ShortCode, short_code}
use browsercore_http.Hpack.Huffman.Bits.{code_bits, code_value}
use browsercore_http.Hpack.Huffman.{is_padding}

-- The codes of a text followed by so many 1-bits.
abbrev pub padded_bits : Text → ℕ → ℕ
padded_bits s pad = code_bits s + pad

abbrev pub padded_value : Text → ℕ → ℕ
padded_value s pad = code_value s * 2 ^ pad + (2 ^ pad - 1)

pub le→leb : (a b : ℕ) → a ≤ b → leb a b ≡ true
le→leb a b h = ground arith

pub lt→leb : (a b : ℕ) → b < a → leb a b ≡ false
lt→leb a b h = ground arith

neq→== : (a b : ℕ) → a < b → (a == b) ≡ false
neq→== a b h = ground arith

-- A field below its bits stays below with a full field under it.
fields-lt : (k m code v : ℕ) → code < 2 ^ k → v < 2 ^ m → code * 2 ^ m + v < 2 ^ (k + m)
fields-lt k m code v high low =
    let room : (code + 1) * 2 ^ m ≤ 2 ^ k * 2 ^ m = grind arith in omega (arith, room, pow-add k m)

fields_not_ones :
    (k m code v : ℕ) → code + 1 < 2 ^ k → v < 2 ^ m → code * 2 ^ m + v + 1 < 2 ^ (k + m)
fields_not_ones k m code v high low =
    let more : code + 2 ≤ 2 ^ k = omega arith in
    let room : (code + 2) * 2 ^ m ≤ 2 ^ k * 2 ^ m = mul-le-mul_right (2 ^ m) more in
    omega (arith, room, pow-add k m)

code_value-lt : (s : Text) → IsShort s → code_value s < 2 ^ code_bits s
code_value-lt [] h = omega arith
code_value-lt (c ∷ s) (here, h) =
    let k = short_code c here in
    rw k.found (
      fields-lt k.r.bits (code_bits s) k.r.code (code_value s) (omega (arith, k.not_ones))
        (code_value-lt s h))

-- The codes of a text are not all 1-bits.
code_value_not_ones :
    (c : ℕ) (s : Text) → IsShort (c ∷ s) → code_value (c ∷ s) + 1 < 2 ^ code_bits (c ∷ s)
code_value_not_ones c s (here, h) =
    let k = short_code c here in
    rw k.found (
      fields_not_ones k.r.bits (code_bits s) k.r.code (code_value s) k.not_ones (code_value-lt s h))

pub padded_value-lt : (s : Text) (pad : ℕ) → IsShort s → padded_value s pad < 2 ^ padded_bits s pad
padded_value-lt s pad h =
    fields-lt (code_bits s) pad (code_value s) (2 ^ pad - 1) (code_value-lt s h)
      (omega (arith, pow-pos pad))

is_padding_lem : (v n : ℕ) → v < 2 ^ n → is_padding v n ≡ (v == 2 ^ n - 1)
unfolding is_padding
is_padding_lem v zero h = rw (mod-one v) (let e : v ≡ 0 = omega arith in rw e refl)
is_padding_lem v (suc n) h = rw (lt→ltb 0 (suc n) (omega arith), mod-eq_of_lt h) refl

-- Only the padding passes for padding.
pub ones_pass : (pad : ℕ) → is_padding (2 ^ pad - 1) pad ≡ true
ones_pass pad = is_padding_lem (2 ^ pad - 1) pad (omega (arith, pow-pos pad)) ∙ eq→== _ _ refl

pub codes_do_not_pass :
    (c : ℕ) (s : Text) (pad : ℕ)
    → IsShort (c ∷ s)
    → is_padding (padded_value (c ∷ s) pad) (padded_bits (c ∷ s) pad) ≡ false
codes_do_not_pass c s pad h =
    is_padding_lem (padded_value (c ∷ s) pad) (padded_bits (c ∷ s) pad)
      (padded_value-lt (c ∷ s) pad h)
    ∙ neq→== _ _ (
        omega (
          arith,
          fields_not_ones (code_bits (c ∷ s)) pad (code_value (c ∷ s)) (2 ^ pad - 1)
              (code_value_not_ones c s h) (omega (arith, pow-pos pad)),
        ))

-- The first code of a padded text, and the rest of it.
pub padded_bits-row :
    (c : ℕ) (s : Text) (pad : ℕ) (k : ShortCode c)
    → padded_bits (c ∷ s) pad ≡ k.r.bits + padded_bits s pad
padded_bits-row c s pad k = rw k.found (omega arith)

pub padded_value-row :
    (c : ℕ) (s : Text) (pad : ℕ) (k : ShortCode c)
    → padded_value (c ∷ s) pad ≡ k.r.code * 2 ^ padded_bits s pad + padded_value s pad
padded_value-row c s pad k =
    rw k.found (omega (arith, ap (λ (x : ℕ). k.r.code * x) (pow-add (code_bits s) pad)))
