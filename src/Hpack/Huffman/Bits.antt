-- ===== src/Hpack/Huffman/Bits.antt =====
-- src/hpack/string.ts: what a Huffman-coded text is as a number, its bits written one after the other.
use browsercore_http.Common.{
  ℕ, ◌+◌, ◌-◌, ◌*◌, ◌^◌, ◌≤◌, ◌<◌, ◌≡◌, arith, ap, ◌∙◌, none, some, List, [], ◌∷◌, ◌++◌, length,
  Text, All, length-append,
}
use browsercore_http.Common.Fields.{pow-add}
use browsercore_http.Hpack.Huffman.Codes.{row_of}

-- How many bits the codes of a text have together.
abbrev pub code_bits : Text → ℕ
code_bits [] = 0
code_bits (c ∷ s) = elim (row_of c) [ none ↦ 0 | some r ↦ r.bits ] + code_bits s

-- The codes of a text as one number, the first code in the highest place.
abbrev pub code_value : Text → ℕ
code_value [] = 0
code_value (c ∷ s) = elim (row_of c) [ none ↦ 0 | some r ↦ r.code ] * 2 ^ code_bits s + code_value s

-- Octets as one number, the first octet in the highest place.
abbrev pub octets_value : List ℕ → ℕ
octets_value [] = 0
octets_value (o ∷ octets) = o * 2 ^ (8 * length octets) + octets_value octets

pub octets_value-snoc :
    (octets : List ℕ) (o : ℕ) → octets_value (octets ++ (o ∷ [])) ≡ octets_value octets * 256 + o
octets_value-snoc [] o = omega arith
octets_value-snoc (x ∷ octets) o =
    let e : 8 * length (octets ++ (o ∷ [])) ≡ 8 * length octets + 8 =
      omega (arith, length-append octets (o ∷ [])) in
    omega (
      arith,
      ap (λ (k : ℕ). x * 2 ^ k) e,
      ap (λ (p : ℕ). x * p) (pow-add (8 * length octets) 8),
      octets_value-snoc octets o,
    )

-- Octets that hold a number of so many bits, filled up with fewer than eight 1-bits.
pub record IsPadded (octets : List ℕ) (bits value : ℕ) : Type 0 where
  pub pad : ℕ
  pub below : pad < 8
  pub fits : All (λ o. o < 256) octets
  pub size : 8 * length octets ≡ bits + pad
  pub holds : octets_value octets ≡ value * 2 ^ pad + (2 ^ pad - 1)

pub IsPadded-same :
    (octets : List ℕ) (bits value bits' value' : ℕ)
    → bits ≡ bits'
    → value ≡ value'
    → IsPadded octets bits value
    → IsPadded octets bits' value'
IsPadded-same octets bits value bits' value' b v p = record {
  pad = p.pad;
  below = p.below;
  fits = p.fits;
  size = p.size ∙ ap (λ (n : ℕ). n + p.pad) b;
  holds = p.holds ∙ ap (λ (n : ℕ). n * 2 ^ p.pad + (2 ^ p.pad - 1)) v;
}

pub octets_value-lt :
    (octets : List ℕ) → All (λ o. o < 256) octets → octets_value octets < 2 ^ (8 * length octets)
octets_value-lt [] h = omega arith
octets_value-lt (o ∷ octets) (low, h) =
    let e : 8 * length (o ∷ octets) ≡ 8 * length octets + 8 = omega arith in
    let more : (o + 1) * 2 ^ (8 * length octets) ≤ 256 * 2 ^ (8 * length octets) = grind (arith) in
    omega (
      arith,
      ap (λ (k : ℕ). 2 ^ k) e,
      pow-add (8 * length octets) 8,
      octets_value-lt octets h,
      more,
    )
