-- ===== src/Hpack/Huffman/Flushing.antt =====
-- src/hpack/string.ts: the buffer of `huffmanEncode`, and the octets that leave it.
use browsercore_http.Common.{
  ℕ, zero, suc, ◌+◌, ◌-◌, ◌*◌, ◌/◌, ◌%◌, ◌^◌, ◌≤◌, ◌<◌, ◌≡◌, refl, arith, ap, ◌∙◌, sym, Bool-cases,
  inl, inr, ltb, leb, List, [], ◌∷◌, ◌++◌, length, All, All-append, length-append, bit_and, bit_or,
}
use native.Mathlib.Nat.{
  mul-div_cancel, mul-mod_left, add-mul-div_right, add-mul-mod_self_right, mod-lt,
}
use browsercore_http.Common.Fields.{
  pow-pos, pow-add, bit_or_fields, bit_and_mask, upper_field, lower_field, mod_mod-pow, mod-pow_add,
}
use browsercore_http.Hpack.Huffman.Bits.{octets_value, octets_value-snoc}
use browsercore_http.Hpack.Huffman.{shift_left_32, shift_right_32, flush_octets}

-- `buffer << k`, as the bits that stay.
shift_left_32_lem : (w k : ℕ) → k ≤ 32 → shift_left_32 w k ≡ w % 2 ^ (32 - k) * 2 ^ k
unfolding shift_left_32
shift_left_32_lem w k h =
    let whole : 32 - k + k ≡ 32 = omega arith in
    sym (ap (λ (i : ℕ). w * 2 ^ k % 2 ^ i) whole)
    ∙ mod-pow_add (32 - k) k (w * 2 ^ k)
    ∙ rw (mul-div_cancel w (pow-pos k), mul-mod_left w (2 ^ k)) (omega arith)

-- `(buffer << k) | code`: the pending bits and the code behind them.
pub push_code :
    (w n k code : ℕ)
    → n + k ≤ 32
    → code < 2 ^ k
    → bit_or (shift_left_32 w k) code % 2 ^ (n + k) ≡ w % 2 ^ n * 2 ^ k + code
push_code w n k code room low =
    let high : ℕ = w % 2 ^ (32 - k) in
    let joined : bit_or (shift_left_32 w k) code ≡ high * 2 ^ k + code =
      rw (shift_left_32_lem w k (omega arith)) (bit_or_fields k high code low) in
    rw joined (
      mod-pow_add n k (high * 2 ^ k + code)
      ∙ rw
          (
            upper_field k high code low,
            lower_field k high code low,
            mod_mod-pow n (32 - k) w (omega arith),
          )
          refl)

-- The copies of the sign bit stand above the lowest octet.
copied_sign : (w k : ℕ) → k ≤ 24 → (w + 2 ^ 32 * (2 ^ k - 1)) / 2 ^ k % 256 ≡ w / 2 ^ k % 256
copied_sign w k h =
    let copies : ℕ = 2 ^ (24 - k) * (2 ^ k - 1) in
    let whole : 2 ^ 32 ≡ 2 ^ (24 - k) * 256 * 2 ^ k =
      (let e : 24 - k + k ≡ 24 = omega arith in
        omega (arith, ap (λ (i : ℕ). 2 ^ i) e, pow-add (24 - k) k)) in
    let signs : w + 2 ^ 32 * (2 ^ k - 1) ≡ w + copies * 256 * 2 ^ k =
      omega (arith, ap (λ (d : ℕ). w + d * (2 ^ k - 1)) whole) in
    ap (λ (x : ℕ). x / 2 ^ k % 256) signs
    ∙ ap (λ (x : ℕ). x % 256) (add-mul-div_right w (copies * 256) (pow-pos k))
    ∙ add-mul-mod_self_right (w / 2 ^ k) copies 256

-- `(buffer >> k) & 0xff`, also where the sign bit is set.
octet_at : (w k : ℕ) → k ≤ 24 → bit_and (shift_right_32 w k) 0xff ≡ w / 2 ^ k % 256
unfolding shift_right_32
octet_at w k h = elim (Bool-cases (ltb w (2 ^ 31))) [
  | inl plain ↦ rw plain (bit_and_mask 8 (w / 2 ^ k))
  | inr negative ↦ rw negative (bit_and_mask 8 _ ∙ copied_sign w k h)
]

-- What the inner loop leaves: fewer than eight bits, and no bit lost.
pub record IsFlushed (w total : ℕ) (out : List ℕ) (left : ℕ) (out' : List ℕ) : Type 0 where
  pub below : left < 8
  pub fits : All (λ o. o < 256) out'
  pub size : 8 * length out' + left ≡ 8 * length out + total
  pub holds :
      octets_value out' * 2 ^ left + w % 2 ^ left ≡ octets_value out * 2 ^ total + w % 2 ^ total

-- A round writes the highest eight bits.
IsFlushed-suc :
    (w total left : ℕ) (out out' : List ℕ)
    → 8 ≤ total
    → IsFlushed w (total - 8) (out ++ (w / 2 ^ (total - 8) % 256 ∷ [])) left out'
    → IsFlushed w total out left out'
IsFlushed-suc w total left out out' more f =
    let t : ℕ = total - 8 in
    let e : total ≡ 8 + t = omega arith in
    let octet : ℕ = w / 2 ^ t % 256 in
    record {
      below = f.below;
      fits = f.fits;
      size = omega (arith, f.size, length-append out (octet ∷ []));
      holds = omega (
        arith,
        f.holds,
        ap (λ (x : ℕ). x * 2 ^ t) (octets_value-snoc out octet),
        mod-pow_add 8 t w,
        ap (λ (k : ℕ). w % 2 ^ k) e,
        ap (λ (k : ℕ). octets_value out * 2 ^ k) e,
        ap (λ (x : ℕ). octets_value out * x) (pow-add 8 t),
      );
    }

pub flush_octets_lem :
    (fuel w total : ℕ) (out : List ℕ)
    → total ≤ fuel
    → total ≤ 32
    → All (λ o. o < 256) out
    → IsFlushed w total out (flush_octets fuel w total out).0 (flush_octets fuel w total out).1
unfolding flush_octets
flush_octets_lem zero w total out enough room h = record {
  below = omega arith;
  fits = h;
  size = refl;
  holds = refl;
}
flush_octets_lem (suc fuel) w total out enough room h = elim (Bool-cases (leb 8 total)) [
  | inl more ↦ rw more (
      rw (octet_at w (total - 8) (omega arith)) (
        IsFlushed-suc w total _ out _ (ground arith) (
          flush_octets_lem fuel w (total - 8) (out ++ (w / 2 ^ (total - 8) % 256 ∷ []))
            (omega arith) (omega arith) (All-append _ out _ h (mod-lt _ (omega arith), tt)))))
  | inr done ↦ rw done (record { below = ground arith; fits = h; size = refl; holds = refl })
]
