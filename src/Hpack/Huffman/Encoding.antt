-- ===== src/Hpack/Huffman/Encoding.antt =====
-- src/hpack/string.ts: what `huffmanEncode` writes is the codes of the text, one after the other.
use browsercore_http.Common.{
  ℕ, ◌+◌, ◌-◌, ◌*◌, ◌%◌, ◌^◌, ◌≤◌, ◌<◌, ◌≡◌, refl, arith, ap, ◌∙◌, sym, subst, Bool-cases, inl, inr,
  ltb, some, List, [], ◌∷◌, length, Text, All, All-append, length-append, ok, bit_and, bit_or,
}
use native.Mathlib.Nat.{mod-lt}
use browsercore_http.Common.Fields.{pow-pos, pow-add, bit_and_mask}
use browsercore_http.Hpack.HuffmanTable.{HuffmanRow}
use browsercore_http.Hpack.Huffman.Codes.{row_of, IsShort, short_code}
use browsercore_http.Hpack.Huffman.Bits.{
  code_bits, code_value, octets_value, octets_value-snoc, IsPadded, IsPadded-same,
}
use browsercore_http.Hpack.Huffman.{
  shift_left_32, flush_octets, pad_octets, encode_octets, huffman_encode,
}
use browsercore_http.Hpack.Huffman.Flushing.{push_code, IsFlushed, flush_octets_lem}

-- The last octet is filled up with 1-bits.
pad_octets_lem :
    (w n : ℕ) (out : List ℕ)
    → n < 8
    → All (λ o. o < 256) out
    → IsPadded (pad_octets w n out) (8 * length out + n) (octets_value out * 2 ^ n + w % 2 ^ n)
unfolding pad_octets
pad_octets_lem w n out below h = elim (Bool-cases (ltb 0 n)) [
  | inl more ↦
      let pad : ℕ = 8 - n in
      let octet : ℕ = w % 2 ^ n * 2 ^ pad + (2 ^ pad - 1) in
      let e : n + pad ≡ 8 = ground arith in
      let parts : 2 ^ n * 2 ^ pad ≡ 256 = sym (pow-add n pad) ∙ ap (λ (k : ℕ). 2 ^ k) e in
      let written : bit_and (bit_or (shift_left_32 w pad) (2 ^ pad - 1)) 0xff ≡ octet =
        bit_and_mask 8 _
        ∙ sym (ap (λ (k : ℕ). bit_or (shift_left_32 w pad) (2 ^ pad - 1) % 2 ^ k) e)
        ∙ push_code w n pad (2 ^ pad - 1) (omega arith) (omega (arith, pow-pos pad)) in
      let byte : octet < 256 =
        subst (λ (o : ℕ). o < 256) (sym (bit_and_mask 8 _) ∙ written) (mod-lt _ (omega arith)) in
      rw (more, written)
        (record {
          pad = pad;
          below = ground arith;
          fits = All-append _ out _ h (byte, tt);
          size = omega (arith, length-append out (octet ∷ []));
          holds =
              omega
                (arith, octets_value-snoc out octet, ap (λ (x : ℕ). octets_value out * x) parts);
        })
  | inr none_left ↦
      let e : n ≡ 0 = ground arith in
      rw (none_left, e)
        (record { pad = 0; below = omega arith; fits = h; size = omega arith; holds = omega arith })
]

-- One round of the loop over the octets.
encode_octets-row :
    (c : ℕ) (s : Text) (w n : ℕ) (out : List ℕ) (r : HuffmanRow)
    → row_of c ≡ some r
    → (let buffer = bit_or (shift_left_32 w r.bits) r.code in
        let flushed = flush_octets (n + r.bits) buffer (n + r.bits) out in
        encode_octets (c ∷ s) w n out ≡ encode_octets s buffer flushed.0 flushed.1)
unfolding encode_octets
encode_octets-row c s w n out r found = rw (found, encode_octets) refl

pushed_value :
    (w n : ℕ) (out : List ℕ) (buffer left : ℕ) (out' : List ℕ) (r : HuffmanRow)
    → buffer ≡ bit_or (shift_left_32 w r.bits) r.code
    → n + r.bits ≤ 32
    → r.code < 2 ^ r.bits
    → IsFlushed buffer (n + r.bits) out left out'
    → octets_value out' * 2 ^ left + buffer % 2 ^ left
      ≡ (octets_value out * 2 ^ n + w % 2 ^ n) * 2 ^ r.bits + r.code
pushed_value w n out buffer left out' r e room low f = omega (
  arith,
  f.holds,
  ap (λ (x : ℕ). x % 2 ^ (n + r.bits)) e,
  push_code w n r.bits r.code room low,
  ap (λ (x : ℕ). octets_value out * x) (pow-add n r.bits),
)

-- The loop over the octets, behind `out` and `n` pending bits.
encode_octets_lem :
    (s : Text) (w n : ℕ) (out : List ℕ)
    → IsShort s
    → n < 8
    → All (λ o. o < 256) out
    → (octets : List ℕ) × (encode_octets s w n out ≡ ok octets)
      × IsPadded octets
          (8 * length out + n + code_bits s)
          ((octets_value out * 2 ^ n + w % 2 ^ n) * 2 ^ code_bits s + code_value s)
unfolding encode_octets
encode_octets_lem [] w n out short below h = (
  pad_octets w n out,
  refl,
  IsPadded-same _ _ _ _ _ (omega arith) (omega arith) (pad_octets_lem w n out below h),
)
encode_octets_lem (c ∷ s) w n out (here, short) below h =
    let r = short_code c here in
    let buffer : ℕ = bit_or (shift_left_32 w r.r.bits) r.r.code in
    let total : ℕ = n + r.r.bits in
    let f = flush_octets_lem total buffer total out (omega arith) (omega (arith, r.short)) h in
    let rest =
      encode_octets_lem s buffer (flush_octets total buffer total out).0
        (flush_octets total buffer total out).1 short f.below f.fits in
    let before : ℕ = octets_value out * 2 ^ n + w % 2 ^ n in
    let pushed =
      pushed_value w n out _ _ _ r.r refl (omega (arith, r.short)) (omega (arith, r.not_ones)) f in
    let written = encode_octets-row c s w n out r.r r.found ∙ rest.1 in
    (
      rest.0,
      written,
      rw r.found (
          IsPadded-same _ _ _ _ _ (omega (arith, f.size))
            (omega (
              arith,
              ap (λ (x : ℕ). x * 2 ^ code_bits s + code_value s) pushed,
              ap (λ (x : ℕ). before * x) (pow-add r.r.bits (code_bits s)),
            ))
            rest.2),
    )

-- What `huffmanEncode` writes for a text of such code points is the codes of RFC 7541, Appendix B,
-- one after the other and the highest bit first, filled up with fewer than eight 1-bits.
pub huffman_encode_lem :
    (s : Text)
    → IsShort s
    → (octets : List ℕ) × (huffman_encode s ≡ ok octets)
      × IsPadded octets (code_bits s) (code_value s)
unfolding huffman_encode
huffman_encode_lem s short =
    let (octets, written, padded) = encode_octets_lem s 0 0 [] short (omega arith) tt in
    (octets, written, IsPadded-same _ _ _ _ _ (omega arith) (omega arith) padded)
