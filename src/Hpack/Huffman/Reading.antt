-- ===== src/Hpack/Huffman/Reading.antt =====
-- src/hpack/string.ts: what the decoder's buffer holds after it has been topped up.
use browsercore_http.Common.{
  ℕ, ◌+◌, ◌*◌, ◌^◌, ◌≤◌, ◌<◌, ◌≡◌, refl, arith, ap, Bool-cases, ◌⊎◌, inl, inr, ltb, List, [], ◌∷◌,
  ◌++◌, length, drop, All, ok, get_elem?-drop, drop_next,
}
use browsercore_http.Common.Fields.{pow-add}
use browsercore_http.Hpack.Huffman.Bits.{octets_value}
use browsercore_http.Hpack.Huffman.{BitReader, top_up}

-- The octets `rest` are still to be read, up to `end` and before `behind`; together with the
-- buffer they are the number `value` of so many bits.
pub record Holds (buf : List ℕ) (end : ℕ) (behind : List ℕ) (bits value : ℕ) (r : BitReader)
    (rest : List ℕ) : Type 0 where
  pub at : drop r.position buf ≡ rest ++ behind
  pub ends : r.position + length rest ≡ end
  pub fits : All (λ o. o < 256) rest
  pub size : r.bits_available + 8 * length rest ≡ bits
  pub holds : r.bit_buffer * 2 ^ (8 * length rest) + octets_value rest ≡ value

module _ (buf : List ℕ) (end : ℕ) (behind : List ℕ) (bits value : ℕ) where
  abbrev next_octet : BitReader → ℕ → BitReader
  next_octet r o = record {
    bit_buffer = r.bit_buffer * 256 + o;
    bits_available = r.bits_available + 8;
    position = r.position + 1;
  }

  read_octet :
      (r : BitReader) (o : ℕ) (rest : List ℕ)
      → Holds buf end behind bits value r (o ∷ rest)
      → Holds buf end behind bits value (next_octet r o) rest
  read_octet r o rest h = record {
    at = drop_next buf r.position o (rest ++ behind) h.at;
    ends = omega (arith, h.ends);
    fits = h.fits.1;
    size = omega (arith, h.size);
    holds =
        (let e : 8 * length (o ∷ rest) ≡ 8 * length rest + 8 = omega arith in
          omega (
            arith,
            h.holds,
            ap (λ (k : ℕ). r.bit_buffer * 2 ^ k) e,
            ap (λ (x : ℕ). r.bit_buffer * x) (pow-add (8 * length rest) 8),
          ));
  }

  -- Topping up loses no bit, and goes on until there are 30 bits or nothing is left to read.
  pub top_up_lem :
      (rest : List ℕ) (r : BitReader)
      → Holds buf end behind bits value r rest
      → (q : BitReader) × (rest' : List ℕ) × (top_up (length rest) buf r ≡ ok q)
        × Holds buf end behind bits value q rest'
        × ((30 ≤ q.bits_available) ⊎ (rest' ≡ []))
  unfolding top_up
  top_up_lem [] r h = (r, [], refl, h, inr refl)
  top_up_lem (o ∷ rest) r h =
      let there = get_elem?-drop buf r.position o (rest ++ behind) h.at in
      elim (Bool-cases (ltb r.bits_available 30)) [
        | inl low ↦
            let (q, rest', topped, held, full) =
              top_up_lem rest (next_octet r o) (read_octet r o rest h) in
            (q, rest', rw (top_up, there, low) topped, held, full)
        | inr enough ↦ (r, o ∷ rest, rw (top_up, there, enough) refl, h, inl (ground arith))
      ]
