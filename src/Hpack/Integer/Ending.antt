-- ===== src/Hpack/Integer/Ending.antt =====
-- src/hpack/integer.ts: `decodeInteger` ends on every buffer, behind the octet it began with.
use browsercore_http.Common.{
  ℕ, zero, suc, ◌+◌, ◌-◌, ◌^◌, arith, List, ltb, ◌==◌, get_elem?, Option-cases, Bool-cases, inl,
  inr, EndsPast, EndsPast-weaken, bit_and,
}
use browsercore_http.Hpack.Integer.{decode_continuation, decode_integer}

decode_continuation-Ends :
    (rounds : ℕ) (buf : List ℕ) (position value shift : ℕ)
    → EndsPast position (decode_continuation rounds buf position value shift)
unfolding decode_continuation
decode_continuation-Ends zero buf position value shift = tt
decode_continuation-Ends (suc rounds) buf position value shift =
    elim (Option-cases (get_elem? buf position)) [
      | inl missing ↦ rw (decode_continuation, missing) tt
      | inr (octet, there) ↦ elim (Bool-cases (bit_and octet 0x80 == 0)) [
        | inl last ↦ rw (decode_continuation, there, last) (omega arith)
        | inr more ↦
            rw (decode_continuation, there, more)
              (EndsPast-weaken position (position + 1) _ (omega arith)
                (decode_continuation-Ends rounds buf (position + 1) _ _))
      ]
    ]

-- The offset behind the integer lies behind that of its first octet.
pub decode_integer-Ends :
    (buf : List ℕ) (offset prefix_bits : ℕ)
    → EndsPast offset (decode_integer buf offset prefix_bits)
unfolding decode_integer
decode_integer-Ends buf offset prefix_bits = elim (Option-cases (get_elem? buf offset)) [
  | inl missing ↦ rw (decode_integer, missing) tt
  | inr (octet, there) ↦
      let max_prefix : ℕ = 2 ^ prefix_bits - 1 in
      elim (Bool-cases (ltb (bit_and octet max_prefix) max_prefix)) [
        | inl short ↦ rw (decode_integer, there, short) (omega arith)
        | inr long ↦
            rw (decode_integer, there, long)
              (EndsPast-weaken offset (offset + 1) _ (omega arith)
                (decode_continuation-Ends _ buf (offset + 1) _ 0))
      ]
]
