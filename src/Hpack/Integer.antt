-- ===== src/Hpack/Integer.antt =====
-- src/hpack/integer.ts: integers with an N-bit prefix. A `number` is a natural number here: the
-- encoder's callers pass no other, so its test for a negative or fractional value never throws,
-- and the decoder's sums of powers of two are exact in a double up to 2 ^ 53.
pub mod RoundTrip
pub mod Ending
use browsercore_http.Common.{
  ℕ, zero, suc, ◌+◌, ◌-◌, ◌*◌, ◌/◌, ◌%◌, ◌^◌, ◌<◌, bit_and, bit_or, arith, Bool, true, false,
  Option, none, some, List, [], ◌∷◌, ltb, ◌==◌, if◌then◌else◌, length, get_elem?, Outcome, ok, err,
  hpack_error, integer_underflow_first, integer_underflow_continuation,
}

-- The `while (true)` loop of `encodeInteger`. A round leaves `remaining / 128`, so `remaining` is
-- fuel enough; with none left `remaining` is 0 and the octet is the last.
pub continuation : ℕ → ℕ → List ℕ
continuation zero remaining = (remaining % 128) ∷ []
continuation (suc fuel) remaining =
    let octet = remaining % 128 in
    let more = continuation fuel (remaining / 128) in
    if ltb 0 (remaining / 128) then bit_or octet 0x80 ∷ more else octet ∷ []

pub encode_integer : ℕ → ℕ → List ℕ
unfolding continuation
encode_integer value prefix_bits =
    let max_prefix = 2 ^ prefix_bits - 1 in
    let octets = continuation (value - max_prefix) (value - max_prefix) in
    if ltb value max_prefix then value ∷ [] else max_prefix ∷ octets

-- The loop of `decodeInteger`: the first argument counts the rounds `buf.length - position`.
pub decode_continuation : ℕ → List ℕ → ℕ → ℕ → ℕ → Outcome (ℕ × ℕ)
decode_continuation zero buf position value shift = err (hpack_error integer_underflow_continuation)
decode_continuation (suc rounds) buf position value shift = elim (get_elem? buf position) [
  | none ↦ err (hpack_error integer_underflow_continuation)
  | some octet ↦
      let value' = value + bit_and octet 0x7f * 2 ^ shift in
      let more = decode_continuation rounds buf (position + 1) value' (shift + 7) in
      if bit_and octet 0x80 == 0 then ok (value', position + 1) else more
]

-- The value and the offset of the next byte.
unfoldable pub decode_integer : List ℕ → ℕ → ℕ → Outcome (ℕ × ℕ)
unfolding decode_continuation
decode_integer buf offset prefix_bits =
    let max_prefix = 2 ^ prefix_bits - 1 in
    elim (get_elem? buf offset) [
      | none ↦ err (hpack_error integer_underflow_first)
      | some first_octet ↦
          let first = bit_and first_octet max_prefix in
          let position = offset + 1 in
          let more = decode_continuation (length buf - position) buf position max_prefix 0 in
          if ltb first max_prefix then ok (first, position) else more
    ]
