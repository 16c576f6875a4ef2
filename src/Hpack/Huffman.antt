-- ===== src/Hpack/Huffman.antt =====
-- src/hpack/string.ts: `huffmanEncode`, `huffmanDecode` and `decodeLatin1`.
pub mod Bits
pub mod Codes
pub mod Flushing
pub mod Encoding
pub mod Matching
pub mod Padding
pub mod Reading
pub mod Decoding
pub mod RoundTrip
pub mod Ending
use browsercore_http.Common.{
  ℕ, zero, suc, ◌+◌, ◌-◌, ◌*◌, ◌/◌, ◌%◌, ◌^◌, bit_and, bit_or, Bool, ◌&&◌, ◌||◌, Option, none, some,
  List, [], ◌∷◌, ◌++◌, ltb, leb, ◌==◌, if◌then◌else◌, get_elem?, Text, Outcome, ok, err, stuck,
  ◌>>=◌, hpack_error, range_error, huffman_encode_invalid, huffman_underflow, huffman_no_code,
}
use browsercore_http.Hpack.HuffmanTable.{HuffmanRow, huffman_table}

-- The encoder's buffer is a signed 32-bit integer, kept as its bit pattern below 2 ^ 32.
pub shift_left_32 : ℕ → ℕ → ℕ
shift_left_32 w k = w * 2 ^ k % 2 ^ 32

-- `w >> k` copies the sign bit into the places that come free.
pub shift_right_32 : ℕ → ℕ → ℕ
shift_right_32 w k = if ltb w (2 ^ 31) then w / 2 ^ k else (w + 2 ^ 32 * (2 ^ k - 1)) / 2 ^ k

-- The inner `while (bitsInBuffer >= 8)`; a round takes 8 bits, so `bits_in_buffer` is fuel enough.
pub flush_octets : ℕ → ℕ → ℕ → List ℕ → ℕ × List ℕ
unfolding shift_right_32
flush_octets zero buffer bits_in_buffer out = (bits_in_buffer, out)
flush_octets (suc fuel) buffer bits_in_buffer out =
    let left = bits_in_buffer - 8 in
    let more =
      flush_octets fuel buffer left (out ++ (bit_and (shift_right_32 buffer left) 0xff ∷ [])) in
    if leb 8 bits_in_buffer then more else (bits_in_buffer, out)

-- The padding of the last octet with 1-bits.
pub pad_octets : ℕ → ℕ → List ℕ → List ℕ
unfolding shift_left_32
pad_octets buffer bits_in_buffer out =
    let pad_bits = 8 - bits_in_buffer in
    let padding = 2 ^ pad_bits - 1 in
    if ltb 0 bits_in_buffer
    then out ++ (bit_and (bit_or (shift_left_32 buffer pad_bits) padding) 0xff ∷ [])
    else out

-- The `for (const byte of input)` loop.
pub encode_octets : List ℕ → ℕ → ℕ → List ℕ → Outcome (List ℕ)
unfolding flush_octets pad_octets
encode_octets [] buffer bits_in_buffer out = ok (pad_octets buffer bits_in_buffer out)
encode_octets (byte ∷ input) buffer bits_in_buffer out = elim (get_elem? huffman_table byte) [
  | none ↦ err (hpack_error huffman_encode_invalid)
  | some row ↦
      let buffer' = bit_or (shift_left_32 buffer row.bits) row.code in
      let total = bits_in_buffer + row.bits in
      let (left, out') = flush_octets total buffer' total out in
      encode_octets input buffer' left out'
]

unfoldable pub huffman_encode : List ℕ → Outcome (List ℕ)
unfolding encode_octets
huffman_encode input = encode_octets input 0 0 []

-- Where the decoder's buffer stands: `bitBuffer`, `bitsAvailable` and `position`.
pub record BitReader : Type 0 where
  pub bit_buffer : ℕ
  pub bits_available : ℕ
  pub position : ℕ

-- The inner `while (bitsAvailable < 30 && position < end)`, on the rounds `end - position`.
pub top_up : ℕ → List ℕ → BitReader → Outcome BitReader
top_up zero buf r = ok r
top_up (suc rounds) buf r = elim (get_elem? buf r.position) [
  | none ↦ if ltb r.bits_available 30 then err (hpack_error huffman_underflow) else ok r
  | some octet ↦
      let more = top_up rounds buf (record {
        bit_buffer = r.bit_buffer * 256 + octet;
        bits_available = r.bits_available + 8;
        position = r.position + 1;
      }) in
      if ltb r.bits_available 30 then more else ok r
]

-- `for (const row of HUFFMAN_TABLE)`: the first row whose code is at the top of the buffer.
pub match_row : List HuffmanRow → ℕ → ℕ → Option HuffmanRow
match_row [] bit_buffer bits_available = none
match_row (row ∷ rows) bit_buffer bits_available =
    if leb row.bits bits_available
      && (bit_buffer / 2 ^ (bits_available - row.bits) % 2 ^ row.bits == row.code)
    then some row
    else match_row rows bit_buffer bits_available

-- What is left when all octets are read and a symbol has been taken: only 1-bits, or nothing.
pub is_padding : ℕ → ℕ → Bool
is_padding bit_buffer bits_available =
    let limit = if ltb 0 bits_available then 2 ^ bits_available else 1 in
    bit_buffer % limit == limit - 1

-- The outer loop. A round takes a bit at least, so a fuel above `8 * length` is enough.
pub decode_symbols : ℕ → List ℕ → ℕ → BitReader → List ℕ → Outcome (List ℕ)
unfolding top_up match_row is_padding
decode_symbols zero buf end r chars = stuck
decode_symbols (suc fuel) buf end r chars =
    let round =
      (top_up (end - r.position) buf r >>= λ q.
      elim (match_row huffman_table q.bit_buffer q.bits_available) [
        | none ↦ err (hpack_error huffman_no_code)
        | some row ↦
            let shift = q.bits_available - row.bits in
            let left = if ltb 0 shift then q.bit_buffer % 2 ^ shift else 0 in
            let chars' = chars ++ (row.symbol ∷ []) in
            let next : BitReader = record {
              bit_buffer = left;
              bits_available = shift;
              position = q.position;
            } in
            let more = decode_symbols fuel buf end next chars' in
            if leb end q.position && is_padding left shift then ok chars' else more
      ]) in
    if ltb r.position end || ltb 0 r.bits_available then round else ok chars

-- `String.fromCodePoint`, which throws a RangeError above the last code point.
pub from_code_point : ℕ → Outcome Text
from_code_point b =
    if ltb b 0x10000
    then ok (b ∷ [])
    else if leb b 0x10ffff
    then ok ((0xd800 + (b - 0x10000) / 1024) ∷ (0xdc00 + (b - 0x10000) % 1024) ∷ [])
    else err range_error

unfoldable pub decode_latin1 : List ℕ → Outcome Text
unfolding from_code_point
decode_latin1 [] = ok []
decode_latin1 (b ∷ bytes) =
    from_code_point b >>= λ c. (decode_latin1 bytes >>= λ out. ok (c ++ out))

-- The decoded text and the offset behind it.
unfoldable pub huffman_decode : List ℕ → ℕ → ℕ → Outcome (Text × ℕ)
unfolding decode_symbols decode_latin1
huffman_decode buf offset len =
    let end = offset + len in
    decode_symbols (8 * len + 1) buf end
      (record { bit_buffer = 0; bits_available = 0; position = offset }) []
    >>= λ chars. (decode_latin1 chars >>= λ value. ok (value, end))
