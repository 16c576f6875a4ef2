-- ===== src/Hpack/Strings.antt =====
-- src/hpack/string.ts: length-prefixed string literals. The Huffman coder is in `Hpack/Huffman`.
pub mod RoundTrip
pub mod Coded
pub mod Ending
use browsercore_http.Common.{
  ℕ, zero, suc, ◌+◌, ◌-◌, ◌*◌, ◌/◌, ◌%◌, ◌^◌, ◌<◌, bit_and, bit_or, Bool, true, false, not, ◌&&◌,
  Option, none, some, List, [], ◌∷◌, ◌++◌, ltb, leb, ◌==◌, if◌then◌else◌, length, get_elem?, take,
  drop, Text, Outcome, ok, err, stuck, ◌>>=◌, hpack_error, range_error, string_non_latin1,
  string_underflow, string_empty_prefix, string_length_exceeds,
}
use browsercore_http.Hpack.Integer.{encode_integer, decode_integer}
use browsercore_http.Hpack.Huffman.{huffman_encode, huffman_decode, decode_latin1}

-- `s.codePointAt(0)` for the text `c ∷ rest`: a surrogate pair counts as one code point.
pub code_point_at : ℕ → Text → ℕ
code_point_at c [] = c
code_point_at c (d ∷ rest) =
    if leb 0xd800 c && leb c 0xdbff && leb 0xdc00 d && leb d 0xdfff
    then (c - 0xd800) * 1024 + (d - 0xdc00) + 0x10000
    else c

-- `i` is the offset of the text in the argument of `encodeLatin1`.
pub encode_latin1_from : ℕ → Text → Outcome (List ℕ)
unfolding code_point_at
encode_latin1_from i [] = ok []
encode_latin1_from i (c ∷ rest) =
    let code = code_point_at c rest in
    let more = encode_latin1_from (i + 1) rest in
    if ltb 0xff code
    then err (hpack_error (string_non_latin1 i))
    else (more >>= λ bytes. ok (code ∷ bytes))

unfoldable pub encode_latin1 : Text → Outcome (List ℕ)
unfolding encode_latin1_from
encode_latin1 s = encode_latin1_from 0 s

unfoldable pub decode_string : List ℕ → ℕ → Outcome (Text × ℕ)
decode_string buf offset = elim (get_elem? buf offset) [
  | none ↦ err (hpack_error string_underflow)
  | some flag_octet ↦
      let huffman_flag = not (bit_and flag_octet 0x80 == 0) in
      decode_integer buf offset 7 >>= λ (len, data_start).
      let data_end = data_start + len in
      if ltb (length buf) data_end
      then err (hpack_error (string_length_exceeds len))
      else if huffman_flag
      then (huffman_decode buf data_start len >>= λ (value, _). ok (value, data_end))
      else (decode_latin1 (take len (drop data_start buf)) >>= λ value. ok (value, data_end))
]

-- `lengthOctets[0] = firstLengthOctet | 0x80`
pub set_huffman_flag : List ℕ → Outcome (List ℕ)
set_huffman_flag [] = err (hpack_error string_empty_prefix)
set_huffman_flag (first_length_octet ∷ more) = ok (bit_or first_length_octet 0x80 ∷ more)

unfoldable pub encode_string_huffman : Text → Outcome (List ℕ)
unfolding set_huffman_flag
encode_string_huffman value = do
  raw ← encode_latin1 value
  encoded ← huffman_encode raw
  length_octets ← set_huffman_flag (encode_integer (length encoded) 7)
  ok (length_octets ++ encoded)

unfoldable pub encode_string_literal : Text → Outcome (List ℕ)
encode_string_literal value = do
  raw ← encode_latin1 value
  ok (encode_integer (length raw) 7 ++ raw)
