-- ===== src/Hpack/Strings/Coded.antt =====
-- src/hpack/string.ts: a Huffman-coded string is read back as it was written.
use browsercore_http.Common.{
  ℕ, suc, ◌+◌, ◌%◌, ◌<◌, ◌≡◌, refl, arith, ap, ◌∙◌, List, ◌∷◌, ◌++◌, length, drop, Text, ok,
  append_assoc, drop-length-append, length-append, inr,
}
use browsercore_http.Common.Bits.{bit_and-0x80, bit_or-0x80}
use browsercore_http.Hpack.Integer.{encode_integer}
use browsercore_http.Hpack.Integer.RoundTrip.{encode_integer-Leads}
use browsercore_http.Hpack.Huffman.Codes.{IsShort}
use browsercore_http.Hpack.Huffman.Bits.{code_bits, code_value, IsPadded}
use browsercore_http.Hpack.Huffman.Encoding.{huffman_encode_lem}
use browsercore_http.Hpack.Huffman.RoundTrip.{IsShort-IsLatin1, decode_symbols-padded}
use browsercore_http.Hpack.Huffman.{huffman_decode}
use browsercore_http.Hpack.Strings.RoundTrip.{
  encode_latin1_lem, decode_latin1_lem, prefix_octet, prefix_value, body_at, body_fits,
}
use browsercore_http.Hpack.Strings.{set_huffman_flag, decode_string, encode_string_huffman}

-- `huffmanDecode` reads the text that `huffmanEncode` was given back, wherever its octets stand.
huffman_decode-padded :
    (s : Text) (buf octets behind : List ℕ) (offset : ℕ)
    → IsShort s
    → IsPadded octets (code_bits s) (code_value s)
    → drop offset buf ≡ octets ++ behind
    → huffman_decode buf offset (length octets) ≡ ok (s, offset + length octets)
unfolding huffman_decode
huffman_decode-padded s buf octets behind offset h p at =
    rw (decode_symbols-padded s buf octets behind offset h p at)
      (rw (decode_latin1_lem s (IsShort-IsLatin1 s h)) refl)

-- What `encodeStringHuffman` writes: the flag and the length of the octets, and the octets.
encode_string_huffman_lem :
    (s : Text)
    → IsShort s
    → (octets : List ℕ) × (first : ℕ) × (more : List ℕ) × (encode_string_huffman s
        ≡ ok ((first + 128) ∷ (more ++ octets)))
      × (first < 128)
      × (encode_integer (length octets) 7 ≡ first ∷ more)
      × IsPadded octets (code_bits s) (code_value s)
unfolding encode_string_huffman set_huffman_flag
encode_string_huffman_lem s h =
    let (octets, coded, padded) = huffman_encode_lem s h in
    let (first, more, e, small) = encode_integer-Leads 7 (length octets) (inr (inr (inr refl))) in
    (
      octets,
      first,
      more,
      rw (encode_latin1_lem s (IsShort-IsLatin1 s h), coded, e, bit_or-0x80 first small) refl,
      small,
      e,
      padded,
    )

-- The decoder's view of these octets.
decode_string-coded :
    (s : Text)
    → IsShort s
    → (body : List ℕ) (first : ℕ) (more buf : List ℕ) (offset : ℕ) (rest : List ℕ) → first < 128
    → encode_integer (length body) 7 ≡ first ∷ more
    → IsPadded body (code_bits s) (code_value s)
    → drop offset buf ≡ ((first + 128) ∷ (more ++ body)) ++ rest
    → decode_string buf offset ≡ ok (s, offset + length ((first + 128) ∷ (more ++ body)))
unfolding decode_string
decode_string-coded s h body first more buf offset rest small e padded at =
    let flagged : ℕ = first + 128 in
    let low : flagged % 128 ≡ first = omega arith in
    let octet : flagged < 256 = omega arith in
    let at' : drop offset buf ≡ flagged ∷ (more ++ (body ++ rest)) =
      at ∙ ap (λ (l : List ℕ). flagged ∷ l) (append_assoc more body rest) in
    let start : ℕ = offset + suc (length more) in
    ground (
      arith,
      bit_and-0x80 flagged,
      prefix_octet buf offset first flagged more body rest e octet low at',
      prefix_value buf offset first flagged more body rest e octet low at',
      body_fits buf offset first flagged more body rest e octet low at',
      huffman_decode-padded s buf body rest start h padded
          (body_at buf offset first flagged more body rest e octet low at'),
      length-append more body,
    )

-- The octets of a text, and what the decoder makes of them in any buffer.
pub decode_string-huffman :
    (s : Text)
    → IsShort s
    → (octets : List ℕ) × (encode_string_huffman s ≡ ok octets)
      × ((buf : List ℕ) (offset : ℕ) (rest : List ℕ)
          → drop offset buf ≡ octets ++ rest
          → decode_string buf offset ≡ ok (s, offset + length octets))
decode_string-huffman s h =
    let (body, first, more, written, small, e, padded) = encode_string_huffman_lem s h in
    (
      (first + 128) ∷ (more ++ body),
      written,
      λ buf offset rest at.
          decode_string-coded s h body first more buf offset rest small e padded at,
    )

-- For a text whose code points have codes of at most 25 bits, `encodeStringHuffman` succeeds, and
-- `decodeString` reads the text back wherever the octets stand in a buffer and leaves the offset
-- behind them.
pub decode_string-encode_string_huffman :
    (s : Text) (before rest : List ℕ)
    → IsShort s
    → (octets : List ℕ) × (encode_string_huffman s ≡ ok octets)
      × (decode_string (before ++ (octets ++ rest)) (length before)
          ≡ ok (s, length before + length octets))
decode_string-encode_string_huffman s before rest h =
    let (octets, written, back) = decode_string-huffman s h in
    (
      octets,
      written,
      back (before ++ (octets ++ rest)) (length before) rest
          (drop-length-append before (octets ++ rest)),
    )
