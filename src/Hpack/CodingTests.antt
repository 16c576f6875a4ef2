-- ===== src/Hpack/CodingTests.antt =====
-- The theorems about the integers and strings of src/hpack at concrete inputs.
use browsercore_http.Common.{
  ℕ, ◌+◌, ◌≡◌, refl, inl, inr, arith, List, [], ◌∷◌, ◌++◌, length, ok, Text, codes,
}
use browsercore_http.Hpack.HuffmanTable.{huffman_table}
use browsercore_http.Hpack.Huffman.{huffman_encode, huffman_decode}
use browsercore_http.Hpack.Integer.{encode_integer, decode_integer}
use browsercore_http.Hpack.Integer.RoundTrip.{decode_integer-encode_integer}
use browsercore_http.Hpack.Strings.{encode_string_huffman, decode_string}
use browsercore_http.Hpack.Strings.RoundTrip.{decode_string-literal}
use browsercore_http.Hpack.Huffman.Codes.{IsShort, has_short_code}
use browsercore_http.Hpack.Huffman.Bits.{code_bits, code_value, IsPadded}
use browsercore_http.Hpack.Huffman.Encoding.{huffman_encode_lem}
use browsercore_http.Hpack.Strings.Coded.{decode_string-encode_string_huffman}

www_octets :
    huffman_encode (codes "www.example.com")
    ≡ ok (0xf1 ∷ 0xe3 ∷ 0xc2 ∷ 0xe5 ∷ 0xf2 ∷ 0x3a ∷ 0x6b ∷ 0xa0 ∷ 0xab ∷ 0x90 ∷ 0xf4 ∷ 0xff ∷ [])
unfolding huffman_encode huffman_table
www_octets = refl

www_text :
    huffman_decode
      (0xf1 ∷ 0xe3 ∷ 0xc2 ∷ 0xe5 ∷ 0xf2 ∷ 0x3a ∷ 0x6b ∷ 0xa0 ∷ 0xab ∷ 0x90 ∷ 0xf4 ∷ 0xff ∷ [])
      0
      12
    ≡ ok (codes "www.example.com", 12)
unfolding huffman_decode huffman_table
www_text = refl

-- "caf\u00e9", whose last code has 24 bits.
abbrev cafe : Text
cafe = 99 ∷ 97 ∷ 102 ∷ 0xe9 ∷ []

cafe-IsShort : IsShort cafe
unfolding has_short_code huffman_table
cafe-IsShort = (refl, (refl, (refl, (refl, tt))))

huffman_encode_lem_example :
    (octets : List ℕ) × (huffman_encode cafe ≡ ok octets)
    × IsPadded octets (code_bits cafe) (code_value cafe)
huffman_encode_lem_example = huffman_encode_lem cafe cafe-IsShort

decode_string-encode_string_huffman_example :
    (octets : List ℕ) × (encode_string_huffman cafe ≡ ok octets)
    × (decode_string ((0x40 ∷ []) ++ (octets ++ (0x82 ∷ []))) 1 ≡ ok (cafe, 1 + length octets))
decode_string-encode_string_huffman_example =
    decode_string-encode_string_huffman cafe (0x40 ∷ []) (0x82 ∷ []) cafe-IsShort

decode_integer-encode_integer_example :
    decode_integer ((0xff ∷ []) ++ (encode_integer 1337 5 ++ (0x82 ∷ []))) 1 5
    ≡ ok (1337, 1 + length (encode_integer 1337 5))
decode_integer-encode_integer_example =
    decode_integer-encode_integer 5 1337 (0xff ∷ []) (0x82 ∷ []) (inr (inl refl))

decode_string-literal_example :
    decode_string ((encode_integer 3 7 ++ codes "GET") ++ (0x82 ∷ [])) 0
    ≡ ok (codes "GET", 0 + length (encode_integer (length (codes "GET")) 7 ++ codes "GET"))
decode_string-literal_example =
    decode_string-literal (codes "GET") ((encode_integer 3 7 ++ codes "GET") ++ (0x82 ∷ [])) 0
      (0x82 ∷ []) (ground arith) refl
