-- ===== src/Hpack/Huffman/RoundTrip.antt =====
-- src/hpack/string.ts: `huffmanDecode` of what `huffmanEncode` wrote.
use browsercore_http.Common.{
  ℕ, zero, suc, ◌+◌, ◌*◌, ◌≤◌, ◌<◌, ◌≡◌, refl, arith, true, false, Bool-cases, inl, inr, ◌==◌,
  ==→eq, le→ltb, some, List, [], ◌∷◌, ◌++◌, length, get_elem?, drop, Text, All, ok,
}
use browsercore_http.Hpack.HuffmanTable.{HuffmanRow, huffman_table}
use browsercore_http.Hpack.Huffman.Codes.{IsShort, has_short_code, short_code}
use browsercore_http.Hpack.Huffman.Bits.{code_bits, code_value, IsPadded}
use browsercore_http.Hpack.Huffman.Decoding.{decode_symbols_lem}
use browsercore_http.Hpack.Huffman.{decode_symbols}

lt-of_get_elem? :
    (rows : List HuffmanRow) (i : ℕ) (r : HuffmanRow) → get_elem? rows i ≡ some r → i < length rows
lt-of_get_elem? [] i r h = absurd (cc)
lt-of_get_elem? (q ∷ rows) zero r h = omega arith
lt-of_get_elem? (q ∷ rows) (suc i) r h = omega (arith, lt-of_get_elem? rows i r h)

table_length : length huffman_table ≡ 257
unfolding huffman_table
table_length = refl

end_of_string : has_short_code 256 ≡ false
unfolding has_short_code huffman_table
end_of_string = refl

-- Only octets have a short code: the last row is the end of a string, with 30 bits.
octet_of_short : (c : ℕ) → has_short_code c ≡ true → c < 256
octet_of_short c h = elim (Bool-cases (c == 256)) [
  | inl last ↦ absurd (let e = ==→eq c 256 last in ground (arith, end_of_string))
  | inr other ↦
      let k = short_code c h in
      ground (arith, lt-of_get_elem? huffman_table c k.r k.found, table_length)
]

pub IsShort-IsLatin1 : (s : Text) → IsShort s → All (λ c. c < 256) s
IsShort-IsLatin1 [] h = tt
IsShort-IsLatin1 (c ∷ s) (here, h) = (octet_of_short c here, IsShort-IsLatin1 s h)

-- Each code has a bit at least.
length-code_bits : (s : Text) → IsShort s → length s ≤ code_bits s
length-code_bits [] h = omega arith
length-code_bits (c ∷ s) (here, h) =
    let k = short_code c here in rw k.found (omega (arith, k.positive, length-code_bits s h))

-- From the octets of a text, `huffmanDecode` collects the text's code points.
pub decode_symbols-padded :
    (s : Text) (buf octets behind : List ℕ) (offset : ℕ)
    → IsShort s
    → IsPadded octets (code_bits s) (code_value s)
    → drop offset buf ≡ octets ++ behind
    → decode_symbols
        (8 * length octets + 1)
        buf
        (offset + length octets)
        (record { bit_buffer = 0; bits_available = 0; position = offset })
        []
      ≡ ok s
unfolding decode_symbols
decode_symbols-padded [] buf [] behind offset h p at =
    rw (le→ltb offset (offset + 0) (omega arith)) refl
decode_symbols-padded [] buf (o ∷ octets) behind offset h p at =
    let gone = p.size in absurd (omega (arith, p.below))
decode_symbols-padded (c ∷ s) buf octets behind offset h p at =
    decode_symbols_lem buf behind (offset + length octets) p.pad p.below c s _ _ octets [] h
      (omega (arith, length-code_bits (c ∷ s) h, p.size))
      (record {
        at = at;
        ends = refl;
        fits = p.fits;
        size = omega (arith, p.size);
        holds = omega (arith, p.holds);
      })
