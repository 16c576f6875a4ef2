-- ===== src/Hpack/Strings/Ending.antt =====
-- src/hpack/string.ts: `decodeString` ends on every buffer of octets.
use browsercore_http.Common.{
  ℕ, zero, suc, ◌+◌, ◌<◌, ◌≡◌, arith, List, [], ◌∷◌, length, get_elem?, take, drop, All, All-drop,
  Option-cases, Bool-cases, inl, inr, EndsPast, >>=-Ends, ltb, not, ◌==◌, bit_and, Text,
}
use browsercore_http.Hpack.Integer.Ending.{decode_integer-Ends}
use browsercore_http.Hpack.Huffman.{huffman_decode}
use browsercore_http.Hpack.Huffman.Ending.{huffman_decode-Ends}
use browsercore_http.Hpack.Strings.RoundTrip.{decode_latin1_lem}
use browsercore_http.Hpack.Strings.{decode_string}

All-take :
    (n : ℕ) (octets : List ℕ) → All (λ o. o < 256) octets → All (λ o. o < 256) (take n octets)
All-take zero octets h = tt
All-take (suc n) [] h = tt
All-take (suc n) (o ∷ octets) (low, h) = (low, All-take n octets h)

-- The offset behind the string lies behind that of its first octet.
pub decode_string-Ends :
    (buf : List ℕ) (offset : ℕ)
    → All (λ o. o < 256) buf
    → EndsPast offset (decode_string buf offset)
unfolding decode_string
decode_string-Ends buf offset h = elim (Option-cases (get_elem? buf offset)) [
  | inl missing ↦ rw (decode_string, missing) tt
  | inr (octet, there) ↦
      rw (decode_string, there)
        (>>=-Ends (λ p. offset < p.1) (λ p. offset < p.1) _ _ (decode_integer-Ends buf offset 7)
          (λ (len, start) past. elim (Bool-cases (ltb (length buf) (start + len))) [
            | inl long ↦ rw long tt
            | inr whole ↦ elim (Bool-cases (not (bit_and octet 0x80 == 0))) [
              | inl coded ↦
                  rw (whole, coded)
                    (>>=-Ends (λ (p : Text × ℕ). p.1 ≡ start + len) (λ (p : Text × ℕ). offset < p.1)
                      (huffman_decode buf start len) _ (huffman_decode-Ends buf start len)
                      (λ p e. omega arith))
              | inr plain ↦
                  rw
                    (
                      whole,
                      plain,
                      decode_latin1_lem (take len (drop start buf))
                          (All-take len (drop start buf) (All-drop _ start buf h)),
                    )
                    (omega arith)
            ]
          ]))
]
