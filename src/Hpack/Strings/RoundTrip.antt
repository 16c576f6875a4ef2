-- ===== src/Hpack/Strings/RoundTrip.antt =====
-- src/hpack/string.ts: a literal string is read back as it was written.
use browsercore_http.Common.{
  ℕ, suc, ◌+◌, ◌%◌, ◌≤◌, ◌<◌, ◌≡◌, refl, ap, ◌∙◌, arith, some, List, [], ◌∷◌, ◌++◌, length, Text,
  get_elem?, take, drop, All, ok, length-append, length-drop, drop_past, take-length-append,
  get_elem?-drop, append_assoc, inr,
}
use browsercore_http.Common.Bits.{bit_and-0x80}
use browsercore_http.Hpack.Integer.{encode_integer, decode_integer}
use browsercore_http.Hpack.Integer.RoundTrip.{decode_flagged, encode_integer-Leads}
use browsercore_http.Hpack.Huffman.{decode_latin1}
use browsercore_http.Hpack.Strings.{
  code_point_at, encode_latin1_from, encode_latin1, decode_string, encode_string_literal,
}
use native.Mathlib.Nat.{mod-eq_of_lt}

-- Every code unit fits an octet.
abbrev pub IsLatin1 : Text → Type 0
IsLatin1 s = All (λ c. c < 256) s

code_point_at-latin1 : (c : ℕ) (s : Text) → c < 256 → code_point_at c s ≡ c
unfolding code_point_at
code_point_at-latin1 c [] h = refl
code_point_at-latin1 c (d ∷ s) h = ground arith

encode_latin1_from-latin1 : (i : ℕ) (s : Text) → IsLatin1 s → encode_latin1_from i s ≡ ok s
unfolding encode_latin1_from
encode_latin1_from-latin1 i [] h = refl
encode_latin1_from-latin1 i (c ∷ s) h =
    ground (arith, code_point_at-latin1 c s, encode_latin1_from-latin1 (i + 1) s h.1)

pub encode_latin1_lem : (s : Text) → IsLatin1 s → encode_latin1 s ≡ ok s
unfolding encode_latin1
encode_latin1_lem s h = encode_latin1_from-latin1 0 s h

pub decode_latin1_lem : (s : Text) → IsLatin1 s → decode_latin1 s ≡ ok s
unfolding decode_latin1
decode_latin1_lem [] h = refl
decode_latin1_lem (c ∷ s) h = ground (arith, decode_latin1_lem s h.1)

-- The octets of a literal: the length, with the Huffman flag clear, and the text.
pub literal_octets :
    (s : Text) → IsLatin1 s → encode_string_literal s ≡ ok (encode_integer (length s) 7 ++ s)
unfolding encode_string_literal
literal_octets s h = rw (encode_latin1_lem s h)

-- Behind a length prefix, with or without the flag, stands the body of the string.
module _ (buf : List ℕ) (offset first flagged : ℕ) (more body rest : List ℕ)
    (prefix : encode_integer (length body) 7 ≡ first ∷ more) (octet : flagged < 256)
    (low : flagged % 128 ≡ first) (at : drop offset buf ≡ flagged ∷ (more ++ (body ++ rest))) where
  pub prefix_octet : get_elem? buf offset ≡ some flagged
  prefix_octet = get_elem?-drop buf offset flagged (more ++ (body ++ rest)) at

  pub prefix_value : decode_integer buf offset 7 ≡ ok (length body, offset + suc (length more))
  prefix_value =
      decode_flagged 7 (length body) buf offset first flagged more (body ++ rest)
        (inr (inr (inr refl))) prefix octet low at

  pub body_at : drop (offset + suc (length more)) buf ≡ body ++ rest
  body_at = drop_past buf offset (flagged ∷ more) (body ++ rest) at

  pub body_taken : take (length body) (drop (offset + suc (length more)) buf) ≡ body
  body_taken = rw body_at (take-length-append body rest)

  pub body_fits : offset + suc (length more) + length body ≤ length buf
  body_fits = omega (
    arith,
    ap length at,
    length-drop offset buf,
    length-append more (body ++ rest),
    length-append body rest,
  )

-- `decodeString` reads a literal string of Latin-1 code points back wherever it stands in a
-- buffer, and leaves the offset behind it.
pub decode_string-literal :
    (s : Text) (buf : List ℕ) (offset : ℕ) (rest : List ℕ)
    → IsLatin1 s
    → drop offset buf ≡ (encode_integer (length s) 7 ++ s) ++ rest
    → decode_string buf offset ≡ ok (s, offset + length (encode_integer (length s) 7 ++ s))
unfolding decode_string
decode_string-literal s buf offset rest h at =
    let (first, more, e, small) = encode_integer-Leads 7 (length s) (inr (inr (inr refl))) in
    let low : first % 128 ≡ first = mod-eq_of_lt small in
    let octet : first < 256 = omega arith in
    let at' : drop offset buf ≡ first ∷ (more ++ (s ++ rest)) =
      at ∙ rw e (ap (λ (l : List ℕ). first ∷ l) (append_assoc more s rest)) in
    rw e (
      ground (
        arith,
        bit_and-0x80 first,
        prefix_octet buf offset first first more s rest e octet low at',
        prefix_value buf offset first first more s rest e octet low at',
        body_taken buf offset first first more s rest e octet low at',
        body_fits buf offset first first more s rest e octet low at',
        decode_latin1_lem s h,
        length-append more s,
      ))
