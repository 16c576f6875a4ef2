-- ===== src/Hpack/Huffman/Ending.antt =====
-- src/hpack/string.ts: `huffmanDecode` ends on every buffer.
use browsercore_http.Common.{
  ℕ, zero, suc, ◌+◌, ◌-◌, ◌*◌, ◌/◌, ◌%◌, ◌^◌, ◌<◌, ◌≤◌, ◌≡◌, arith, refl, sym, ◌∙◌, subst, if-Ends,
  if◌then◌else◌, Bool, true, List, [], ◌∷◌, ◌++◌, ltb, lt→ltb, leb, ◌==◌, ◌&&◌, ◌||◌, get_elem?,
  some, Option-cases, Bool-cases, inl, inr, Ends, >>=-Ends, All, All-append, ok, Text,
}
use browsercore_http.Hpack.HuffmanTable.{HuffmanRow, huffman_table}
use browsercore_http.Hpack.Huffman.{
  BitReader, top_up, match_row, is_padding, decode_symbols, from_code_point, decode_latin1,
  huffman_decode,
}

-- The bits that are in the buffer or still to be read.
abbrev bits_left : ℕ → BitReader → ℕ
bits_left end r = r.bits_available + 8 * (end - r.position)

top_up-Ends :
    (rounds : ℕ) (buf : List ℕ) (end : ℕ) (r : BitReader)
    → end - r.position ≡ rounds
    → Ends (λ q. bits_left end q ≡ bits_left end r) (top_up rounds buf r)
unfolding top_up
top_up-Ends zero buf end r e = refl
top_up-Ends (suc rounds) buf end r e = elim (Option-cases (get_elem? buf r.position)) [
  | inl missing ↦ elim (Bool-cases (ltb r.bits_available 30)) [
    | inl low ↦ rw (top_up, missing, low) tt
    | inr enough ↦ rw (top_up, missing, enough) refl
  ]
  | inr (octet, there) ↦ elim (Bool-cases (ltb r.bits_available 30)) [
    | inl low ↦
        let next : BitReader = record {
          bit_buffer = r.bit_buffer * 256 + octet;
          bits_available = r.bits_available + 8;
          position = r.position + 1;
        } in
        let same : bits_left end next ≡ bits_left end r = omega arith in
        rw (top_up, there, low)
          (subst (λ (n : ℕ). Ends (λ q. bits_left end q ≡ n) (top_up rounds buf next)) same
            (top_up-Ends rounds buf end next (omega arith)))
    | inr enough ↦ rw (top_up, there, enough) refl
  ]
]

-- Every row has a bit at least, and a symbol that is no surrogate pair.
is_bounded : List HuffmanRow → Bool
is_bounded [] = true
is_bounded (r ∷ rows) = ltb 0 r.bits && (ltb r.symbol 0x10000 && is_bounded rows)

table_bounded : is_bounded huffman_table ≡ true
unfolding is_bounded huffman_table
table_bounded = refl

match_row-bounds :
    (rows : List HuffmanRow) (bit_buffer available : ℕ) (row : HuffmanRow)
    → is_bounded rows ≡ true
    → match_row rows bit_buffer available ≡ some row
    → (0 < row.bits) × (row.bits ≤ available) × (row.symbol < 0x10000)
unfolding is_bounded match_row
match_row-bounds [] b n row h found = absurd (cc)
match_row-bounds (r ∷ rows) b n row h found =
    elim (Bool-cases (leb r.bits n && (b / 2 ^ (n - r.bits) % 2 ^ r.bits == r.code))) [
      | inl here ↦
          let same : r ≡ row = cc in
          subst (λ (x : HuffmanRow). (0 < x.bits) × (x.bits ≤ n) × (x.symbol < 0x10000)) same
            (ground arith)
      | inr other ↦
          let e : match_row (r ∷ rows) b n ≡ match_row rows b n = rw (match_row, other) refl in
          match_row-bounds rows b n row (ground arith) (sym e ∙ found)
    ]

decode_symbols-Ends :
    (fuel : ℕ) (buf : List ℕ) (end : ℕ) (r : BitReader) (chars : List ℕ)
    → bits_left end r < fuel
    → All (λ c. c < 0x10000) chars
    → Ends (λ text. All (λ c. c < 0x10000) text) (decode_symbols fuel buf end r chars)
unfolding decode_symbols
decode_symbols-Ends zero buf end r chars enough h = absurd (omega arith)
decode_symbols-Ends (suc fuel) buf end r chars enough h =
    elim (Bool-cases (ltb r.position end || ltb 0 r.bits_available)) [
      | inr over ↦ rw (decode_symbols, over) h
      | inl on ↦
          rw (decode_symbols, on)
            (>>=-Ends (λ q. bits_left end q ≡ bits_left end r) (λ text. All (λ c. c < 0x10000) text)
              _ _ (top_up-Ends _ buf end r refl)
              (λ q same.
                elim (Option-cases (match_row huffman_table q.bit_buffer q.bits_available)) [
                  | inl missing ↦ rw missing tt
                  | inr (row, found) ↦
                      let (positive, fits, low) =
                        match_row-bounds huffman_table q.bit_buffer q.bits_available row
                          table_bounded found in
                      let shift : ℕ = q.bits_available - row.bits in
                      let next : BitReader = record {
                        bit_buffer = if ltb 0 shift then q.bit_buffer % 2 ^ shift else 0;
                        bits_available = shift;
                        position = q.position;
                      } in
                      let fewer : bits_left end next < fuel = omega (arith, same, positive, fits) in
                      let chars' =
                        All-append (λ c. c < 0x10000) chars (row.symbol ∷ []) h (low, tt) in
                      rw found (
                        if-Ends (λ text. All (λ c. c < 0x10000) text)
                          (leb end q.position && is_padding next.bit_buffer shift)
                          (ok (chars ++ (row.symbol ∷ []))) _ (λ last. chars')
                          (λ more.
                            decode_symbols-Ends fuel buf end next (chars ++ (row.symbol ∷ [])) fewer
                              chars'))
                ]))
    ]

decode_latin1-Ends :
    (chars : List ℕ) → All (λ c. c < 0x10000) chars → Ends (λ text. Unit {0}) (decode_latin1 chars)
unfolding decode_latin1 from_code_point
decode_latin1-Ends [] h = tt
decode_latin1-Ends (c ∷ chars) (low, h) =
    rw (decode_latin1, from_code_point, lt→ltb c 0x10000 low)
      (>>=-Ends (λ (text : Text). Unit {0}) (λ (text : Text). Unit {0}) _ _
        (decode_latin1-Ends chars h) (λ text u. tt))

-- The offset behind the string is that of the end it was given.
pub huffman_decode-Ends :
    (buf : List ℕ) (offset len : ℕ)
    → Ends (λ (text, next). next ≡ offset + len) (huffman_decode buf offset len)
unfolding huffman_decode
huffman_decode-Ends buf offset len =
    >>=-Ends (λ text. All (λ c. c < 0x10000) text) (λ (text, next). next ≡ offset + len) _ _
      (decode_symbols-Ends (8 * len + 1) buf (offset + len)
        (record { bit_buffer = 0; bits_available = 0; position = offset }) [] (omega arith) tt)
      (λ chars h.
        >>=-Ends (λ (text : Text). Unit {0}) (λ (text, next). next ≡ offset + len) _ _
          (decode_latin1-Ends chars h) (λ text u. refl))
