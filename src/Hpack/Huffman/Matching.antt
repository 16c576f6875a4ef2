-- ===== src/Hpack/Huffman/Matching.antt =====
-- src/hpack/string.ts: the decoder's search of the table finds the row that was written.
use browsercore_http.Common.{
  ℕ, zero, suc, ◌+◌, ◌-◌, ◌/◌, ◌%◌, ◌^◌, ◌≤◌, ◌≡◌, arith, ap, ◌∙◌, sym, subst, Bool, true, false,
  Bool-cases, inl, inr, leb, leb→le, ==→eq, ◌==◌, ◌&&◌, some, List, [], ◌∷◌, get_elem?,
}
use browsercore_http.Common.Fields.{high_bits, div-pow_add}
use browsercore_http.Hpack.HuffmanTable.{HuffmanRow, huffman_table}
use browsercore_http.Hpack.Huffman.Codes.{
  separate, separate_from-row, all_separate, huffman_table-separate,
}
use browsercore_http.Hpack.Huffman.{match_row}

-- The code of the row stands at the top of the buffer.
record IsOnTop (r : HuffmanRow) (buffer available : ℕ) : Type 0 where
  there : r.bits ≤ available
  code : buffer / 2 ^ (available - r.bits) % 2 ^ r.bits ≡ r.code

-- Of two codes on top, the longer one begins with the shorter one.
longer_code :
    (r q : HuffmanRow) (buffer available : ℕ)
    → r.bits ≤ q.bits
    → IsOnTop r buffer available
    → IsOnTop q buffer available
    → q.code / 2 ^ (q.bits - r.bits) ≡ r.code
longer_code r q buffer available h ron qon =
    let d : ℕ = q.bits - r.bits in
    let wide : r.bits + d ≡ q.bits = omega arith in
    let down : available - q.bits + d ≡ available - r.bits = omega (arith, qon.there) in
    sym (ap (λ (x : ℕ). x / 2 ^ d) qon.code)
    ∙ sym (ap (λ (k : ℕ). buffer / 2 ^ (available - q.bits) % 2 ^ k / 2 ^ d) wide)
    ∙ high_bits r.bits d (buffer / 2 ^ (available - q.bits))
    ∙ ap (λ (x : ℕ). x % 2 ^ r.bits) (div-pow_add (available - q.bits) d buffer)
    ∙ ap (λ (k : ℕ). buffer / 2 ^ k % 2 ^ r.bits) down
    ∙ ron.code

both : (a b : Bool) → (a && b) ≡ true → (a ≡ true) × (b ≡ true)
both a b h = ground arith

IsOnTop-test :
    (r : HuffmanRow) (buffer available : ℕ)
    → (leb r.bits available && (buffer / 2 ^ (available - r.bits) % 2 ^ r.bits == r.code)) ≡ true
    → IsOnTop r buffer available
IsOnTop-test r buffer available h =
    let (there, code) = both _ _ h in record { there = leb→le _ _ there; code = ==→eq _ _ code }

only_one :
    (r q : HuffmanRow) (buffer available : ℕ)
    → separate r q ≡ true
    → IsOnTop q buffer available
    → (leb r.bits available && (buffer / 2 ^ (available - r.bits) % 2 ^ r.bits == r.code)) ≡ false
unfolding separate
only_one r q buffer available apart qon =
    elim (Bool-cases
      (leb r.bits available && (buffer / 2 ^ (available - r.bits) % 2 ^ r.bits == r.code))) [
        | inr apart_here ↦ apart_here
        | inl on_top ↦
            let ron : IsOnTop r buffer available = IsOnTop-test r buffer available on_top in
            elim (Bool-cases (leb r.bits q.bits)) [
              | inl shorter ↦
                  absurd (ground (arith, longer_code r q buffer available (ground arith) ron qon))
              | inr longer ↦
                  absurd (ground (arith, longer_code q r buffer available (ground arith) qon ron))
            ]
      ]

match_row-separate :
    (rows : List HuffmanRow) (i : ℕ) (r : HuffmanRow) (buffer available : ℕ)
    → all_separate rows ≡ true
    → get_elem? rows i ≡ some r
    → IsOnTop r buffer available
    → match_row rows buffer available ≡ some r
unfolding match_row all_separate
match_row-separate [] i r buffer available apart at top = absurd (cc)
match_row-separate (q ∷ rows) zero r buffer available apart at top =
    let same : q ≡ r = cc in
    subst (λ (x : HuffmanRow). match_row (x ∷ rows) buffer available ≡ some r) (sym same)
      (ground (arith, top.there, top.code))
match_row-separate (q ∷ rows) (suc i) r buffer available apart at top =
    let other =
      only_one q r buffer available (separate_from-row q rows i r (ground arith) at) top in
    rw other (match_row-separate rows i r buffer available (ground arith) at top)

pub match_row_lem :
    (c : ℕ) (r : HuffmanRow) (buffer available : ℕ)
    → get_elem? huffman_table c ≡ some r
    → r.bits ≤ available
    → buffer / 2 ^ (available - r.bits) % 2 ^ r.bits ≡ r.code
    → match_row huffman_table buffer available ≡ some r
match_row_lem c r buffer available found there code =
    match_row-separate huffman_table c r buffer available huffman_table-separate found
      (record { there = there; code = code })
