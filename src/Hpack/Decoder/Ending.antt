-- ===== src/Hpack/Decoder/Ending.antt =====
-- src/hpack/decoder.ts: `decode` ends on every buffer of octets.
use browsercore_http.Common.{
  ℕ, zero, suc, ◌+◌, ◌<◌, ◌≤◌, arith, List, [], length, get_elem?, All, Option-cases, Bool-cases,
  inl, inr, Ends, Ends-weaken, >>=-Ends, ltb, le→ltb, ◌==◌, bit_and, Text, Outcome,
}
use browsercore_http.Hpack.Integer.Ending.{decode_integer-Ends}
use browsercore_http.Hpack.Strings.{decode_string}
use browsercore_http.Hpack.Strings.Ending.{decode_string-Ends}
use browsercore_http.Hpack.DynamicTable.{DynamicTable, resolve_index}
use browsercore_http.Hpack.Types.{HeaderBlock}
use browsercore_http.Hpack.Decoder.{
  Progress, Indexing, literal_name, decode_literal, decode_indexed, decode_size_update,
  decode_field, decode_loop, decode,
}

-- A round ends behind the octet it began with.
abbrev Moves : ℕ → Outcome Progress → Type 0
Moves offset o = Ends (λ q. offset < q.offset) o

module _ (buf : List ℕ) (h : All (λ o. o < 256) buf) where
  literal_name-Ends :
      (index offset : ℕ) (table : DynamicTable)
      → Ends (λ p. offset ≤ p.1) (literal_name buf index offset table)
  unfolding literal_name
  literal_name-Ends index offset table = elim (Bool-cases (index == 0)) [
    | inl fresh ↦ rw fresh (
        Ends-weaken (λ (p : Text × ℕ). offset < p.1) (λ (p : Text × ℕ). offset ≤ p.1)
          (decode_string buf offset) (λ p past. omega arith) (decode_string-Ends buf offset h))
    | inr indexed ↦ elim (Option-cases (resolve_index index table)) [
      | inl missing ↦ rw (indexed, missing) tt
      | inr (resolved, found) ↦ rw (indexed, found) (omega arith)
    ]
  ]

  decode_literal-Ends :
      (indexing : Indexing) (p : Progress) → Moves p.offset (decode_literal buf indexing p)
  unfolding decode_literal
  decode_literal-Ends kind p = elim (Option-cases (get_elem? buf p.offset)) [
    | inl missing ↦ rw (decode_literal, missing) tt
    | inr (octet, there) ↦
        rw (decode_literal, there)
          (>>=-Ends (λ (i : ℕ × ℕ). p.offset < i.1) (λ (q : Progress). p.offset < q.offset) _ _
            (decode_integer-Ends buf p.offset _)
            (λ (index, name_offset) past.
              >>=-Ends (λ (n : Text × ℕ). name_offset ≤ n.1) (λ (q : Progress). p.offset < q.offset)
                (literal_name buf index name_offset p.table) _
                (literal_name-Ends index name_offset p.table)
                (λ (name, value_offset) from.
                  >>=-Ends (λ (v : Text × ℕ). value_offset < v.1)
                    (λ (q : Progress). p.offset < q.offset) (decode_string buf value_offset) _
                    (decode_string-Ends buf value_offset h)
                    (λ (value, offset) beyond. omega arith))))
  ]

  decode_indexed-Ends : (p : Progress) → Moves p.offset (decode_indexed buf p)
  unfolding decode_indexed
  decode_indexed-Ends p =
      >>=-Ends (λ (i : ℕ × ℕ). p.offset < i.1) (λ (q : Progress). p.offset < q.offset) _ _
        (decode_integer-Ends buf p.offset 7)
        (λ (index, next) past. elim (Option-cases (resolve_index index p.table)) [
          | inl missing ↦ rw missing tt
          | inr (resolved, found) ↦ rw found past
        ])

  decode_size_update-Ends : (p : Progress) → Moves p.offset (decode_size_update buf p)
  unfolding decode_size_update
  decode_size_update-Ends p =
      >>=-Ends (λ (i : ℕ × ℕ). p.offset < i.1) (λ (q : Progress). p.offset < q.offset) _ _
        (decode_integer-Ends buf p.offset 5) (λ (limit, next) past. past)

  decode_field-Ends : (p : Progress) → Moves p.offset (decode_field buf p)
  unfolding decode_field
  decode_field-Ends p = elim (Option-cases (get_elem? buf p.offset)) [
    | inl missing ↦ rw (decode_field, missing) tt
    | inr (octet, there) ↦ elim (Bool-cases (bit_and octet 0x80 == 0)) [
      | inr indexed ↦ rw (decode_field, there, indexed) (decode_indexed-Ends p)
      | inl literal ↦ elim (Bool-cases (bit_and octet 0xc0 == 0x40)) [
        | inl added ↦ rw (decode_field, there, literal, added) (decode_literal-Ends _ p)
        | inr other ↦ elim (Bool-cases (bit_and octet 0xe0 == 0x20)) [
          | inl update ↦
              rw (decode_field, there, literal, other, update) (decode_size_update-Ends p)
          | inr kept ↦ elim (Bool-cases (bit_and octet 0xf0 == 0x00)) [
            | inl plain ↦
                rw (decode_field, there, literal, other, kept, plain) (decode_literal-Ends _ p)
            | inr never ↦
                rw (decode_field, there, literal, other, kept, never) (decode_literal-Ends _ p)
          ]
        ]
      ]
    ]
  ]

  -- Every round takes an octet, so the length of the buffer is fuel enough.
  decode_loop-Ends :
      (fuel : ℕ) (p : Progress)
      → length buf ≤ fuel + p.offset
      → Ends (λ (q : Progress). Unit {0}) (decode_loop fuel buf p)
  unfolding decode_loop
  decode_loop-Ends zero p enough = rw (decode_loop, le→ltb p.offset (length buf) (omega arith)) tt
  decode_loop-Ends (suc fuel) p enough = elim (Bool-cases (ltb p.offset (length buf))) [
    | inr over ↦ rw (decode_loop, over) tt
    | inl on ↦
        rw (decode_loop, on)
          (>>=-Ends (λ (q : Progress). p.offset < q.offset) (λ (q : Progress). Unit {0})
            (decode_field buf p) _ (decode_field-Ends p)
            (λ q past. decode_loop-Ends fuel q (omega arith)))
  ]

  -- On every list of octets, and with every table, `decode` returns a block or throws an
  -- `HpackError`: it throws nothing else, and its loops end.
  pub decode-Ends :
      (table : DynamicTable)
      → Ends (λ (r : HeaderBlock × DynamicTable). Unit {0}) (decode table buf)
  unfolding decode
  decode-Ends table =
      >>=-Ends (λ (q : Progress). Unit {0}) (λ (r : HeaderBlock × DynamicTable). Unit {0})
        (decode_loop (length buf) buf (record { out = []; table = table; offset = 0 })) _
        (decode_loop-Ends (length buf) (record { out = []; table = table; offset = 0 })
          (omega arith))
        (λ p u. tt)
