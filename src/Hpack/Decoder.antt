-- ===== src/Hpack/Decoder.antt =====
-- src/hpack/decoder.ts: the decoder, with its dynamic table passed along.
pub mod Indices
pub mod Steps
pub mod Literals
pub mod Names
pub mod Blocks
pub mod RoundTrip
pub mod Sessions
pub mod Ending
use browsercore_http.Common.{
  ℕ, zero, suc, ◌+◌, ◌-◌, Bool, true, false, Option, none, some, List, [], ◌∷◌, ◌++◌, ltb, ◌==◌,
  if◌then◌else◌, length, get_elem?, Text, Outcome, ok, err, stuck, ◌>>=◌, bit_and, hpack_error,
  header_underflow, literal_underflow, index_out_of_range, name_index_out_of_range,
}
use browsercore_http.Hpack.Types.{HeaderField, HeaderBlock}
use browsercore_http.Hpack.Integer.{decode_integer}
use browsercore_http.Hpack.Strings.{decode_string}
use browsercore_http.Hpack.DynamicTable.{
  DynamicTable, new_table, add, set_limit, resolve_index, default_table_size_limit,
}

-- `"incremental" | "no_indexing" | "never_indexed"`
pub data Indexing : Type 0 where
  incremental no_indexing never_indexed : Indexing

unfoldable pub is_incremental : Indexing → Bool
is_incremental incremental = true
is_incremental no_indexing = false
is_incremental never_indexed = false

-- Where a decoding stands: the fields so far, the table, and the next offset.
pub record Progress : Type 0 where
  pub out : HeaderBlock
  pub table : DynamicTable
  pub offset : ℕ

-- The name of a literal: a new string behind the index, or that of an entry.
unfoldable pub literal_name : List ℕ → ℕ → ℕ → DynamicTable → Outcome (Text × ℕ)
literal_name buf name_index name_offset table =
    if name_index == 0
    then decode_string buf name_offset
    else elim (resolve_index name_index table) [
      | none ↦ err (hpack_error (name_index_out_of_range name_index))
      | some resolved ↦ ok (resolved.name, name_offset)
    ]

unfoldable pub decode_literal : List ℕ → Indexing → Progress → Outcome Progress
decode_literal buf indexing p = elim (get_elem? buf p.offset) [
  | none ↦ err (hpack_error literal_underflow)
  | some octet ↦
      let prefix_bits = if bit_and octet 0xc0 == 0x40 then 6 else 4 in
      decode_integer buf p.offset prefix_bits >>= λ (name_index, name_offset).
      (literal_name buf name_index name_offset p.table >>= λ (name, value_offset).
      (decode_string buf value_offset >>= λ (value, offset). ok (record {
        out =
            p.out
            ++ (record {
              name = name;
              value = value;
              indexing = is_incremental indexing;
              sensitive = false;
            }
                ∷ []);
        table = if is_incremental indexing then add name value p.table else p.table;
        offset = offset;
      })))
]

unfoldable pub decode_indexed : List ℕ → Progress → Outcome Progress
decode_indexed buf p = decode_integer buf p.offset 7 >>= λ (index, next_offset).
    elim (resolve_index index p.table) [
      | none ↦ err (hpack_error (index_out_of_range index))
      | some resolved ↦ ok (record {
        out =
            p.out
            ++ (record {
              name = resolved.name;
              value = resolved.value;
              indexing = false;
              sensitive = false;
            }
                ∷ []);
        table = p.table;
        offset = next_offset;
      })
    ]

unfoldable pub decode_size_update : List ℕ → Progress → Outcome Progress
decode_size_update buf p = decode_integer buf p.offset 5 >>= λ (limit, next_offset).
    ok (record p { table = set_limit limit p.table; offset = next_offset })

-- One round of the loop of `decode`: the representation is told by the high bits of the octet.
unfoldable pub decode_field : List ℕ → Progress → Outcome Progress
decode_field buf p = elim (get_elem? buf p.offset) [
  | none ↦ err (hpack_error header_underflow)
  | some octet ↦
      if bit_and octet 0x80 == 0
      then (if bit_and octet 0xc0 == 0x40
          then decode_literal buf incremental p
          else if bit_and octet 0xe0 == 0x20
          then decode_size_update buf p
          else if bit_and octet 0xf0 == 0x00
          then decode_literal buf no_indexing p
          else decode_literal buf never_indexed p)
      else decode_indexed buf p
]

-- The loop of `decode`. A round takes an octet at least, so `buf.length` rounds are enough.
unfoldable pub decode_loop : ℕ → List ℕ → Progress → Outcome Progress
decode_loop zero buf p = if ltb p.offset (length buf) then stuck else ok p
decode_loop (suc fuel) buf p =
    let rest = decode_field buf p >>= λ q. decode_loop fuel buf q in
    if ltb p.offset (length buf) then rest else ok p

-- The fields, and the decoder's table for the next block.
unfoldable pub decode : DynamicTable → List ℕ → Outcome (HeaderBlock × DynamicTable)
decode table buf =
    decode_loop (length buf) buf (record { out = []; table = table; offset = 0 }) >>= λ p.
    ok (p.out, p.table)
