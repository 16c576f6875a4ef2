-- ===== src/Hpack/Decoder/Steps.antt =====
-- src/hpack/encoder.ts and src/hpack/decoder.ts: indexed fields and size updates are read back.
use browsercore_http.Common.{
  ℕ, ◌+◌, ◌≡◌, refl, arith, Bool, false, some, List, [], ◌∷◌, ◌++◌, length, Text, drop, ok, inr,
  inl,
}
use browsercore_http.Common.Bits.{bit_and-0x80, bit_and-0xc0, bit_and-0xe0}
use browsercore_http.Hpack.Strings.{decode_string}
use browsercore_http.Hpack.DynamicTable.{DynamicTable, Resolved, resolve_index, set_limit}
use browsercore_http.Hpack.Encoder
use browsercore_http.Hpack.Encoder.{encode_string}
use browsercore_http.Hpack.Decoder.{Progress, decode_field, decode_indexed, decode_size_update}
use browsercore_http.Hpack.Decoder.Indices.{read_flagged}
use browsercore_http.Hpack.Types.{HeaderField}

-- What the block round trip needs of a string: it encodes, and is read back from any buffer.
abbrev pub ReadsBack : Bool → Text → Type 0
ReadsBack use_huffman value =
    (octets : List ℕ) × (encode_string use_huffman value ≡ ok octets)
    × ((buf : List ℕ) (offset : ℕ) (rest : List ℕ)
        → drop offset buf ≡ octets ++ rest
        → decode_string buf offset ≡ ok (value, offset + length octets))

-- A field as it comes out of the decoder.
abbrev pub received : Text → Text → Bool → HeaderField
received name value indexing = record {
  name = name;
  value = value;
  indexing = indexing;
  sensitive = false;
}

-- Where a decoding stands after one more field.
abbrev pub advance : Progress → HeaderField → DynamicTable → ℕ → Progress
advance p field table taken = record {
  out = p.out ++ (field ∷ []);
  table = table;
  offset = p.offset + taken;
}

-- `emitIndexed` is read as the entry at that index.
pub decode_field-indexed :
    (buf : List ℕ) (p : Progress) (index : ℕ) (rest : List ℕ) (r : Resolved)
    → resolve_index index p.table ≡ some r
    → drop p.offset buf ≡ Encoder.emit_indexed index ++ rest
    → decode_field buf p
      ≡ ok (advance p (received r.name r.value false) p.table (length (Encoder.emit_indexed index)))
unfolding decode_field decode_indexed Encoder.emit_indexed
decode_field-indexed buf p index rest r found at =
    let q =
      read_flagged 7 0x80 index buf p.offset rest (inr (inr (inr refl))) (inl (refl, refl)) at in
    ground (arith, q.there, q.above, q.below, q.value, found, bit_and-0x80 q.octet)

-- What `encodeSizeUpdate` writes is decoded as one `setLimit` of that limit, adds no field, and is
-- consumed whole.
pub decode_field-size_update :
    (buf : List ℕ) (p : Progress) (limit : ℕ) (rest : List ℕ)
    → drop p.offset buf ≡ Encoder.encode_size_update limit ++ rest
    → decode_field buf p
      ≡ ok (record p {
        table = set_limit limit p.table;
        offset = p.offset + length (Encoder.encode_size_update limit);
      })
unfolding decode_field decode_size_update Encoder.encode_size_update
decode_field-size_update buf p limit rest at =
    let q =
      read_flagged 5 0x20 limit buf p.offset rest (inr (inl refl)) (inr (inr (inr (refl, refl))))
        at in
    ground (
      arith,
      q.there,
      q.above,
      q.below,
      q.value,
      bit_and-0x80 q.octet,
      bit_and-0xc0 q.octet,
      bit_and-0xe0 q.octet,
    )
