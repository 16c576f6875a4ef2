-- ===== src/Hpack/Decoder/Names.antt =====
-- src/hpack/encoder.ts and src/hpack/decoder.ts: the name of a literal field is read back.
use browsercore_http.Common.{
  ℕ, ◌+◌, ◌≤◌, ◌≡◌, refl, arith, Bool, Option, none, some, List, [], ◌++◌, length, Text, drop, ok,
  inr, inl,
}
use browsercore_http.Common.{Option-cases}
use browsercore_http.Hpack.DynamicTable.{DynamicTable, static, resolve_index}
use browsercore_http.Hpack.Encoder
use browsercore_http.Hpack.Encoder.{plan_header}
use browsercore_http.Hpack.Encoder.{
  EncodedHeader, indexed, literal_incremental, literal_never_indexed, literal_no_indexing,
  encode_string, name_octets, flag_first, emit_header,
}
use browsercore_http.Hpack.Encoder.Plan.{resolve_index-find_static_name_index}
use browsercore_http.Hpack.Decoder.{literal_name}
use browsercore_http.Hpack.Decoder.Steps.{ReadsBack}

-- The name of a literal is written in `named`, or is that of an entry and takes no octets.
pub record NameRead (use_huffman : Bool) (k : ℕ) (name? : Option Text) (name : Text) : Type 0 where
  pub named : List ℕ
  pub written : name_octets use_huffman k name? ≡ ok named
  pub back :
      (table : DynamicTable) (buf : List ℕ) (offset : ℕ) (rest : List ℕ)
      → drop offset buf ≡ named ++ rest
      → literal_name buf k offset table ≡ ok (name, offset + length named)

read_new_name :
    (use_huffman : Bool) (name : Text)
    → ReadsBack use_huffman name
    → NameRead use_huffman 0 (some name) name
read_new_name use_huffman name (octets, written, back) = record {
  named = octets;
  written = unfold name_octets in written;
  back = λ table buf offset rest at. unfold literal_name in back buf offset rest at;
}

read_old_name :
    (use_huffman : Bool) (name : Text) (k : ℕ)
    → ((table : DynamicTable)
        → (value : Text) × (resolve_index k table
            ≡ some (record { source = static; name = name; value = value }))
          × (1 ≤ k))
    → NameRead use_huffman k none name
read_old_name use_huffman name k found = record {
  named = [];
  written = unfold name_octets in refl;
  back = λ table buf offset rest at.
      let (value, resolves, pos) = found table in unfold literal_name in ground (arith, resolves);
}

-- What `planHeader` makes of a name is read as that name.
pub read_planned_name :
    (use_huffman : Bool) (name : Text)
    → ReadsBack use_huffman name
    → NameRead use_huffman
        (Encoder.index_or_zero (Encoder.find_static_name_index name))
        (Encoder.name_if_new (Encoder.find_static_name_index name) name)
        name
unfolding Encoder.index_or_zero Encoder.name_if_new
read_planned_name use_huffman name back =
    elim (Option-cases (Encoder.find_static_name_index name)) [
      | inl new ↦ rw new (read_new_name use_huffman name back)
      | inr (k, old) ↦ rw old (
          read_old_name use_huffman name k (λ t. resolve_index-find_static_name_index name t k old))
    ]
