-- ===== src/Hpack/Encoder.antt =====
-- src/hpack/encoder.ts: the encoder. `to_lower_case` is the platform's `String.prototype.toLowerCase`
-- (Unicode tables that the repository does not hold), so `normalizeName` is a parameter.
pub mod Plan
use browsercore_http.Common.{
  ℕ, suc, ◌+◌, Bool, true, false, ◌&&◌, Option, none, some, List, [], ◌∷◌, ◌++◌, ◌==◌, text_eq,
  if◌then◌else◌, Text, Outcome, ok, err, stuck, ◌>>=◌, bit_or,
}
use browsercore_http.Hpack.Types.{HeaderField, HeaderBlock}
use browsercore_http.Hpack.StaticTable.{Entry, static_table}
use browsercore_http.Hpack.Integer.{encode_integer}
use browsercore_http.Hpack.Strings.{encode_string_huffman, encode_string_literal}

abbrev pub hpack_default_table_size : ℕ
hpack_default_table_size = 4096

-- `name` is there only where the index is 0, as `undefined` elsewhere.
pub data EncodedHeader : Type 0 where
  indexed : ℕ → EncodedHeader
  literal_incremental literal_never_indexed literal_no_indexing :
      ℕ → Option Text → Text → EncodedHeader

-- The loops of `findStaticExactIndex` and `findStaticNameIndex`, over the entries from `index` on.
unfoldable pub find_exact_from : ℕ → List Entry → Text → Text → Option ℕ
find_exact_from index [] name value = none
find_exact_from index (e ∷ es) name value =
    if text_eq e.name name && text_eq e.value value
    then some index
    else find_exact_from (index + 1) es name value

unfoldable pub find_name_from : ℕ → List Entry → Text → Option ℕ
find_name_from index [] name = none
find_name_from index (e ∷ es) name =
    if text_eq e.name name then some index else find_name_from (index + 1) es name

unfoldable pub find_static_exact_index : Text → Text → Option ℕ
unfolding find_exact_from
find_static_exact_index name value = find_exact_from 1 static_table name value

unfoldable pub find_static_name_index : Text → Option ℕ
unfolding find_name_from
find_static_name_index name = find_name_from 1 static_table name

-- `nameIndex ?? 0`, and the name where the index is undefined.
unfoldable pub index_or_zero : Option ℕ → ℕ
index_or_zero none = 0
index_or_zero (some index) = index

unfoldable pub name_if_new : Option ℕ → Text → Option Text
name_if_new none name = some name
name_if_new (some index) name = none

pub record HpackEncoder : Type 0 where
  pub next_size_update : Option ℕ
  pub max_table_size : ℕ
  pub use_huffman : Bool

-- The constructor, with the options' defaults.
unfoldable pub new_encoder : Option ℕ → Option Bool → HpackEncoder
new_encoder max_table_size use_huffman =
    let size : ℕ = elim max_table_size [ none ↦ hpack_default_table_size | some n ↦ n ] in
    record {
      next_size_update = if size == hpack_default_table_size then none else some size;
      max_table_size = size;
      use_huffman = elim use_huffman [ none ↦ true | some b ↦ b ];
    }

unfoldable pub set_max_table_size : ℕ → HpackEncoder → HpackEncoder
set_max_table_size max_size enc = record enc { next_size_update = some max_size }

-- `octets.map((o, i) => (i === 0 ? o | flag : o))`
unfoldable pub flag_first : ℕ → List ℕ → List ℕ
flag_first flag [] = []
flag_first flag (o ∷ octets) = bit_or o flag ∷ octets

-- `encodeString`, with the encoder's `useHuffman`.
unfoldable pub encode_string : Bool → Text → Outcome (List ℕ)
encode_string use_huffman value =
    if use_huffman then encode_string_huffman value else encode_string_literal value

unfoldable pub emit_indexed : ℕ → List ℕ
unfolding flag_first
emit_indexed index = flag_first 0x80 (encode_integer index 7)

-- `nameIndex === 0 && name !== undefined ? this.encodeString(name) : []`
unfoldable pub name_octets : Bool → ℕ → Option Text → Outcome (List ℕ)
name_octets use_huffman name_index none = ok []
name_octets use_huffman name_index (some name) =
    if name_index == 0 then encode_string use_huffman name else ok []

-- The tail that the three literal forms share.
unfoldable pub emit_literal : Bool → List ℕ → ℕ → Option Text → Text → Outcome (List ℕ)
unfolding name_octets
emit_literal use_huffman index_octets name_index name value = do
  named ← name_octets use_huffman name_index name
  valued ← encode_string use_huffman value
  ok (index_octets ++ (named ++ valued))

unfoldable pub emit_literal_incremental : Bool → ℕ → Option Text → Text → Outcome (List ℕ)
unfolding emit_literal flag_first
emit_literal_incremental use_huffman name_index name value =
    emit_literal use_huffman (flag_first 0x40 (encode_integer name_index 6)) name_index name value

unfoldable pub emit_literal_no_indexing : Bool → ℕ → Option Text → Text → Outcome (List ℕ)
unfolding emit_literal
emit_literal_no_indexing use_huffman name_index name value =
    emit_literal use_huffman (encode_integer name_index 4) name_index name value

unfoldable pub emit_literal_never_indexed : Bool → ℕ → Option Text → Text → Outcome (List ℕ)
unfolding emit_literal flag_first
emit_literal_never_indexed use_huffman name_index name value =
    emit_literal use_huffman (flag_first 0x10 (encode_integer name_index 4)) name_index name value

unfoldable pub emit_header : Bool → EncodedHeader → Outcome (List ℕ)
unfolding emit_indexed emit_literal_incremental emit_literal_never_indexed emit_literal_no_indexing
emit_header use_huffman (indexed index) = ok (emit_indexed index)
emit_header use_huffman (literal_incremental i n v) = emit_literal_incremental use_huffman i n v
emit_header use_huffman (literal_never_indexed i n v) = emit_literal_never_indexed use_huffman i n v
emit_header use_huffman (literal_no_indexing i n v) = emit_literal_no_indexing use_huffman i n v

unfoldable pub encode_size_update : ℕ → List ℕ
unfolding flag_first
encode_size_update new_limit = flag_first 0x20 (encode_integer new_limit 5)

module _ (to_lower_case : Text → Text) where
  -- `planHeader`.
  unfoldable pub plan_header : HeaderField → EncodedHeader
  plan_header field =
      let name = to_lower_case field.name in
      let name_index = find_static_name_index name in
      let resolved_name = name_if_new name_index name in
      let resolved_index = index_or_zero name_index in
      if field.sensitive
      then literal_never_indexed resolved_index resolved_name field.value
      else elim (find_static_exact_index name field.value) [
        | some exact ↦ indexed exact
        | none ↦
            if field.indexing
            then literal_incremental resolved_index resolved_name field.value
            else literal_no_indexing resolved_index resolved_name field.value
      ]

  -- The `for (const field of headers)` loop of `encode`.
  unfoldable pub encode_fields : Bool → HeaderBlock → Outcome (List ℕ)
  encode_fields use_huffman [] = ok []
  encode_fields use_huffman (field ∷ headers) = do
    octets ← emit_header use_huffman (plan_header field)
    more ← encode_fields use_huffman headers
    ok (octets ++ more)

  -- The octets, and the encoder with its size update sent.
  unfoldable pub encode : HpackEncoder → HeaderBlock → Outcome (List ℕ × HpackEncoder)
  unfolding encode_size_update encode_fields plan_header emit_header find_static_exact_index
      find_static_name_index index_or_zero name_if_new
  encode enc headers =
      let update : List ℕ = elim enc.next_size_update [
        | none ↦ []
        | some size ↦ encode_size_update size
      ] in
      encode_fields enc.use_huffman headers >>= λ octets.
      ok (update ++ octets, record enc { next_size_update = none })
