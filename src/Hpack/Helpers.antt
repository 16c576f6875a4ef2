-- ===== src/Hpack/Helpers.antt =====
-- src/hpack/helpers.ts: `encodeHeaders` and `decodeHeaders`, over maps of headers.
pub mod RoundTrip
use browsercore_http.Common.{
  ℕ, Bool, true, false, Option, none, some, List, [], ◌∷◌, Text, Outcome, ok, err, stuck, ◌>>=◌,
}
use browsercore_http.Common.Dict.{Headers, set}
use browsercore_http.Hpack.Types.{HeaderField, HeaderBlock}
use browsercore_http.Hpack.Encoder.{new_encoder, encode}
use browsercore_http.Hpack.DynamicTable.{new_table, default_table_size_limit}
use browsercore_http.Hpack.Decoder.{decode}

-- `[...headers].map(…)`.
unfoldable pub block_of : Bool → Headers → HeaderBlock
block_of indexing [] = []
block_of indexing ((name, value) ∷ headers) =
    record { name = name; value = value; indexing = indexing; sensitive = false }
    ∷ block_of indexing headers

-- The three options are those of `EncodeHeadersOptions`, `none` where they are not given.
unfoldable pub encode_headers :
    (Text → Text) → Headers → Option Bool → Option Bool → Option ℕ → Outcome (List ℕ)
encode_headers to_lower_case headers indexing use_huffman max_table_size =
    let indexed : Bool = elim indexing [ none ↦ false | some b ↦ b ] in
    encode to_lower_case (new_encoder max_table_size use_huffman) (block_of indexed headers)
    >>= λ (octets, _). ok octets

-- `for (const field of block) out.set(field.name, field.value)`.
unfoldable pub collect : Headers → HeaderBlock → Headers
collect out [] = out
collect out (field ∷ block) = collect (set field.name field.value out) block

unfoldable pub decode_headers : List ℕ → Outcome Headers
decode_headers buf =
    decode (new_table default_table_size_limit) buf >>= λ (block, _). ok (collect [] block)
