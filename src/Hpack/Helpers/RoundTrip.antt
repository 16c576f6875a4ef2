-- ===== src/Hpack/Helpers/RoundTrip.antt =====
-- src/hpack/helpers.ts: a map of headers is read back as it was written.
use browsercore_http.Common.{
  ℕ, ◌≡◌, sym, ap, ◌∙◌, Bool, Option, some, List, [], ◌∷◌, ◌++◌, Text, ok, All, append_assoc,
  append-nil,
}
use browsercore_http.Common.Dict.{Headers, IsMap, set_fresh, IsMap-append}
use browsercore_http.Hpack.Encoder.{HpackEncoder, new_encoder}
use browsercore_http.Hpack.DynamicTable.{new_table, default_table_size_limit}
use browsercore_http.Hpack.Decoder.Steps.{ReadsBack}
use browsercore_http.Hpack.Decoder.RoundTrip.{IsCodable, text-ReadsBack}
use browsercore_http.Hpack.Decoder.Blocks.{
  received_field, received_block, FieldReadsBack, decode-encode,
}
use browsercore_http.Hpack.Helpers.{block_of, collect, encode_headers, decode_headers}

module _ (to_lower_case : Text → Text) where
  -- A map whose names are in lower case already, and whose texts are read back.
  abbrev pub IsSendable : Bool → Headers → Type 0
  IsSendable use_huffman [] = Unit {0}
  IsSendable use_huffman ((name, value) ∷ headers) =
      (to_lower_case name ≡ name)
      × ReadsBack use_huffman name
      × ReadsBack use_huffman value
      × IsSendable use_huffman headers

  fields_read :
      (use_huffman indexing : Bool) (headers : Headers)
      → IsSendable use_huffman headers
      → All (FieldReadsBack to_lower_case use_huffman) (block_of indexing headers)
  unfolding block_of
  fields_read use_huffman indexing [] h = tt
  fields_read use_huffman indexing ((name, value) ∷ headers) (low, named, valued, rest) =
      ((rw low named, valued), fields_read use_huffman indexing headers rest)

  collect_received :
      (use_huffman indexing : Bool) (headers out : Headers)
      → IsSendable use_huffman headers
      → IsMap (out ++ headers)
      → collect out (received_block to_lower_case (block_of indexing headers)) ≡ out ++ headers
  unfolding collect received_block received_field block_of
  collect_received use_huffman indexing [] out h m = sym (append-nil out)
  collect_received use_huffman indexing ((name, value) ∷ headers) out (low, named, valued, rest) m =
      rw (low, set_fresh name value out (IsMap-append name value out headers m))
        (collect_received use_huffman indexing headers (out ++ ((name, value) ∷ [])) rest
            (rw (append_assoc out ((name, value) ∷ []) headers) m)
          ∙ append_assoc out ((name, value) ∷ []) headers)

  -- Whatever coding the strings have, as long as they are read back.
  pub headers_read :
      (use_huffman indexing : Bool) (max_table_size : Option ℕ) (headers : Headers)
      → IsMap headers
      → IsSendable use_huffman headers
      → (octets : List ℕ) × (encode_headers to_lower_case headers
            (some indexing)
            (some use_huffman)
            max_table_size
          ≡ ok octets)
        × (decode_headers octets ≡ ok headers)
  unfolding encode_headers decode_headers
  headers_read use_huffman indexing max_table_size headers distinct h =
      let enc : HpackEncoder = new_encoder max_table_size (some use_huffman) in
      let fields : All (FieldReadsBack to_lower_case enc.use_huffman) (block_of indexing headers) =
        unfold new_encoder in fields_read use_huffman indexing headers h in
      let (octets, written, back) =
        decode-encode to_lower_case enc (block_of indexing headers)
          (new_table default_table_size_limit) fields in
      (
        octets,
        rw written,
        rw back (ap ok (collect_received use_huffman indexing headers [] h distinct)),
      )

  -- Names in lower case already, and names and values that the coding carries.
  abbrev pub IsPlain : Bool → Headers → Type 0
  IsPlain use_huffman [] = Unit {0}
  IsPlain use_huffman ((name, value) ∷ headers) =
      (to_lower_case name ≡ name)
      × IsCodable use_huffman name
      × IsCodable use_huffman value
      × IsPlain use_huffman headers

  IsPlain-IsSendable :
      (use_huffman : Bool) (headers : Headers)
      → IsPlain use_huffman headers
      → IsSendable use_huffman headers
  IsPlain-IsSendable use_huffman [] h = tt
  IsPlain-IsSendable use_huffman ((name, value) ∷ headers) (low, named, valued, rest) = (
    low,
    text-ReadsBack use_huffman name named,
    text-ReadsBack use_huffman value valued,
    IsPlain-IsSendable use_huffman headers rest,
  )

  -- Every map of headers whose names are in lower case and whose texts are Latin-1, with Huffman
  -- coding of code points whose codes have at most 25 bits, is encoded, with or without incremental
  -- indexing and under any table size, and `decodeHeaders` returns the same map in the same order.
  pub decode_headers-encode_headers :
      (use_huffman indexing : Bool) (max_table_size : Option ℕ) (headers : Headers)
      → IsMap headers
      → IsPlain use_huffman headers
      → (octets : List ℕ) × (encode_headers to_lower_case headers
            (some indexing)
            (some use_huffman)
            max_table_size
          ≡ ok octets)
        × (decode_headers octets ≡ ok headers)
  decode_headers-encode_headers use_huffman indexing max_table_size headers distinct plain =
      headers_read use_huffman indexing max_table_size headers distinct
        (IsPlain-IsSendable use_huffman headers plain)
