-- ===== src/Hpack/Decoder/RoundTrip.antt =====
-- src/hpack/encoder.ts and src/hpack/decoder.ts: a block of fields is read back, with and without Huffman coding.
use browsercore_http.Common.{
  ℕ, ◌≡◌, Bool, true, false, none, List, [], ◌∷◌, ◌++◌, length, Text, All, ok,
}
use browsercore_http.Hpack.Strings.RoundTrip.{IsLatin1, decode_string-literal, literal_octets}
use browsercore_http.Hpack.Strings.Coded.{decode_string-huffman}
use browsercore_http.Hpack.Huffman.Codes.{IsShort}
use browsercore_http.Hpack.Integer.{encode_integer}
use browsercore_http.Hpack.DynamicTable.{DynamicTable}
use browsercore_http.Hpack.Encoder.{HpackEncoder, encode_string, encode}
use browsercore_http.Hpack.Decoder.{decode}
use browsercore_http.Hpack.Decoder.Steps.{ReadsBack}
use browsercore_http.Hpack.Types.{HeaderField, HeaderBlock}
use browsercore_http.Hpack.Decoder.Blocks.{
  received_block, table_after, table_before, FieldReadsBack, decode-encode,
}

-- The texts that a coding is known to carry: Latin-1, and with Huffman coding the code points
-- whose codes have at most 25 bits, which are Latin-1 too.
abbrev pub IsCodable : Bool → Text → Type 0
IsCodable false s = IsLatin1 s
IsCodable true s = IsShort s

pub text-ReadsBack :
    (use_huffman : Bool) (s : Text) → IsCodable use_huffman s → ReadsBack use_huffman s
text-ReadsBack true s short =
    let (octets, written, back) = decode_string-huffman s short in
    (octets, unfold encode_string in written, back)
text-ReadsBack false s latin1 = (
  encode_integer (length s) 7 ++ s,
  unfold encode_string in literal_octets s latin1,
  λ buf offset rest at. decode_string-literal s buf offset rest latin1 at,
)

module _ (to_lower_case : Text → Text) where
  -- Fields whose name, once in lower case, and value the coding carries.
  abbrev pub IsCodableField : Bool → HeaderField → Type 0
  IsCodableField use_huffman f =
      IsCodable use_huffman (to_lower_case f.name) × IsCodable use_huffman f.value

  fields_read :
      (use_huffman : Bool) (fs : HeaderBlock)
      → All (IsCodableField use_huffman) fs
      → All (FieldReadsBack to_lower_case use_huffman) fs
  fields_read use_huffman [] h = tt
  fields_read use_huffman (f ∷ fs) ((named, valued), rest) = (
    (
      text-ReadsBack use_huffman (to_lower_case f.name) named,
      text-ReadsBack use_huffman f.value valued,
    ),
    fields_read use_huffman fs rest,
  )

  -- Every block of Latin-1 fields, with Huffman coding of code points whose codes have at most 25
  -- bits, is encoded, and the decoder returns its fields in order, with their names in lower case, and with the table that the size update, if
  -- one was pending, and the additions asked for leave; the encoder has no size update left.
  pub decode-encode_latin1 :
      (enc : HpackEncoder) (fs : HeaderBlock) (table : DynamicTable)
      → All (IsCodableField enc.use_huffman) fs
      → (octets : List ℕ) × (encode to_lower_case enc fs
          ≡ ok (octets, record enc { next_size_update = none }))
        × (decode table octets
            ≡ ok (
              received_block to_lower_case fs,
              table_after to_lower_case fs (table_before to_lower_case enc.next_size_update table),
            ))
  decode-encode_latin1 enc fs table h =
      decode-encode to_lower_case enc fs table (fields_read enc.use_huffman fs h)
