-- ===== src/Hpack/Decoder/Sessions.antt =====
-- src/hpack/encoder.ts and src/hpack/decoder.ts: one encoder and one decoder over many blocks.
use browsercore_http.Common.{ℕ, ◌≡◌, refl, Bool, none, List, [], ◌∷◌, Text, All, Outcome, ok, ◌>>=◌}
use browsercore_http.Hpack.Types.{HeaderBlock}
use browsercore_http.Hpack.DynamicTable.{DynamicTable}
use browsercore_http.Hpack.Encoder.{HpackEncoder, encode, set_max_table_size}
use browsercore_http.Hpack.Decoder.{decode}
use browsercore_http.Hpack.Decoder.Blocks.{received_block, table_after, table_before}
use browsercore_http.Hpack.Decoder.RoundTrip.{IsCodableField, decode-encode_latin1}

-- What the owner of an encoder does with it.
pub data EncoderCall : Type 0 where
  block_encoded : HeaderBlock → EncoderCall
  table_resized : ℕ → EncoderCall

-- The octets of each block, and the encoder that is left.
unfoldable pub encode_each :
    (Text → Text) → HpackEncoder → List EncoderCall → Outcome (List (List ℕ) × HpackEncoder)
encode_each to_lower_case enc [] = ok ([], enc)
encode_each to_lower_case enc (block_encoded block ∷ calls) =
    encode to_lower_case enc block >>= λ (octets, next).
    (encode_each to_lower_case next calls >>= λ (rest, last). ok (octets ∷ rest, last))
encode_each to_lower_case enc (table_resized max_size ∷ calls) =
    encode_each to_lower_case (set_max_table_size max_size enc) calls

-- The block of each run of octets, and the table that is left.
unfoldable pub decode_each :
    DynamicTable → List (List ℕ) → Outcome (List HeaderBlock × DynamicTable)
decode_each table [] = ok ([], table)
decode_each table (octets ∷ more) = decode table octets >>= λ (block, next).
    (decode_each next more >>= λ (rest, last). ok (block ∷ rest, last))

module _ (to_lower_case : Text → Text) where
  abbrev pub IsCodableCall : Bool → EncoderCall → Type 0
  IsCodableCall use_huffman (block_encoded block) =
      All (IsCodableField to_lower_case use_huffman) block
  IsCodableCall use_huffman (table_resized max_size) = Unit {0}

  abbrev pub received_each : List EncoderCall → List HeaderBlock
  received_each [] = []
  received_each (block_encoded block ∷ calls) =
      received_block to_lower_case block ∷ received_each calls
  received_each (table_resized max_size ∷ calls) = received_each calls

  -- Whatever blocks of Latin-1 fields one encoder is given, with Huffman coding of code points whose
  -- codes have at most 25 bits, and however its table is resized in between: it encodes all of them,
  -- and one decoder, whatever its table is at first, returns all of them in order, with their names in
  -- lower case.
  pub decode_each-encode_each :
      (use_huffman : Bool) (calls : List EncoderCall) (enc : HpackEncoder) (table : DynamicTable)
      → enc.use_huffman ≡ use_huffman
      → All (IsCodableCall use_huffman) calls
      → (octets : List (List ℕ)) × (last : HpackEncoder) × (left : DynamicTable) × (encode_each
            to_lower_case enc calls
          ≡ ok (octets, last))
        × (decode_each table octets ≡ ok (received_each calls, left))
  unfolding encode_each decode_each set_max_table_size
  decode_each-encode_each use_huffman [] enc table coding h = ([], enc, table, refl, refl)
  decode_each-encode_each use_huffman (table_resized max_size ∷ calls) enc table coding (u, h) =
      decode_each-encode_each use_huffman calls (set_max_table_size max_size enc) table coding h
  decode_each-encode_each use_huffman (block_encoded block ∷ calls) enc table coding (here, h) =
      let (octets, written, back) =
        decode-encode_latin1 to_lower_case enc block table (rw coding here) in
      let (rest, last, left, written', back') =
        decode_each-encode_each use_huffman calls (record enc { next_size_update = none })
          (table_after to_lower_case block (table_before to_lower_case enc.next_size_update table))
          coding h in
      (octets ∷ rest, last, left, rw (written, written') refl, rw (back, back') refl)
