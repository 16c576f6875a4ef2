-- ===== src/Hpack/Decoder/Blocks.antt =====
-- src/hpack/encoder.ts and src/hpack/decoder.ts: a whole header block is read back.
use browsercore_http.Common.{
  ℕ, zero, suc, ◌+◌, ◌≤◌, ◌<◌, ◌≡◌, refl, ap, ◌∙◌, arith, Bool, Option, none, some, List, [], ◌∷◌,
  ◌++◌, if◌then◌else◌, length, Text, drop, All, ok, length-append, length-drop, drop_past,
  append_assoc, append-nil, inr, inl,
}
use browsercore_http.Common.{Option-cases}
use browsercore_http.Hpack.DynamicTable.{DynamicTable, add, set_limit}
use browsercore_http.Hpack.Encoder.{
  HpackEncoder, encode_fields, encode, encode_size_update, plan_header,
}
use browsercore_http.Hpack.Decoder.{Progress, decode_field, decode_loop, decode}
use browsercore_http.Hpack.Decoder.Steps.{ReadsBack, received, advance, decode_field-size_update}
use browsercore_http.Hpack.Decoder.Literals.{FieldRead, adds_entry, read_planned, length-flag_first}
use browsercore_http.Hpack.Types.{HeaderField, HeaderBlock}

loop_end :
    (fuel : ℕ) (buf : List ℕ) (p : Progress) → length buf ≤ p.offset → decode_loop fuel buf p ≡ ok p
unfolding decode_loop
loop_end zero buf p h = ground arith
loop_end (suc fuel) buf p h = ground arith

loop_step :
    (fuel : ℕ) (buf : List ℕ) (p q : Progress)
    → p.offset < length buf
    → decode_field buf p ≡ ok q
    → decode_loop (suc fuel) buf p ≡ decode_loop fuel buf q
unfolding decode_loop
loop_step fuel buf p q h e = ground (arith, e)

module _ (to_lower_case : Text → Text) where
  -- What the peer receives: every field with its name in lower case.
  unfoldable pub received_field : HeaderField → HeaderField
  received_field f = let name = to_lower_case f.name in received name f.value (adds_entry f name)

  unfoldable pub received_block : HeaderBlock → HeaderBlock
  received_block [] = []
  received_block (f ∷ fs) = received_field f ∷ received_block fs

  -- The peer's table, with the fields that were sent with incremental indexing.
  unfoldable pub table_after : HeaderBlock → DynamicTable → DynamicTable
  table_after [] t = t
  table_after (f ∷ fs) t =
      let name = to_lower_case f.name in
      table_after fs (if adds_entry f name then add name f.value t else t)

  abbrev pub FieldReadsBack : Bool → HeaderField → Type 0
  FieldReadsBack use_huffman f =
      ReadsBack use_huffman (to_lower_case f.name) × ReadsBack use_huffman f.value

  abbrev finished : Progress → HeaderBlock → ℕ → Progress
  finished p fs taken = record {
    out = p.out ++ received_block fs;
    table = table_after fs p.table;
    offset = p.offset + taken;
  }

  record BlockRead (use_huffman : Bool) (fs : HeaderBlock) : Type 0 where
    octets : List ℕ
    encoded : encode_fields to_lower_case use_huffman fs ≡ ok octets
    back :
        (fuel : ℕ) (buf : List ℕ) (p : Progress)
        → drop p.offset buf ≡ octets
        → length octets ≤ fuel
        → decode_loop fuel buf p ≡ ok (finished p fs (length octets))

  finish_none :
      (fuel : ℕ) (buf : List ℕ) (p : Progress)
      → drop p.offset buf ≡ []
      → decode_loop fuel buf p ≡ ok (finished p [] 0)
  unfolding received_block table_after
  finish_none fuel buf p at =
      loop_end fuel buf p (omega (arith, ap length at, length-drop p.offset buf))
      ∙ ground (arith, append-nil p.out)

  finish_more :
      (use_huffman : Bool) (f : HeaderField) (fs : HeaderBlock) (octets : List ℕ)
      (first : FieldRead use_huffman
        (plan_header to_lower_case f)
        (to_lower_case f.name)
        f.value
        (adds_entry f (to_lower_case f.name)))
      → ((fuel : ℕ) (buf : List ℕ) (p : Progress)
          → drop p.offset buf ≡ octets
          → length octets ≤ fuel
          → decode_loop fuel buf p ≡ ok (finished p fs (length octets)))
      → (fuel : ℕ) (buf : List ℕ) (p : Progress) → drop p.offset buf ≡ first.octets ++ octets
      → length (first.octets ++ octets) ≤ fuel
      → decode_loop fuel buf p ≡ ok (finished p (f ∷ fs) (length (first.octets ++ octets)))
  unfolding received_block received_field table_after
  finish_more use_huffman f fs octets first rest zero buf p at room =
      absurd (omega (arith, first.some_octets, length-append first.octets octets))
  finish_more use_huffman f fs octets first rest (suc fuel) buf p at room =
      loop_step fuel buf p q
        (omega (arith, ap length at, length-drop p.offset buf, first.some_octets, sum))
        (first.back buf p octets at)
      ∙ rest fuel buf q (drop_past buf p.offset first.octets octets at)
          (omega (arith, sum, first.some_octets))
      ∙ ground (arith, sum, append_assoc p.out (received_field f ∷ []) (received_block fs))
    where
      q : Progress
      q =
          advance p (received_field f)
            (if adds_entry f (to_lower_case f.name)
              then add (to_lower_case f.name) f.value p.table
              else p.table)
            (length first.octets)

      sum : length (first.octets ++ octets) ≡ length first.octets + length octets
      sum = length-append first.octets octets

  read_none : (use_huffman : Bool) → BlockRead use_huffman []
  read_none use_huffman = record {
    octets = [];
    encoded = unfold encode_fields in refl;
    back = λ fuel buf p at room. finish_none fuel buf p at;
  }

  read_more :
      (use_huffman : Bool) (f : HeaderField) (fs : HeaderBlock)
      → FieldReadsBack use_huffman f
      → BlockRead use_huffman fs
      → BlockRead use_huffman (f ∷ fs)
  read_more use_huffman f fs (named, valued) rest =
      let first = read_planned to_lower_case use_huffman f named valued in
      record {
        octets = first.octets ++ rest.octets;
        encoded = unfold encode_fields in ground (arith, first.emitted, rest.encoded);
        back = finish_more use_huffman f fs rest.octets first rest.back;
      }

  read_block :
      (use_huffman : Bool) (fs : HeaderBlock)
      → All (FieldReadsBack use_huffman) fs
      → BlockRead use_huffman fs
  read_block use_huffman [] h = read_none use_huffman
  read_block use_huffman (f ∷ fs) (h, hs) =
      read_more use_huffman f fs h (read_block use_huffman fs hs)

  abbrev start : DynamicTable → Progress
  start table = record { out = []; table = table; offset = 0 }

  abbrev updated : ℕ → DynamicTable → HeaderBlock → ℕ → Progress
  updated limit table fs taken = record {
    out = received_block fs;
    table = table_after fs (set_limit limit table);
    offset = taken;
  }

  update_some : (limit : ℕ) → 1 ≤ length (encode_size_update limit)
  unfolding encode_size_update
  update_some limit = length-flag_first 5 0x20 limit (inr (inl refl))

  finish_update_fuel :
      (use_huffman : Bool) (fs : HeaderBlock) (block : BlockRead use_huffman fs) (limit : ℕ)
      (table : DynamicTable) (fuel : ℕ) (buf : List ℕ)
      → buf ≡ encode_size_update limit ++ block.octets
      → length buf ≤ fuel
      → decode_loop fuel buf (start table) ≡ ok (updated limit table fs (length buf))
  finish_update_fuel use_huffman fs block limit table zero buf e room = absurd (
      omega (
        arith,
        ap length e,
        update_some limit,
        length-append (encode_size_update limit) block.octets,
      ))
  finish_update_fuel use_huffman fs block limit table (suc fuel) buf e room =
      loop_step fuel buf (start table) q (omega (arith, sum, update_some limit))
        (decode_field-size_update buf (start table) limit block.octets e)
      ∙ block.back fuel buf q (drop_past buf 0 (encode_size_update limit) block.octets e)
          (omega (arith, sum, update_some limit))
      ∙ ground (arith, sum)
    where
      q : Progress
      q = record {
        out = [];
        table = set_limit limit table;
        offset = 0 + length (encode_size_update limit);
      }

      sum : length buf ≡ length (encode_size_update limit) + length block.octets
      sum = ap length e ∙ length-append (encode_size_update limit) block.octets

  finish_update :
      (use_huffman : Bool) (fs : HeaderBlock) (block : BlockRead use_huffman fs) (limit : ℕ)
      (table : DynamicTable)
      → let buf = encode_size_update limit ++ block.octets in
        decode_loop (length buf) buf (start table) ≡ ok (updated limit table fs (length buf))
  finish_update use_huffman fs block limit table =
      finish_update_fuel use_huffman fs block limit table _ _ refl (omega arith)

  -- The table that the peer starts the block with, after the encoder's size update if there is one.
  abbrev pub table_before : Option ℕ → DynamicTable → DynamicTable
  table_before none t = t
  table_before (some limit) t = set_limit limit t

  -- Every header block whose texts are read back encodes, and the decoder returns its fields in
  -- order, with names in lower case, having applied the size update and the additions asked for;
  -- the encoder has no size update left to send.
  pub decode-encode :
      (enc : HpackEncoder) (fs : HeaderBlock) (table : DynamicTable)
      → All (FieldReadsBack enc.use_huffman) fs
      → (octets : List ℕ) × (encode to_lower_case enc fs
          ≡ ok (octets, record enc { next_size_update = none }))
        × (decode table octets
            ≡ ok (received_block fs, table_after fs (table_before enc.next_size_update table)))
  decode-encode enc fs table h =
      let block = read_block enc.use_huffman fs h in
      elim (Option-cases enc.next_size_update) [
        | inl none_pending ↦ (
          block.octets,
          unfold encode in ground (arith, none_pending, block.encoded),
          unfold decode in
              ground (
                arith,
                none_pending,
                block.back (length block.octets) block.octets (start table) refl (omega arith),
              ),
        )
        | inr (limit, pending) ↦ (
          encode_size_update limit ++ block.octets,
          unfold encode in ground (arith, pending, block.encoded),
          unfold decode in
              ground (arith, pending, finish_update enc.use_huffman fs block limit table),
        )
      ]
