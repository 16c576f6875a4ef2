-- ===== src/Hpack/Decoder/Literals.antt =====
-- src/hpack/encoder.ts and src/hpack/decoder.ts: the three literal forms are read back, and with
-- them whatever representation `planHeader` chooses.
use browsercore_http.Common.{
  ℕ, ◌+◌, ◌≤◌, ◌≡◌, refl, ◌∙◌, arith, Bool, true, false, not, ◌&&◌, Option, some, List, ◌++◌,
  if◌then◌else◌, ◌==◌, length, Text, drop, ok, length-append, drop_past, append_assoc, inr, inl,
  bit_and, Bool-cases,
}
use browsercore_http.Common.{Option-cases, is_none}
use browsercore_http.Common.Bits.{
  bit_and-0x80, bit_and-0xc0, bit_and-0xe0, bit_and-0xf0, IsPrefixBits,
}
use browsercore_http.Hpack.Integer.{encode_integer}
use browsercore_http.Hpack.Integer.RoundTrip.{encode_integer-Leads}
use browsercore_http.Hpack.Strings.{decode_string}
use browsercore_http.Hpack.DynamicTable.{DynamicTable, static, resolve_index, add}
use browsercore_http.Hpack.Encoder
use browsercore_http.Hpack.Encoder.{plan_header}
use browsercore_http.Hpack.Encoder.{
  EncodedHeader, indexed, literal_incremental, literal_never_indexed, literal_no_indexing,
  encode_string, name_octets, flag_first, emit_header,
}
use browsercore_http.Hpack.Encoder.Plan.{resolve_index-find_static_exact_index}
use browsercore_http.Hpack.Decoder.{
  Progress, Indexing, incremental, no_indexing, never_indexed, is_incremental, decode_field,
  decode_literal,
}
use browsercore_http.Hpack.Decoder.Indices.{IndexRead, read_flagged, read_plain}
use browsercore_http.Hpack.Decoder.Steps.{ReadsBack, received, advance, decode_field-indexed}
use browsercore_http.Hpack.Types.{HeaderField}
use browsercore_http.Hpack.Decoder.Names.{NameRead, read_planned_name}

-- The octets of a literal behind its index.
literal_lem :
    (n flag k : ℕ) (index_octets valued buf : List ℕ) (p : Progress) (form : Indexing)
    (use_huffman : Bool) (name? : Option Text) (name value : Text) (rest : List ℕ)
    (named : NameRead use_huffman k name? name)
    (q : IndexRead n flag k index_octets buf p.offset ((named.named ++ valued) ++ rest))
    → n ≡ (if bit_and q.octet 0xc0 == 0x40 then 6 else 4)
    → ((offset : ℕ)
        → drop offset buf ≡ valued ++ rest
        → decode_string buf offset ≡ ok (value, offset + length valued))
    → decode_literal buf form p
      ≡ ok (
          advance p
            (received name value (is_incremental form))
            (if is_incremental form then add name value p.table else p.table)
            (length (index_octets ++ (named.named ++ valued))))
unfolding decode_literal
literal_lem n flag k index_octets valued buf p form use_huffman name? name value rest named q width
      back =
    ground (
      arith,
      q.there,
      width,
      q.value,
      named.back p.table buf (p.offset + length index_octets) (valued ++ rest) at_name,
      back (p.offset + length index_octets + length named.named)
          (drop_past buf (p.offset + length index_octets) named.named (valued ++ rest) at_name),
      length-append index_octets (named.named ++ valued),
      length-append named.named valued,
    )
  where
    at_name : drop (p.offset + length index_octets) buf ≡ named.named ++ (valued ++ rest)
    at_name = q.behind ∙ append_assoc named.named valued rest

-- A field's octets, and the decoder's step over them.
pub record FieldRead (use_huffman : Bool) (h : EncodedHeader) (name value : Text) (adds : Bool)
    : Type 0 where
  pub octets : List ℕ
  pub emitted : emit_header use_huffman h ≡ ok octets
  pub some_octets : 1 ≤ length octets
  pub back :
      (buf : List ℕ) (p : Progress) (rest : List ℕ)
      → drop p.offset buf ≡ octets ++ rest
      → decode_field buf p
        ≡ ok (
            advance p
              (received name value adds)
              (if adds then add name value p.table else p.table)
              (length octets))

pub length-flag_first :
    (n flag v : ℕ) → IsPrefixBits n → 1 ≤ length (flag_first flag (encode_integer v n))
unfolding flag_first
length-flag_first n flag v bits =
    let (first, more, e, small) = encode_integer-Leads n v bits in rw e (omega arith)

length-encode_integer : (v : ℕ) → 1 ≤ length (encode_integer v 4)
length-encode_integer v =
    let (first, more, e, small) = encode_integer-Leads 4 v (inl refl) in rw e (omega arith)

module _ (use_huffman : Bool) (k : ℕ) (name? : Option Text) (name value : Text)
    (named : NameRead use_huffman k name? name) (valued : ReadsBack use_huffman value) where
  read_incremental : FieldRead use_huffman (literal_incremental k name? value) name value true
  read_incremental = record {
    octets = flag_first 0x40 (encode_integer k 6) ++ (named.named ++ valued.0);
    emitted = unfold emit_header in ground (arith, named.written, valued.1);
    some_octets = omega (
      arith,
      length-flag_first 6 0x40 k (inr (inr (inl refl))),
      length-append (flag_first 0x40 (encode_integer k 6)) (named.named ++ valued.0),
    );
    back = λ buf p rest at.
        let q =
          read_flagged 6 0x40 k buf p.offset ((named.named ++ valued.0) ++ rest)
            (inr (inr (inl refl))) (inr (inl (refl, refl)))
            (at
              ∙ append_assoc (flag_first 0x40 (encode_integer k 6)) (named.named ++ valued.0)
                  rest) in
        unfold is_incremental decode_field in
        ground (
          arith,
          q.there,
          q.above,
          q.below,
          bit_and-0x80 q.octet,
          bit_and-0xc0 q.octet,
          literal_lem 6 0x40 k (flag_first 0x40 (encode_integer k 6)) valued.0 buf p incremental
              use_huffman name? name value rest named q
              (ground (arith, q.above, q.below, bit_and-0xc0 q.octet))
              (λ offset there. valued.2 buf offset rest there),
        );
  }

  read_never_indexed : FieldRead use_huffman (literal_never_indexed k name? value) name value false
  read_never_indexed = record {
    octets = flag_first 0x10 (encode_integer k 4) ++ (named.named ++ valued.0);
    emitted = unfold emit_header in ground (arith, named.written, valued.1);
    some_octets = omega (
      arith,
      length-flag_first 4 0x10 k (inl refl),
      length-append (flag_first 0x10 (encode_integer k 4)) (named.named ++ valued.0),
    );
    back = λ buf p rest at.
        let q =
          read_flagged 4 0x10 k buf p.offset ((named.named ++ valued.0) ++ rest) (inl refl)
            (inr (inr (inl (refl, refl))))
            (at
              ∙ append_assoc (flag_first 0x10 (encode_integer k 4)) (named.named ++ valued.0)
                  rest) in
        unfold is_incremental decode_field in
        ground (
          arith,
          q.there,
          q.above,
          q.below,
          bit_and-0x80 q.octet,
          bit_and-0xc0 q.octet,
          bit_and-0xe0 q.octet,
          bit_and-0xf0 q.octet,
          literal_lem 4 0x10 k (flag_first 0x10 (encode_integer k 4)) valued.0 buf p never_indexed
              use_huffman name? name value rest named q
              (ground (arith, q.above, q.below, bit_and-0xc0 q.octet))
              (λ offset there. valued.2 buf offset rest there),
        );
  }

  read_no_indexing : FieldRead use_huffman (literal_no_indexing k name? value) name value false
  read_no_indexing = record {
    octets = encode_integer k 4 ++ (named.named ++ valued.0);
    emitted = unfold emit_header in ground (arith, named.written, valued.1);
    some_octets = omega (
      arith,
      length-encode_integer k,
      length-append (encode_integer k 4) (named.named ++ valued.0),
    );
    back = λ buf p rest at.
        let q =
          read_plain k buf p.offset ((named.named ++ valued.0) ++ rest)
            (at ∙ append_assoc (encode_integer k 4) (named.named ++ valued.0) rest) in
        unfold is_incremental decode_field in
        ground (
          arith,
          q.there,
          q.above,
          q.below,
          bit_and-0x80 q.octet,
          bit_and-0xc0 q.octet,
          bit_and-0xe0 q.octet,
          bit_and-0xf0 q.octet,
          literal_lem 4 0 k (encode_integer k 4) valued.0 buf p no_indexing use_huffman name? name
              value rest named q (ground (arith, q.above, q.below, bit_and-0xc0 q.octet))
              (λ offset there. valued.2 buf offset rest there),
        );
  }

-- `Encoder.emit_indexed` for an index that every table resolves to the same entry.
read_indexed :
    (use_huffman : Bool) (k : ℕ) (name value : Text)
    → ((table : DynamicTable)
        → resolve_index k table ≡ some (record { source = static; name = name; value = value }))
    → FieldRead use_huffman (indexed k) name value false
read_indexed use_huffman k name value found = record {
  octets = Encoder.emit_indexed k;
  emitted = unfold emit_header in refl;
  some_octets = unfold Encoder.emit_indexed in length-flag_first 7 0x80 k (inr (inr (inr refl)));
  back = λ buf p rest at. decode_field-indexed buf p k rest _ (found p.table) at;
}

-- Whether the encoder asks the decoder to add a field to its table.
abbrev pub adds_entry : HeaderField → Text → Bool
adds_entry field name =
    not field.sensitive
    && (is_none (Encoder.find_static_exact_index name field.value) && field.indexing)

-- The representation that `planHeader` chooses for a field is read back as that field, with its
-- name in lower case, and adds it to the table where it is a literal with incremental indexing.
pub read_planned :
    (to_lower_case : Text → Text) (use_huffman : Bool) (field : HeaderField)
    → ReadsBack use_huffman (to_lower_case field.name)
    → ReadsBack use_huffman field.value
    → FieldRead use_huffman
        (plan_header to_lower_case field)
        (to_lower_case field.name)
        field.value
        (adds_entry field (to_lower_case field.name))
unfolding plan_header
read_planned to_lower_case use_huffman field named valued =
    let name = to_lower_case field.name in
    let planned = read_planned_name use_huffman name named in
    elim (Bool-cases field.sensitive) [
      | inl secret ↦ rw secret (read_never_indexed use_huffman _ _ name field.value planned valued)
      | inr open_ ↦ elim (Option-cases (Encoder.find_static_exact_index name field.value)) [
        | inr (k, exact) ↦
            rw (open_, exact)
              (read_indexed use_huffman k name field.value
                (λ table. resolve_index-find_static_exact_index name field.value table k exact))
        | inl new ↦ elim (Bool-cases field.indexing) [
          | inl asked ↦
              rw (open_, new, asked)
                (read_incremental use_huffman _ _ name field.value planned valued)
          | inr not_asked ↦
              rw (open_, new, not_asked)
                (read_no_indexing use_huffman _ _ name field.value planned valued)
        ]
      ]
    ]
