-- ===== src/Hpack/Tests.antt =====
-- Runs of src/hpack at concrete inputs, and the theorems about it applied to them.
use browsercore_http.Common.{
  ℕ, ◌+◌, ◌-◌, ◌≤◌, ◌≡◌, refl, ◌⊎◌, arith, true, false, ◌&&◌, none, some, List, [], ◌∷◌, leb,
  if◌then◌else◌, map, ok, Ends, Text, codes, text_eq,
}
use browsercore_http.Common.Dict.{Headers, has}
use browsercore_http.Hpack.StaticTable.{entry, static_table}
use browsercore_http.Hpack.DynamicTable.{
  DynamicTable, new_table, entry_size, add, set_limit, resolve_index, static, dynamic,
}
use browsercore_http.Hpack.DynamicTable.Eviction.{
  IsSized, keep_newest, add_budget, add_lem, set_limit_lem,
}
use browsercore_http.Hpack.DynamicTable.Lookup.{resolve_index-add}
use browsercore_http.Hpack.Types.{HeaderField}
use browsercore_http.Hpack.Encoder.{
  HpackEncoder, find_static_exact_index, find_static_name_index, encode,
}
use browsercore_http.Hpack.Encoder.Plan.{
  resolve_index-find_static_name_index, resolve_index-find_static_exact_index,
}
use browsercore_http.Hpack.Decoder.{decode}
use browsercore_http.Hpack.Decoder.Blocks.{received_block, table_after, table_before}
use browsercore_http.Hpack.Decoder.RoundTrip.{decode-encode_latin1}
use browsercore_http.Hpack.Huffman.Codes.{IsVisible-IsShort}
use browsercore_http.Hpack.Types.{HeaderBlock}
use browsercore_http.Hpack.Decoder.Ending.{decode-Ends}
use browsercore_http.Hpack.Decoder.Sessions.{
  EncoderCall, block_encoded, table_resized, encode_each, decode_each, received_each,
  decode_each-encode_each,
}
use browsercore_http.Hpack.Helpers.{encode_headers, decode_headers}
use browsercore_http.Hpack.Helpers.RoundTrip.{decode_headers-encode_headers}

-- `toLowerCase` on ASCII texts.
abbrev lower_ascii : ℕ → ℕ
lower_ascii c = if leb 65 c && leb c 90 then c + 32 else c

abbrev lower : Text → Text
lower s = map lower_ascii s

abbrev two_headers : Headers
two_headers = (codes ":method", codes "GET") ∷ (codes "x-id", codes "7") ∷ []

decode_headers-encode_headers_example :
    (octets : List ℕ) × (encode_headers lower two_headers (some true) (some true) (some 4096)
      ≡ ok octets)
    × (decode_headers octets ≡ ok two_headers)
decode_headers-encode_headers_example =
    decode_headers-encode_headers lower true true (some 4096) two_headers
      (unfold has text_eq in (refl, (refl, tt)))
      (
        refl,
        IsVisible-IsShort (codes ":method") (ground arith),
        IsVisible-IsShort (codes "GET") (ground arith),
        (
          refl,
          IsVisible-IsShort (codes "x-id") (ground arith),
          IsVisible-IsShort (codes "7") (ground arith),
          tt,
        ),
      )

abbrev accept_field : HeaderField
accept_field = record {
  name = codes "Accept";
  value = codes "*/*";
  indexing = true;
  sensitive = false;
}

abbrev resizing : HpackEncoder
resizing = record { next_size_update = some 256; max_table_size = 256; use_huffman = false }

decode-encode_latin1_example :
    (octets : List ℕ) × (encode lower resizing (accept_field ∷ [])
      ≡ ok (octets, record resizing { next_size_update = none }))
    × (decode (new_table 4096) octets
        ≡ ok (
          received_block lower (accept_field ∷ []),
          table_after lower (accept_field ∷ []) (table_before lower (some 256) (new_table 4096)),
        ))
decode-encode_latin1_example =
    decode-encode_latin1 lower resizing (accept_field ∷ []) (new_table 4096) (ground arith)

-- A table with room for one entry of 36.
abbrev one_entry : DynamicTable
one_entry = record {
  entries = entry (codes "ab") (codes "cd") ∷ [];
  current_size = 36;
  max_size = 50;
}

add_lem_example :
    IsSized (add (codes "x") (codes "y") one_entry)
    × ((add (codes "x") (codes "y") one_entry).entries
        ≡ entry (codes "x") (codes "y")
          ∷ keep_newest
              (add_budget (codes "x") (codes "y") one_entry
                - entry_size (entry (codes "x") (codes "y")))
              (entry (codes "ab") (codes "cd") ∷ []))
    × ((add (codes "x") (codes "y") one_entry).max_size ≡ 50)
    × ((add (codes "x") (codes "y") one_entry).current_size
        ≤ add_budget (codes "x") (codes "y") one_entry)
add_lem_example = add_lem (codes "x") (codes "y") one_entry (unfold entry_size in refl)

set_limit_lem_example :
    IsSized (set_limit 20 one_entry)
    × ((set_limit 20 one_entry).entries ≡ keep_newest 20 (entry (codes "ab") (codes "cd") ∷ []))
    × ((set_limit 20 one_entry).max_size ≡ 20)
    × ((set_limit 20 one_entry).current_size ≤ 20)
set_limit_lem_example = set_limit_lem 20 one_entry (unfold entry_size in refl)

resolve_index-add_example :
    (resolve_index 62 (add (codes "x") (codes "y") one_entry)
      ≡ some (record { source = dynamic; name = codes "x"; value = codes "y" }))
    × ((resolve_index 63 (add (codes "x") (codes "y") one_entry) ≡ none)
        ⊎ (resolve_index 63 (add (codes "x") (codes "y") one_entry) ≡ resolve_index 62 one_entry))
    × (resolve_index 2 (add (codes "x") (codes "y") one_entry) ≡ resolve_index 2 one_entry)
resolve_index-add_example =
    resolve_index-add (codes "x") (codes "y") one_entry 0 2 (unfold entry_size in refl)
      (omega arith)

resolve_index-find_static_exact_index_example :
    resolve_index 2 one_entry
    ≡ some (record { source = static; name = codes ":method"; value = codes "GET" })
resolve_index-find_static_exact_index_example =
    resolve_index-find_static_exact_index (codes ":method") (codes "GET") one_entry 2
      (unfold find_static_exact_index static_table text_eq in refl)

resolve_index-find_static_name_index_example :
    (value : Text) × (resolve_index 2 one_entry
      ≡ some (record { source = static; name = codes ":method"; value = value }))
    × (1 ≤ 2)
resolve_index-find_static_name_index_example =
    resolve_index-find_static_name_index (codes ":method") one_entry 2
      (unfold find_static_name_index static_table text_eq in refl)

-- Octets that end within a Huffman-coded name.
abbrev cut_off : List ℕ
cut_off = 0x82 ∷ 0x3f ∷ 0x01 ∷ 0x40 ∷ 0x83 ∷ 0xff ∷ 0xff ∷ []

decode-Ends_example :
    Ends (λ (r : HeaderBlock × DynamicTable). Unit {0}) (decode (new_table 4096) cut_off)
decode-Ends_example = decode-Ends cut_off (ground arith) (new_table 4096)

-- A block, a smaller table, and the same block again.
abbrev two_blocks : List EncoderCall
two_blocks =
    block_encoded (accept_field ∷ []) ∷ table_resized 64 ∷ block_encoded (accept_field ∷ []) ∷ []

decode_each-encode_each_example :
    (octets : List (List ℕ)) × (last : HpackEncoder) × (left : DynamicTable) × (encode_each lower
        resizing two_blocks
      ≡ ok (octets, last))
    × (decode_each (new_table 4096) octets ≡ ok (received_each lower two_blocks, left))
decode_each-encode_each_example =
    decode_each-encode_each lower false two_blocks resizing (new_table 4096) refl (ground arith)
