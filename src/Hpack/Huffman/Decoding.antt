-- ===== src/Hpack/Huffman/Decoding.antt =====
-- src/hpack/string.ts: `huffmanDecode` reads the codes of a text back.
use browsercore_http.Common.{
  ℕ, zero, suc, ◌+◌, ◌-◌, ◌*◌, ◌/◌, ◌%◌, ◌^◌, ◌≤◌, ◌<◌, ◌≡◌, refl, arith, ap, ◌∙◌, sym, true, false,
  ◌⊎◌, inl, inr, ltb, leb, lt→ltb, ◌&&◌, ◌||◌, some, List, [], ◌∷◌, ◌++◌, append_assoc, length,
  Text, ok, ◌>>=◌, if◌then◌else◌,
}
use native.Mathlib.Nat.{div-add-mod, mod-eq_of_lt, mod-one}
use browsercore_http.Common.Fields.{pow-add, upper_field, div-pow_add}
use browsercore_http.Hpack.HuffmanTable.{HuffmanRow, huffman_table}
use browsercore_http.Hpack.Huffman.Codes.{IsShort, short_code}
use browsercore_http.Hpack.Huffman.Bits.{octets_value, octets_value-lt}
use browsercore_http.Hpack.Huffman.Padding.{
  padded_bits, padded_value, padded_value-lt, padded_bits-row, padded_value-row, ones_pass,
  codes_do_not_pass, le→leb, lt→leb,
}
use browsercore_http.Hpack.Huffman.Matching.{match_row_lem}
use browsercore_http.Hpack.Huffman.Reading.{Holds, top_up_lem}
use browsercore_http.Hpack.Huffman.{BitReader, top_up, match_row, is_padding, decode_symbols}

-- One code at the top of the buffer, `rest` octets behind it.
module _ (buffer available tail_octets behind code k m v : ℕ)
    (size : available + tail_octets ≡ k + m) (wide : k ≤ available) (low : behind < 2 ^ tail_octets)
    (below : v < 2 ^ m) (holds : buffer * 2 ^ tail_octets + behind ≡ code * 2 ^ m + v) where
  top_code : buffer / 2 ^ (available - k) ≡ code
  top_code =
      let down : tail_octets + (available - k) ≡ m = omega arith in
      sym (ap (λ (x : ℕ). x / 2 ^ (available - k)) (upper_field tail_octets buffer behind low))
      ∙ div-pow_add tail_octets (available - k) (buffer * 2 ^ tail_octets + behind)
      ∙ ap (λ (d : ℕ). (buffer * 2 ^ tail_octets + behind) / 2 ^ d) down
      ∙ ap (λ (x : ℕ). x / 2 ^ m) holds
      ∙ upper_field m code v below

  left_over : buffer % 2 ^ (available - k) * 2 ^ tail_octets + behind ≡ v
  left_over =
      let down : available - k + tail_octets ≡ m = omega arith in
      omega (
        arith,
        holds,
        ap (λ (x : ℕ). x * 2 ^ tail_octets) (div-add-mod buffer (2 ^ (available - k))),
        ap (λ (x : ℕ). 2 ^ (available - k) * x * 2 ^ tail_octets) top_code,
        ap (λ (x : ℕ). code * x)
            (sym (pow-add (available - k) tail_octets) ∙ ap (λ (d : ℕ). 2 ^ d) down),
      )

left_bits : (b n : ℕ) → (if ltb 0 n then b % 2 ^ n else 0) ≡ b % 2 ^ n
left_bits b zero = sym (mod-one b)
left_bits b (suc n) = rw (lt→ltb 0 (suc n) (omega arith)) refl

-- One round of the outer loop, with the code found at the top of the buffer.
decode_symbols-round :
    (fuel end : ℕ) (buf chars : List ℕ) (r q : BitReader) (row : HuffmanRow)
    → (ltb r.position end || ltb 0 r.bits_available) ≡ true
    → top_up (end - r.position) buf r ≡ ok q
    → match_row huffman_table q.bit_buffer q.bits_available ≡ some row
    → (let shift = q.bits_available - row.bits in
        let left = q.bit_buffer % 2 ^ shift in
        let chars' = chars ++ (row.symbol ∷ []) in
        let next : BitReader = record {
          bit_buffer = left;
          bits_available = shift;
          position = q.position;
        } in
        decode_symbols (suc fuel) buf end r chars ≡ (
          if leb end q.position && is_padding left shift
          then ok chars'
          else decode_symbols fuel buf end next chars'))
unfolding decode_symbols
decode_symbols-round fuel end buf chars r q row on topped matched =
    rw
      (
        on,
        decode_symbols,
        topped,
        ◌>>=◌,
        matched,
        left_bits q.bit_buffer (q.bits_available - row.bits),
      )
      refl

module _ (buf behind : List ℕ) (end pad : ℕ) (small : pad < 8) where
  abbrev Stands : Text → BitReader → List ℕ → Type 0
  Stands s r rest = Holds buf end behind (padded_bits s pad) (padded_value s pad) r rest

  -- The loop is on while there is a code to read.
  goes_on :
      (c : ℕ) (s : Text) (r : BitReader) (rest : List ℕ)
      → IsShort (c ∷ s)
      → Stands (c ∷ s) r rest
      → (ltb r.position end || ltb 0 r.bits_available) ≡ true
  goes_on c s r rest (here, h) st =
      let k = short_code c here in ground (arith, k.positive, padded_bits-row c s pad k)

  -- A round takes one code off and leaves the others.
  record Taken (c : ℕ) (s : Text) (q : BitReader) (rest : List ℕ) : Type 0 where
    row : HuffmanRow
    symbol : row.symbol ≡ c
    matched : match_row huffman_table q.bit_buffer q.bits_available ≡ some row
    next :
        Stands s
          (record {
            bit_buffer = q.bit_buffer % 2 ^ (q.bits_available - row.bits);
            bits_available = q.bits_available - row.bits;
            position = q.position;
          })
          rest

  enough :
      (k available : ℕ) (rest : List ℕ) (m : ℕ)
      → k ≤ 25
      → ((30 ≤ available) ⊎ (rest ≡ []))
      → available + 8 * length rest ≡ k + m
      → k ≤ available
  enough k available rest m short (inl much) bits = omega arith
  enough k available rest m short (inr over) bits = omega (arith, ap length over)

  take_code :
      (c : ℕ) (s : Text) (q : BitReader) (rest : List ℕ)
      → IsShort (c ∷ s)
      → Stands (c ∷ s) q rest
      → ((30 ≤ q.bits_available) ⊎ (rest ≡ []))
      → Taken c s q rest
  take_code c s q rest (here, h) st full =
      let k = short_code c here in
      let m : ℕ = padded_bits s pad in
      let tail : ℕ = 8 * length rest in
      let bits : q.bits_available + tail ≡ k.r.bits + m = st.size ∙ padded_bits-row c s pad k in
      let wide : k.r.bits ≤ q.bits_available =
        enough k.r.bits q.bits_available rest m k.short full bits in
      let low = octets_value-lt rest st.fits in
      let below = padded_value-lt s pad h in
      let holds = st.holds ∙ padded_value-row c s pad k in
      let top =
        top_code q.bit_buffer q.bits_available tail (octets_value rest) k.r.code k.r.bits m
          (padded_value s pad) bits wide low below holds in
      record {
        row = k.r;
        symbol = k.symbol;
        matched =
            match_row_lem c k.r q.bit_buffer q.bits_available k.found wide
              (ap (λ (x : ℕ). x % 2 ^ k.r.bits) top ∙ mod-eq_of_lt (omega (arith, k.not_ones)));
        next = record {
          at = st.at;
          ends = st.ends;
          fits = st.fits;
          size = omega (arith, bits, wide);
          holds =
              left_over q.bit_buffer q.bits_available tail (octets_value rest) k.r.code k.r.bits m
                (padded_value s pad) bits wide low below holds;
        };
      }

  -- Behind the last code stands nothing but the padding, and a code before it does not pass for it.
  stops :
      (q : BitReader) (rest : List ℕ)
      → Stands [] q rest
      → (leb end q.position && is_padding q.bit_buffer q.bits_available) ≡ true
  stops q [] st =
      let value : q.bit_buffer ≡ 2 ^ pad - 1 = omega (arith, st.holds) in
      let bits : q.bits_available ≡ pad = omega (arith, st.size) in
      rw (le→leb end q.position (omega (arith, st.ends)), value, bits) (ones_pass pad)
  stops q (o ∷ rest) st = absurd (omega (arith, st.size))

  continues :
      (c : ℕ) (s : Text) (q : BitReader) (rest : List ℕ)
      → IsShort (c ∷ s)
      → Stands (c ∷ s) q rest
      → (leb end q.position && is_padding q.bit_buffer q.bits_available) ≡ false
  continues c s q [] h st =
      let value : q.bit_buffer ≡ padded_value (c ∷ s) pad = omega (arith, st.holds) in
      let bits : q.bits_available ≡ padded_bits (c ∷ s) pad = omega (arith, st.size) in
      rw (le→leb end q.position (omega (arith, st.ends)), value, bits) (codes_do_not_pass c s pad h)
  continues c s q (o ∷ rest) h st = rw (lt→leb end q.position (omega (arith, st.ends))) refl

  round_lem :
      (c : ℕ) (s : Text) (fuel : ℕ) (r : BitReader) (rest chars : List ℕ)
      → IsShort (c ∷ s)
      → Stands (c ∷ s) r rest
      → (q : BitReader) × (rest' : List ℕ) × Stands s q rest'
        × (decode_symbols (suc fuel) buf end r chars ≡ (
            if leb end q.position && is_padding q.bit_buffer q.bits_available
            then ok (chars ++ (c ∷ []))
            else decode_symbols fuel buf end q (chars ++ (c ∷ []))))
  round_lem c s fuel r rest chars h st =
      let (q, rest', topped, held, full) = top_up_lem buf end behind _ _ rest r st in
      let taken = take_code c s q rest' h held full in
      let rounds : length rest ≡ end - r.position = omega (arith, st.ends) in
      let round =
        decode_symbols-round fuel end buf chars r q taken.row (goes_on c s r rest h st)
          (sym (ap (λ (n : ℕ). top_up n buf r) rounds) ∙ topped) taken.matched in
      (_, rest', taken.next, round ∙ rw taken.symbol refl)

  pub decode_symbols_lem :
      (c : ℕ) (s : Text) (fuel : ℕ) (r : BitReader) (rest chars : List ℕ)
      → IsShort (c ∷ s)
      → length s < fuel
      → Stands (c ∷ s) r rest
      → decode_symbols fuel buf end r chars ≡ ok (chars ++ (c ∷ s))
  decode_symbols_lem c s zero r rest chars h lasts st = absurd (omega arith)
  decode_symbols_lem c [] (suc fuel) r rest chars h lasts st =
      let (q, rest', left, round) = round_lem c [] fuel r rest chars h st in
      round ∙ rw (stops q rest' left) refl
  decode_symbols_lem c (d ∷ s) (suc fuel) r rest chars h lasts st =
      let (q, rest', left, round) = round_lem c (d ∷ s) fuel r rest chars h st in
      round
      ∙ rw (continues d s q rest' h.1 left) (
          decode_symbols_lem d s fuel q rest' (chars ++ (c ∷ [])) h.1 (omega arith) left
          ∙ ap ok (append_assoc chars (c ∷ []) (d ∷ s)))
