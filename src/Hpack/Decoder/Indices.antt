-- ===== src/Hpack/Decoder/Indices.antt =====
-- src/hpack/encoder.ts and src/hpack/decoder.ts: an index under its flag bits is read back.
use browsercore_http.Common.{
  ℕ, ◌+◌, ◌%◌, ◌^◌, ◌≤◌, ◌<◌, ◌≡◌, refl, ◌∙◌, arith, some, List, ◌∷◌, ◌++◌, length, get_elem?, drop,
  ok, drop_past, get_elem?-drop, inr, inl, ◌⊎◌, bit_or,
}
use browsercore_http.Common.Bits.{bit_or-0x80, bit_or-0x40, bit_or-0x20, bit_or-0x10, IsPrefixBits}
use browsercore_http.Hpack.Integer.{encode_integer, decode_integer}
use browsercore_http.Hpack.Integer.RoundTrip.{decode_flagged, encode_integer-Leads}
use browsercore_http.Hpack.Encoder.{flag_first}
use native.Mathlib.Nat.{mod-eq_of_lt}

-- An index with its flag bits, read from where it stands.
pub record IndexRead (n flag v : ℕ) (octets buf : List ℕ) (offset : ℕ) (rest : List ℕ)
    : Type 0 where
  pub octet : ℕ
  pub there : get_elem? buf offset ≡ some octet
  pub above : flag ≤ octet
  pub below : octet < flag + 2 ^ n
  pub value : decode_integer buf offset n ≡ ok (v, offset + length octets)
  pub behind : drop (offset + length octets) buf ≡ rest

read_index :
    (n flag v first flagged : ℕ) (more buf : List ℕ) (offset : ℕ) (rest : List ℕ)
    → IsPrefixBits n
    → encode_integer v n ≡ first ∷ more
    → first < 2 ^ n
    → flagged ≡ first + flag
    → flagged % 2 ^ n ≡ first
    → flag + 2 ^ n ≤ 256
    → drop offset buf ≡ (flagged ∷ more) ++ rest
    → IndexRead n flag v (flagged ∷ more) buf offset rest
read_index n flag v first flagged more buf offset rest bits e small flagging low fits at = record {
  octet = flagged;
  there = get_elem?-drop buf offset flagged (more ++ rest) at;
  above = omega arith;
  below = omega arith;
  value = decode_flagged n v buf offset first flagged more rest bits e (omega arith) low at;
  behind = drop_past buf offset (flagged ∷ more) rest at;
}

-- The three flagged forms and the plain one.
abbrev pub Flags : ℕ → ℕ → Type 0
Flags n flag =
    ((n ≡ 7) × (flag ≡ 0x80))
    ⊎ (((n ≡ 6) × (flag ≡ 0x40)) ⊎ (((n ≡ 4) × (flag ≡ 0x10)) ⊎ ((n ≡ 5) × (flag ≡ 0x20))))

abbrev Facts : ℕ → ℕ → ℕ → Type 0
Facts n flag first =
    IsPrefixBits n
    × (bit_or first flag ≡ first + flag)
    × (bit_or first flag % 2 ^ n ≡ first)
    × (flag + 2 ^ n ≤ 256)

flag-Facts : (n flag first : ℕ) → Flags n flag → first < 2 ^ n → Facts n flag first
flag-Facts n flag first (inl (x, y)) small =
    rw (x, y)
      (let e = bit_or-0x80 first (rw x at small) in
        (inr (inr (inr refl)), e, rw e (omega (arith, rw x at small)), omega arith))
flag-Facts n flag first (inr (inl (x, y))) small =
    rw (x, y)
      (let e = bit_or-0x40 first (rw x at small) in
        (inr (inr (inl refl)), e, rw e (omega (arith, rw x at small)), omega arith))
flag-Facts n flag first (inr (inr (inl (x, y)))) small =
    rw (x, y)
      (let e = bit_or-0x10 first (rw x at small) in
        (inl refl, e, rw e (omega (arith, rw x at small)), omega arith))
flag-Facts n flag first (inr (inr (inr (x, y)))) small =
    rw (x, y)
      (let e = bit_or-0x20 first (rw x at small) in
        (inr (inl refl), e, rw e (omega (arith, rw x at small)), omega arith))

pub read_flagged :
    (n flag v : ℕ) (buf : List ℕ) (offset : ℕ) (rest : List ℕ)
    → IsPrefixBits n
    → Flags n flag
    → drop offset buf ≡ flag_first flag (encode_integer v n) ++ rest
    → IndexRead n flag v (flag_first flag (encode_integer v n)) buf offset rest
unfolding flag_first
read_flagged n flag v buf offset rest bits flags at =
    let (first, more, e, small) = encode_integer-Leads n v bits in
    let (_, sum, low, fits) = flag-Facts n flag first flags small in
    rw e (
      read_index n flag v first (bit_or first flag) more buf offset rest bits e small sum low fits
        (at ∙ rw e))

pub read_plain :
    (v : ℕ) (buf : List ℕ) (offset : ℕ) (rest : List ℕ)
    → drop offset buf ≡ encode_integer v 4 ++ rest
    → IndexRead 4 0 v (encode_integer v 4) buf offset rest
read_plain v buf offset rest at =
    let (first, more, e, small) = encode_integer-Leads 4 v (inl refl) in
    rw e (
      read_index 4 0 v first first more buf offset rest (inl refl) e small (omega arith)
        (mod-eq_of_lt small) (omega arith) (at ∙ rw e))
