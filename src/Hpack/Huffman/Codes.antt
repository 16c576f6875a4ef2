-- ===== src/Hpack/Huffman/Codes.antt =====
-- src/hpack/huffman-table.ts: no code of the table begins with another, and row `i` is symbol `i`.
use browsercore_http.Common.{
  ℕ, zero, suc, ◌+◌, ◌-◌, ◌/◌, ◌^◌, ◌≤◌, ◌<◌, ◌≡◌, refl, arith, Bool, true, false, not, ◌&&◌, ◌||◌,
  Option, none, some, List, [], ◌∷◌, ltb, leb, ◌==◌, if◌then◌else◌, get_elem?, Text, All,
  Option-cases, Bool-cases, ==→eq, inl, inr, subst, sym,
}
use browsercore_http.Hpack.HuffmanTable.{HuffmanRow, huffman_table}

-- Neither code begins with the other.
unfoldable pub separate : HuffmanRow → HuffmanRow → Bool
separate r q =
    if leb r.bits q.bits
    then not (q.code / 2 ^ (q.bits - r.bits) == r.code)
    else not (r.code / 2 ^ (r.bits - q.bits) == q.code)

pub separate_from : HuffmanRow → List HuffmanRow → Bool
separate_from r [] = true
separate_from r (q ∷ rows) = separate r q && separate_from r rows

unfoldable pub all_separate : List HuffmanRow → Bool
all_separate [] = true
all_separate (r ∷ rows) = separate_from r rows && all_separate rows

-- Row `i` is symbol `i`, and a code of at most 25 bits has not only 1-bits.
row_in_place : ℕ → HuffmanRow → Bool
row_in_place i r =
    r.symbol == i && (ltb 0 r.bits && (ltb 25 r.bits || ltb (r.code + 1) (2 ^ r.bits)))

in_place : ℕ → List HuffmanRow → Bool
in_place i [] = true
in_place i (r ∷ rows) = row_in_place i r && in_place (i + 1) rows

pub huffman_table-separate : all_separate huffman_table ≡ true
unfolding all_separate separate_from separate huffman_table
huffman_table-separate = refl

huffman_table-in_place : in_place 0 huffman_table ≡ true
unfolding in_place row_in_place huffman_table
huffman_table-in_place = refl

-- The row of an octet.
abbrev pub row_of : ℕ → Option HuffmanRow
row_of c = get_elem? huffman_table c

-- A code of at most 25 bits fits the encoder's buffer behind the up to 7 bits that are pending.
unfoldable pub has_short_code : ℕ → Bool
has_short_code c = elim (row_of c) [ none ↦ false | some r ↦ leb r.bits 25 ]

abbrev pub IsShort : Text → Type 0
IsShort s = All (λ c. has_short_code c ≡ true) s

-- What the table says of such an octet.
pub record ShortCode (c : ℕ) : Type 0 where
  pub r : HuffmanRow
  pub found : row_of c ≡ some r
  pub positive : 0 < r.bits
  pub short : r.bits ≤ 25
  pub not_ones : r.code + 1 < 2 ^ r.bits
  pub symbol : r.symbol ≡ c

in_place-row :
    (i : ℕ) (rows : List HuffmanRow) (j : ℕ) (r : HuffmanRow)
    → in_place i rows ≡ true
    → get_elem? rows j ≡ some r
    → row_in_place (i + j) r ≡ true
unfolding in_place
in_place-row i [] j r h at = absurd (cc)
in_place-row i (q ∷ rows) zero r h at =
    let e : i + 0 ≡ i = omega arith in
    let same : q ≡ r = cc in
    rw e (subst (λ (x : HuffmanRow). row_in_place i x ≡ true) same (ground arith))
in_place-row i (q ∷ rows) (suc j) r h at =
    let e : i + suc j ≡ i + 1 + j = omega arith in
    rw e (in_place-row (i + 1) rows j r (ground arith) at)

pub short_code : (c : ℕ) → has_short_code c ≡ true → ShortCode c
unfolding has_short_code row_in_place
short_code c h = elim (Option-cases (row_of c)) [
  | inl missing ↦ absurd (ground arith)
  | inr (r, found) ↦
      let placed : row_in_place c r ≡ true =
        (let e : 0 + c ≡ c = omega arith in
          subst (λ (i : ℕ). row_in_place i r ≡ true) e
            (in_place-row 0 huffman_table c r huffman_table-in_place found)) in
      let short : r.bits ≤ 25 = ground arith in
      record {
        r = r;
        found = found;
        short = short;
        positive = ground arith;
        not_ones = ground arith;
        symbol = ground arith;
      }
]

-- Two rows of the table, one after the other.
pub separate_from-row :
    (r : HuffmanRow) (rows : List HuffmanRow) (j : ℕ) (q : HuffmanRow)
    → separate_from r rows ≡ true
    → get_elem? rows j ≡ some q
    → separate r q ≡ true
unfolding separate_from
separate_from-row r [] j q h at = absurd (cc)
separate_from-row r (p ∷ rows) zero q h at =
    let same : p ≡ q = cc in subst (λ (x : HuffmanRow). separate r x ≡ true) same (ground arith)
separate_from-row r (p ∷ rows) (suc j) q h at = separate_from-row r rows j q (ground arith) at

-- The visible ASCII characters and the space have short codes.
short_from : ℕ → ℕ → Bool
short_from start zero = true
short_from start (suc n) = has_short_code (start + n) && short_from start n

short_from-all :
    (start n c : ℕ)
    → short_from start n ≡ true
    → start ≤ c
    → c < start + n
    → has_short_code c ≡ true
unfolding short_from
short_from-all start zero c h from below = absurd (omega arith)
short_from-all start (suc n) c h from below = elim (Bool-cases (c == start + n)) [
  | inl last ↦
      subst (λ (x : ℕ). has_short_code x ≡ true) (sym (==→eq c (start + n) last)) (ground arith)
  | inr before ↦ short_from-all start n c (ground arith) from (ground arith)
]

visible_short : short_from 32 95 ≡ true
unfolding short_from has_short_code huffman_table
visible_short = refl

abbrev pub IsVisible : Text → Type 0
IsVisible s = All (λ c. (32 ≤ c) × (c < 127)) s

pub IsVisible-IsShort : (s : Text) → IsVisible s → IsShort s
IsVisible-IsShort [] h = tt
IsVisible-IsShort (c ∷ s) ((from, below), h) =
    (short_from-all 32 95 c visible_short from below, IsVisible-IsShort s h)
