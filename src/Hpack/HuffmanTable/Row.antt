-- ===== src/Hpack/HuffmanTable/Row.antt =====
-- src/hpack/huffman-table.ts: a row of the table.
use browsercore_http.Common.{ℕ}

-- The code stands in the lowest `bits` of `code`.
pub record HuffmanRow : Type 0 where
  pub bits : ℕ
  pub code : ℕ
  pub symbol : ℕ

abbrev pub row : ℕ → ℕ → ℕ → HuffmanRow
row b c s = record { bits = b; code = c; symbol = s }
