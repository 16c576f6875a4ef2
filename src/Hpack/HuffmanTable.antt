-- ===== src/Hpack/HuffmanTable.antt =====
-- src/hpack/huffman-table.ts: the code table of RFC 7541, Appendix B, row for row.
pub mod Row
mod Low
mod High
pub use Row.{HuffmanRow}
use browsercore_http.Common.{List, ◌++◌}
use Low.{rows_low}
use High.{rows_high}

unfoldable pub huffman_table : List HuffmanRow
unfolding rows_low rows_high
huffman_table = rows_low ++ rows_high
