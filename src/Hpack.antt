-- ===== src/Hpack.antt =====
-- HPACK (src/hpack).
pub mod Integer
pub mod HuffmanTable
pub mod Huffman
pub mod Strings
pub mod StaticTable
pub mod DynamicTable
pub mod Types
pub mod Encoder
pub mod Decoder
pub mod Helpers
mod CodingTests
mod Tests
