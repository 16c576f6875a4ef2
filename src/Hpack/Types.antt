-- ===== src/Hpack/Types.antt =====
-- src/hpack/types.ts: a header field and a header block.
use browsercore_http.Common.{Bool, List, Text}

-- `sensitive` is optional in the source; absent is false.
pub record HeaderField : Type 0 where
  pub name : Text
  pub value : Text
  pub indexing : Bool
  pub sensitive : Bool

abbrev pub HeaderBlock : Type 0
HeaderBlock = List HeaderField
