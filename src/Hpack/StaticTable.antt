-- ===== src/Hpack/StaticTable.antt =====
-- src/hpack/static-table.ts: the 61 entries, spelled as they are there.
use browsercore_http.Common.{ℕ, List, [], ◌∷◌, Text, codes, length}

-- An entry of either table: `StaticEntry` and `DynamicEntry`.
pub record Entry : Type 0 where
  pub name : Text
  pub value : Text

abbrev pub entry : Text → Text → Entry
entry name value = record { name = name; value = value }

unfoldable pub static_table : List Entry
static_table =
    entry (codes ":authority") []
    ∷ entry (codes ":method") (codes "GET")
    ∷ entry (codes ":method") (codes "POST")
    ∷ entry (codes ":path") (codes "/")
    ∷ entry (codes ":path") (codes "/index.html")
    ∷ entry (codes ":scheme") (codes "http")
    ∷ entry (codes ":scheme") (codes "https")
    ∷ entry (codes "status") (codes "200")
    ∷ entry (codes "status") (codes "204")
    ∷ entry (codes "status") (codes "206")
    ∷ entry (codes "status") (codes "304")
    ∷ entry (codes "status") (codes "400")
    ∷ entry (codes "status") (codes "404")
    ∷ entry (codes "status") (codes "500")
    ∷ entry (codes "accept-charset") []
    ∷ entry (codes "accept-encoding") (codes "gzip, deflate")
    ∷ entry (codes "accept-language") []
    ∷ entry (codes "accept-ranges") []
    ∷ entry (codes "accept") []
    ∷ entry (codes "access-control-allow-origin") []
    ∷ entry (codes "age") []
    ∷ entry (codes "allow") []
    ∷ entry (codes "authorization") []
    ∷ entry (codes "cache-control") []
    ∷ entry (codes "content-disposition") []
    ∷ entry (codes "content-encoding") []
    ∷ entry (codes "content-language") []
    ∷ entry (codes "content-length") []
    ∷ entry (codes "content-location") []
    ∷ entry (codes "content-range") []
    ∷ entry (codes "content-type") []
    ∷ entry (codes "cookie") []
    ∷ entry (codes "date") []
    ∷ entry (codes "etag") []
    ∷ entry (codes "expect") []
    ∷ entry (codes "expires") []
    ∷ entry (codes "from") []
    ∷ entry (codes "host") []
    ∷ entry (codes "if-match") []
    ∷ entry (codes "if-modified-since") []
    ∷ entry (codes "if-none-match") []
    ∷ entry (codes "if-range") []
    ∷ entry (codes "if-unmodified-since") []
    ∷ entry (codes "last-modified") []
    ∷ entry (codes "link") []
    ∷ entry (codes "location") []
    ∷ entry (codes "max-forwards") []
    ∷ entry (codes "proxy-authenticate") []
    ∷ entry (codes "proxy-authorization") []
    ∷ entry (codes "range") []
    ∷ entry (codes "referer") []
    ∷ entry (codes "refresh") []
    ∷ entry (codes "retry-after") []
    ∷ entry (codes "server") []
    ∷ entry (codes "set-cookie") []
    ∷ entry (codes "strict-transport-security") []
    ∷ entry (codes "transfer-encoding") []
    ∷ entry (codes "user-agent") []
    ∷ entry (codes "vary") []
    ∷ entry (codes "via") []
    ∷ entry (codes "www-authenticate") []
    ∷ []

unfoldable pub static_table_length : ℕ
unfolding static_table
static_table_length = length static_table

abbrev pub table_entry_overhead : ℕ
table_entry_overhead = 32
