-- ===== src/Connection/Request/Delivery.antt =====
-- src/connection.ts: the frame of a request, and what the peer reads in it.
use browsercore_http.Common.{◌≡◌, Bool, true, false, Option, none, some, [], ◌∷◌, Text}
use browsercore_http.Common.Dict.{Headers, set}
use browsercore_http.Frame.Types.{Frame}
use browsercore_http.Hpack.Decoder.RoundTrip.{IsCodable}

-- A property of maps that `set` keeps for the entries of a source is kept by every loop.
module _ (P : Headers → Type 0) (E : Text → Text → Type 0)
    (keep : (k v : Text) (m : Headers) → E k v → P m → P (set k v m)) where
  abbrev Entries : Headers → Type 0
  Entries [] = Unit {0}
  Entries ((k, v) ∷ source) = E k v × Entries source

abbrev given_indexing : Option Bool → Bool
given_indexing none = false
given_indexing (some b) = b

abbrev pub given_huffman : Option Bool → Bool
given_huffman none = true
given_huffman (some b) = b

module _ (to_lower_case : Text → Text) where
  abbrev IsPlainEntry : Bool → Text → Text → Type 0
  IsPlainEntry use_huffman k v =
      (to_lower_case k ≡ k) × IsCodable use_huffman k × IsCodable use_huffman v
