-- ===== src/Frame/Words.antt =====
-- The big-endian accesses of `DataView` that src/frame/frame.ts makes.
use browsercore_http.Common.{
  ℕ, suc, ◌+◌, ◌*◌, ◌/◌, ◌%◌, ◌^◌, ◌<◌, ◌≡◌, refl, ap, arith, List, [], ◌∷◌, ◌++◌, drop, get_elem?,
  Outcome, ok, err, range_error,
}

-- `setUint8`, `setUint16`, `setUint32` and `setBigUint64` reduce their argument to the width.
unfoldable pub put_uint8 : ℕ → List ℕ
put_uint8 v = (v % 256) ∷ []

unfoldable pub put_uint16 : ℕ → List ℕ
put_uint16 v = (v / 256 % 256) ∷ (v % 256) ∷ []

unfoldable pub put_uint32 : ℕ → List ℕ
put_uint32 v = (v / 2 ^ 24 % 256) ∷ (v / 2 ^ 16 % 256) ∷ (v / 256 % 256) ∷ (v % 256) ∷ []

unfoldable pub put_uint64 : ℕ → List ℕ
unfolding put_uint32
put_uint64 v = put_uint32 (v / 2 ^ 32) ++ put_uint32 v

-- The reads throw a RangeError past the end of the view.
unfoldable pub head_uint16 : List ℕ → Outcome ℕ
head_uint16 (a ∷ b ∷ rest) = ok (a * 256 + b)
head_uint16 _ = err range_error

unfoldable pub head_uint32 : List ℕ → Outcome ℕ
head_uint32 (a ∷ b ∷ c ∷ d ∷ rest) = ok (a * 2 ^ 24 + b * 2 ^ 16 + c * 256 + d)
head_uint32 _ = err range_error

unfoldable pub head_uint64 : List ℕ → Outcome ℕ
head_uint64 (a ∷ b ∷ c ∷ d ∷ e ∷ f ∷ g ∷ h ∷ rest) =
    ok ((a * 2 ^ 24 + b * 2 ^ 16 + c * 256 + d) * 2 ^ 32 + (e * 2 ^ 24 + f * 2 ^ 16 + g * 256 + h))
head_uint64 _ = err range_error

unfoldable pub get_uint32 : List ℕ → ℕ → Outcome ℕ
get_uint32 view offset = head_uint32 (drop offset view)

pub head-put_uint16 :
    (v : ℕ) (rest : List ℕ) → v < 2 ^ 16 → head_uint16 (put_uint16 v ++ rest) ≡ ok v
unfolding head_uint16 put_uint16
head-put_uint16 v rest h = ap ok (omega arith)

pub head-put_uint32 :
    (v : ℕ) (rest : List ℕ) → v < 2 ^ 32 → head_uint32 (put_uint32 v ++ rest) ≡ ok v
unfolding head_uint32 put_uint32
head-put_uint32 v rest h = ap ok (omega arith)

pub head-put_uint64 :
    (v : ℕ) (rest : List ℕ) → v < 2 ^ 64 → head_uint64 (put_uint64 v ++ rest) ≡ ok v
unfolding head_uint64 put_uint64
head-put_uint64 v rest h = ap ok (omega arith)

-- What stands behind a 32-bit word.
pub get_elem?-put_uint32 :
    (v : ℕ) (rest : List ℕ) → get_elem? (put_uint32 v ++ rest) 4 ≡ get_elem? rest 0
unfolding put_uint32
get_elem?-put_uint32 v rest = refl

pub get-put_uint32 :
    (v : ℕ) (rest : List ℕ) → get_uint32 (put_uint32 v ++ rest) 4 ≡ head_uint32 rest
unfolding put_uint32 get_uint32
get-put_uint32 v rest = refl

pub drop-put_uint32 :
    (n v : ℕ) (rest : List ℕ) → drop (suc (suc (suc (suc n)))) (put_uint32 v ++ rest) ≡ drop n rest
unfolding put_uint32
drop-put_uint32 n v rest = refl
