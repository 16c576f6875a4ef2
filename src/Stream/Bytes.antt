-- ===== src/Stream/Bytes.antt =====
-- src/stream/stream.ts: `concat` and `concatAll` on byte arrays, which the other files write as `++`
-- and `flatten`.
use browsercore_http.Common.{
  ℕ, zero, suc, ◌+◌, ◌≤◌, ◌≡◌, refl, sym, ap, ◌∙◌, arith, List, [], ◌∷◌, ◌++◌, length, take, drop,
  ltb, le→ltb, if◌then◌else◌, Outcome, ok, err, ◌>>=◌, range_error, append-nil, append_assoc,
  take-length-append, drop-length-append, length-append, drop_add,
}
use mathlib.Core.List.{flatten}

-- `new Uint8Array(n)`
unfoldable pub new_bytes : ℕ → List ℕ
new_bytes zero = []
new_bytes (suc n) = 0 ∷ new_bytes n

-- `out.set(part, offset)`, which throws where the part does not fit.
unfoldable pub set_bytes : List ℕ → ℕ → List ℕ → Outcome (List ℕ)
set_bytes part offset out =
    if ltb (length out) (offset + length part)
    then err range_error
    else ok (take offset out ++ (part ++ drop (offset + length part) out))

unfoldable pub concat : List ℕ → List ℕ → Outcome (List ℕ)
unfolding new_bytes set_bytes
concat a b = set_bytes a 0 (new_bytes (length a + length b)) >>= λ out. set_bytes b (length a) out

-- The first loop of `concatAll`.
unfoldable pub total_length : ℕ → List (List ℕ) → ℕ
total_length total [] = total
total_length total (p ∷ parts) = total_length (total + length p) parts

-- The second loop.
unfoldable pub set_parts : ℕ → List (List ℕ) → List ℕ → Outcome (List ℕ)
unfolding set_bytes
set_parts offset [] out = ok out
set_parts offset (p ∷ parts) out =
    set_bytes p offset out >>= λ out'. set_parts (offset + length p) parts out'

unfoldable pub concat_all : List (List ℕ) → Outcome (List ℕ)
unfolding total_length new_bytes set_parts
concat_all parts = set_parts 0 parts (new_bytes (total_length 0 parts))

length-new_bytes : (n : ℕ) → length (new_bytes n) ≡ n
unfolding new_bytes
length-new_bytes zero = refl
length-new_bytes (suc n) = omega (arith, length-new_bytes n)

drop-new_bytes : (m n : ℕ) → drop m (new_bytes (m + n)) ≡ new_bytes n
unfolding new_bytes
drop-new_bytes zero n = ap new_bytes (omega arith)
drop-new_bytes (suc m) n =
    let e : suc m + n ≡ suc (m + n) = omega arith in rw e (drop-new_bytes m n)

-- A part goes behind what has been written, into the zeros that are left.
set_bytes-behind :
    (part written : List ℕ) (n : ℕ)
    → set_bytes part (length written) (written ++ new_bytes (length part + n))
      ≡ ok ((written ++ part) ++ new_bytes n)
unfolding set_bytes
set_bytes-behind part written n =
    let zeros = new_bytes (length part + n) in
    let fits : length written + length part ≤ length (written ++ zeros) =
      omega (arith, length-append written zeros, length-new_bytes (length part + n)) in
    rw
      (
        set_bytes,
        le→ltb (length (written ++ zeros)) (length written + length part) fits,
        take-length-append written zeros,
        drop_add (length written) (length part) (written ++ zeros),
        drop-length-append written zeros,
        drop-new_bytes (length part) n,
      )
      (ap ok (sym (append_assoc written part (new_bytes n))))

-- `concat` never throws, and gives the octets of the first array and then those of the second.
pub concat_lem : (a b : List ℕ) → concat a b ≡ ok (a ++ b)
unfolding concat
concat_lem a b =
    let first : set_bytes a 0 (new_bytes (length a + length b)) ≡ ok (a ++ new_bytes (length b)) =
      set_bytes-behind a [] (length b) in
    let rest : new_bytes (length b) ≡ new_bytes (length b + 0) = ap new_bytes (omega arith) in
    rw first (rw rest (set_bytes-behind b a 0 ∙ ap ok (unfold new_bytes in append-nil (a ++ b))))

total_length_lem :
    (total : ℕ) (parts : List (List ℕ)) → total_length total parts ≡ total + length (flatten parts)
unfolding total_length flatten
total_length_lem total [] = omega arith
total_length_lem total (p ∷ parts) =
    omega (arith, total_length_lem (total + length p) parts, length-append p (flatten parts))

set_parts_lem :
    (parts : List (List ℕ)) (written : List ℕ)
    → set_parts (length written) parts (written ++ new_bytes (length (flatten parts)))
      ≡ ok (written ++ flatten parts)
unfolding set_parts flatten new_bytes
set_parts_lem [] written = refl
set_parts_lem (p ∷ parts) written =
    let zeros : length (flatten (p ∷ parts)) ≡ length p + length (flatten parts) =
      length-append p (flatten parts) in
    let offset : length written + length p ≡ length (written ++ p) =
      sym (length-append written p) in
    let first =
      ap (λ (n : ℕ). set_bytes p (length written) (written ++ new_bytes n)) zeros
      ∙ set_bytes-behind p written (length (flatten parts)) in
    rw (first, offset)
      (set_parts_lem parts (written ++ p) ∙ ap ok (append_assoc written p (flatten parts)))

-- `concatAll` never throws, and gives the octets of all arrays, one after the other.
pub concat_all_lem : (parts : List (List ℕ)) → concat_all parts ≡ ok (flatten parts)
unfolding concat_all
concat_all_lem parts =
    let zeros : 0 + length (flatten parts) ≡ length (flatten parts) = omega arith in
    rw (total_length_lem 0 parts, zeros) (set_parts_lem parts [])
