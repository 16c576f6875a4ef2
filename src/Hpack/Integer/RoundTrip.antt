-- ===== src/Hpack/Integer/RoundTrip.antt =====
-- `decodeInteger` reads back what `encodeInteger` wrote.
use browsercore_http.Common.{
  ℕ, zero, suc, ◌+◌, ◌-◌, ◌*◌, ◌/◌, ◌%◌, ◌^◌, ◌≤◌, ◌<◌, arith, List, [], ◌∷◌, ◌++◌, ltb, length,
  drop, ok, ◌≡◌, ap, get_elem?-drop, drop_next, length-drop, drop-length-append, Bool-cases, ltb→lt,
  inl, inr, length-append,
}
use browsercore_http.Common.Bits.{
  bit_and-0x7f, bit_and-0x80, bit_or-0x80, bit_and_prefix, IsPrefixBits,
}
use browsercore_http.Hpack.Integer.{
  continuation, encode_integer, decode_continuation, decode_integer,
}
use native.Mathlib.Nat.{div-add-mod, mod-eq_of_lt}
use native.Mathlib.Numerals.{towards_suc}

shift_seven : (s : ℕ) → 2 ^ (s + 7) ≡ 128 * 2 ^ s
shift_seven s = simp towards_suc (omega arith)

-- The lowest group of `r` and the groups above it, shifted by `s`.
split_groups : (r s : ℕ) → r * 2 ^ s ≡ r % 128 * 2 ^ s + r / 128 * 2 ^ (s + 7)
split_groups r s = omega (
  arith,
  ap (λ (t : ℕ). t * 2 ^ s) (div-add-mod r 128),
  ap (λ (t : ℕ). r / 128 * t) (shift_seven s),
)

-- One round of the decoder's loop on a last octet, and on one with the high bit over the group `g`.
last_octet :
    (rounds : ℕ) (buf : List ℕ) (position value shift g : ℕ) (rest : List ℕ)
    → g < 128
    → drop position buf ≡ g ∷ rest
    → decode_continuation (suc rounds) buf position value shift
      ≡ ok (value + g * 2 ^ shift, position + 1)
unfolding decode_continuation
last_octet rounds buf position value shift g rest small at =
    ground (arith, get_elem?-drop buf position g rest at, bit_and-0x7f g, bit_and-0x80 g)

inner_octet :
    (rounds : ℕ) (buf : List ℕ) (position value shift g : ℕ) (rest : List ℕ)
    → g < 128
    → drop position buf ≡ (g + 128) ∷ rest
    → decode_continuation (suc rounds) buf position value shift
      ≡ decode_continuation rounds buf (position + 1) (value + g * 2 ^ shift) (shift + 7)
unfolding decode_continuation
inner_octet rounds buf position value shift g rest small at = ground (
  arith,
  get_elem?-drop buf position (g + 128) rest at,
  bit_and-0x7f (g + 128),
  bit_and-0x80 (g + 128),
)

-- The loop reads the groups of `r` into `value`, from bit `shift` on.
pub decode_continuation-continuation :
    (fuel r rounds : ℕ) (buf : List ℕ) (position value shift : ℕ) (rest : List ℕ)
    → r ≤ fuel
    → drop position buf ≡ continuation fuel r ++ rest
    → length (continuation fuel r) ≤ rounds
    → decode_continuation rounds buf position value shift
      ≡ ok (value + r * 2 ^ shift, position + length (continuation fuel r))
unfolding continuation
decode_continuation-continuation zero r zero buf position value shift rest le at room =
    absurd (omega arith)
decode_continuation-continuation zero r (suc rounds) buf position value shift rest le at room =
    ground (arith, last_octet rounds buf position value shift (r % 128) rest)
decode_continuation-continuation (suc fuel) r zero buf position value shift rest le at room =
    absurd (ground arith)
decode_continuation-continuation (suc fuel) r (suc rounds) buf position value shift rest le at
      room =
    ground (
      arith,
      bit_or-0x80 (r % 128),
      split_groups r shift,
      last_octet rounds buf position value shift (r % 128) rest,
      inner_octet rounds buf position value shift (r % 128) (continuation fuel (r / 128) ++ rest),
      drop_next buf position (r % 128 + 128) (continuation fuel (r / 128) ++ rest),
      decode_continuation-continuation fuel (r / 128) rounds buf (position + 1)
          (value + r % 128 * 2 ^ shift) (shift + 7) rest,
    )

fits :
    (buf : List ℕ) (offset x : ℕ) (more rest : List ℕ)
    → drop offset buf ≡ x ∷ (more ++ rest)
    → length more ≤ length buf - (offset + 1)
fits buf offset x more rest at =
    omega (arith, ap length at, length-drop offset buf, length-append more rest)

-- The first octet may carry flag bits above its prefix.
pub decode_flagged :
    (n v : ℕ) (buf : List ℕ) (offset first flagged : ℕ) (more rest : List ℕ)
    → IsPrefixBits n
    → encode_integer v n ≡ first ∷ more
    → flagged < 256
    → flagged % 2 ^ n ≡ first
    → drop offset buf ≡ flagged ∷ (more ++ rest)
    → decode_integer buf offset n ≡ ok (v, offset + suc (length more))
unfolding encode_integer decode_integer
decode_flagged n v buf offset first flagged more rest bits e byte low at = ground (
  arith,
  get_elem?-drop buf offset flagged (more ++ rest) at,
  bit_and_prefix n flagged bits byte,
  drop_next buf offset flagged (more ++ rest) at,
  fits buf offset flagged more rest at,
  decode_continuation-continuation (v - (2 ^ n - 1)) (v - (2 ^ n - 1)) (length buf - (offset + 1))
      buf (offset + 1) (2 ^ n - 1) 0 rest,
)

pub power_bounds : (n : ℕ) → IsPrefixBits n → (16 ≤ 2 ^ n) × (2 ^ n ≤ 128)
power_bounds n (inl e) = rw e (omega arith)
power_bounds n (inr (inl e)) = rw e (omega arith)
power_bounds n (inr (inr (inl e))) = rw e (omega arith)
power_bounds n (inr (inr (inr e))) = rw e (omega arith)

abbrev pub Leads : ℕ → List ℕ → Type 0
Leads limit octets = (first : ℕ) × (more : List ℕ) × (octets ≡ first ∷ more) × (first < limit)

-- The encoding has a first octet, and it fits the prefix.
pub encode_integer-Leads : (n v : ℕ) → IsPrefixBits n → Leads (2 ^ n) (encode_integer v n)
unfolding encode_integer
encode_integer-Leads n v bits = elim (Bool-cases (ltb v (2 ^ n - 1))) [
  | inl below ↦ (v, [], rw below, omega (arith, ltb→lt v (2 ^ n - 1) below))
  | inr above ↦ (
    2 ^ n - 1,
    continuation (v - (2 ^ n - 1)) (v - (2 ^ n - 1)),
    rw above,
    omega (arith, power_bounds n bits),
  )
]

-- `decodeInteger` reads back what `encodeInteger` wrote, wherever it stands in a buffer, and
-- leaves the offset behind it, for each prefix width of the wire format.
pub decode_integer-encode_integer :
    (n v : ℕ) (before after : List ℕ)
    → IsPrefixBits n
    → decode_integer (before ++ (encode_integer v n ++ after)) (length before) n
      ≡ ok (v, length before + length (encode_integer v n))
decode_integer-encode_integer n v before after bits =
    let (first, more, e, small) = encode_integer-Leads n v bits in
    rw e (
      decode_flagged n v (before ++ (first ∷ (more ++ after))) (length before) first first more
        after bits e (omega (arith, power_bounds n bits)) (mod-eq_of_lt small)
        (drop-length-append before (first ∷ (more ++ after))))
