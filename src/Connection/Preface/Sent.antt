-- ===== src/Connection/Preface/Sent.antt =====
-- src/connection.ts: what the other side reads of the preface, and of the data of a PING.
use browsercore_http.Common.{
  ℕ, ◌+◌, ◌*◌, ◌/◌, ◌%◌, ◌^◌, ◌≤◌, ◌<◌, ◌≡◌, refl, ap, ap₂, ◌∙◌, arith, false, Option, none, some,
  List, [], ◌∷◌, ◌++◌, length, take, All,
}
use browsercore_http.Frame.Types.{Frame}
use browsercore_http.Frame.Words.{put_uint32, put_uint64}
use browsercore_http.Frame.Wire.{IsSettings}
use browsercore_http.Connection.Request.{Http2Options, PriorityFrameSpec}
use browsercore_http.Connection.Preface.{given_settings, given_grease, random_uint64}

abbrev FitsIncrement : Option ℕ → Type 0
FitsIncrement none = Unit {0}
FitsIncrement (some increment) = increment < 2 ^ 31

abbrev FitsSpec : PriorityFrameSpec → Type 0
FitsSpec spec = (spec.stream_id < 2 ^ 31) × (spec.stream_dependency < 2 ^ 31) × (spec.weight < 256)

abbrev FitsSpecs : Option (List PriorityFrameSpec) → Type 0
FitsSpecs none = Unit {0}
FitsSpecs (some specs) = All FitsSpec specs

-- Options of which each number fits its field, in the natural order of the settings and without
-- GREASE.
pub record FitsPreface (options : Http2Options) : Type 0 where
  pub settings : IsSettings 0 (given_settings options.initial_settings)
  pub unordered : options.settings_order ≡ none
  pub ungreased : given_grease options.settings_grease ≡ false
  pub increment : FitsIncrement options.connection_window_update
  pub specs : FitsSpecs options.priority_frames

word_octets :
    (a b c d more : ℕ)
    → a < 256
    → b < 256
    → c < 256
    → d < 256
    → put_uint32 (more * 2 ^ 32 + (a * 2 ^ 24 + b * 2 ^ 16 + c * 256 + d)) ≡ a ∷ b ∷ c ∷ d ∷ []
unfolding put_uint32
word_octets a b c d more ha hb hc hd =
    let v : ℕ = more * 2 ^ 32 + (a * 2 ^ 24 + b * 2 ^ 16 + c * 256 + d) in
    let e₁ : v / 2 ^ 24 % 256 ≡ a = omega arith in
    let e₂ : v / 2 ^ 16 % 256 ≡ b = omega arith in
    let e₃ : v / 256 % 256 ≡ c = omega arith in
    let e₄ : v % 256 ≡ d = omega arith in rw (e₁, e₂, e₃, e₄) refl

double_word_octets :
    (a b c d e f g h : ℕ)
    → All (λ (x : ℕ). x < 256) (a ∷ b ∷ c ∷ d ∷ e ∷ f ∷ g ∷ h ∷ [])
    → let hi : ℕ = a * 2 ^ 24 + b * 2 ^ 16 + c * 256 + d in
      let lo : ℕ = e * 2 ^ 24 + f * 2 ^ 16 + g * 256 + h in
      put_uint64 (hi * 2 ^ 32 + lo) ≡ a ∷ b ∷ c ∷ d ∷ e ∷ f ∷ g ∷ h ∷ []
unfolding put_uint64
double_word_octets a b c d e f g h (ha, (hb, (hc, (hd, (he, (hf, (hg, (hh, rest)))))))) =
    let hi : ℕ = a * 2 ^ 24 + b * 2 ^ 16 + c * 256 + d in
    let lo : ℕ = e * 2 ^ 24 + f * 2 ^ 16 + g * 256 + h in
    let upper : (hi * 2 ^ 32 + lo) / 2 ^ 32 ≡ 0 * 2 ^ 32 + hi = omega arith in
    ap₂ (λ (xs ys : List ℕ). xs ++ ys) (ap put_uint32 upper ∙ word_octets a b c d 0 ha hb hc hd)
      (word_octets e f g h hi he hf hg hh)

-- From eight octets or more that the provider draws, `randomUint64` makes a number of 64 bits whose
-- octets in a PING frame are the first eight that were drawn, in their order.
pub random_uint64_lem :
    (bytes : List ℕ)
    → 8 ≤ length bytes
    → All (λ (x : ℕ). x < 256) bytes
    → (v : ℕ) × (random_uint64 bytes ≡ some v) × (v < 2 ^ 64) × (put_uint64 v ≡ take 8 bytes)
unfolding random_uint64
random_uint64_lem [] long small = absurd (omega arith)
random_uint64_lem (a ∷ []) long small = absurd (omega arith)
random_uint64_lem (a ∷ b ∷ []) long small = absurd (omega arith)
random_uint64_lem (a ∷ b ∷ c ∷ []) long small = absurd (omega arith)
random_uint64_lem (a ∷ b ∷ c ∷ d ∷ []) long small = absurd (omega arith)
random_uint64_lem (a ∷ b ∷ c ∷ d ∷ e ∷ []) long small = absurd (omega arith)
random_uint64_lem (a ∷ b ∷ c ∷ d ∷ e ∷ f ∷ []) long small = absurd (omega arith)
random_uint64_lem (a ∷ b ∷ c ∷ d ∷ e ∷ f ∷ g ∷ []) long small = absurd (omega arith)
random_uint64_lem (a ∷ b ∷ c ∷ d ∷ e ∷ f ∷ g ∷ h ∷ bytes) long
      (ha, (hb, (hc, (hd, (he, (hf, (hg, (hh, rest)))))))) =
    (
      (a * 2 ^ 24 + b * 2 ^ 16 + c * 256 + d) * 2 ^ 32 + (e * 2 ^ 24 + f * 2 ^ 16 + g * 256 + h),
      refl,
      omega arith,
      double_word_octets a b c d e f g h (ha, (hb, (hc, (hd, (he, (hf, (hg, (hh, tt)))))))),
    )
