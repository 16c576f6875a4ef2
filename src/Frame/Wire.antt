-- ===== src/Frame/Wire.antt =====
-- src/frame/frame.ts: the frames that fit the wire format, and the parts of a frame read back.
use browsercore_http.Common.{
  ℕ, ◌+◌, ◌*◌, ◌/◌, ◌%◌, ◌^◌, ◌≤◌, ◌<◌, ◌≡◌, refl, ap₂, ◌∙◌, sym, arith, false, none, List, [], ◌∷◌,
  ◌++◌, length, drop, ok, append-nil, append_assoc, ◌⊎◌,
}
use browsercore_http.Frame.Types.{
  Frame, data_frame, headers_frame, priority_frame, rst_stream_frame, settings_frame,
  push_promise_frame, ping_frame, goaway_frame, window_update_frame, continuation_frame, Settings,
}
use browsercore_http.Frame.Words.{put_uint16, put_uint32}
use browsercore_http.Frame.Serialize.{put_settings, put_header}
use browsercore_http.Frame.Parse.{parse_frame_header, flag_set, set_setting, read_settings}

-- Keys in ascending order from `low` on, 16 bits wide, with values of 32 bits.
abbrev pub IsSettings : ℕ → Settings → Type 0
IsSettings low [] = Unit {0}
IsSettings low ((key, value) ∷ settings) =
    (low ≤ key) × (key < 2 ^ 16) × (value < 2 ^ 32) × IsSettings (key + 1) settings

-- Every field fits its width, a Boolean says what its flag bit says, and the frames of the
-- connection have stream id 0. No PUSH_PROMISE is of this kind: `serializePayload` writes its
-- payload without the promised stream id.
abbrev pub IsWire : Frame → Type 0
IsWire (data_frame f) = Unit {0}
IsWire (headers_frame f) =
    (f.end_headers ≡ flag_set f.flags 0x4)
    × (f.end_stream ≡ flag_set f.flags 0x1)
    × (f.padded ≡ flag_set f.flags 0x8)
IsWire (priority_frame f) = (f.stream_dependency < 2 ^ 31) × (f.weight < 256)
IsWire (rst_stream_frame f) = f.error_code < 2 ^ 32
IsWire (settings_frame f) =
    (f.stream_id ≡ 0)
    × (f.ack ≡ flag_set f.flags 0x1)
    × ((f.ack ≡ false) ⊎ (f.settings ≡ []))
    × (f.settings_order ≡ none)
    × (f.grease ≡ false)
    × IsSettings 0 f.settings
IsWire (push_promise_frame f) = ⊥
IsWire (ping_frame f) =
    (f.stream_id ≡ 0) × (f.ack ≡ flag_set f.flags 0x1) × (f.opaque_data < 2 ^ 64)
IsWire (goaway_frame f) = (f.stream_id ≡ 0) × (f.last_stream_id < 2 ^ 31) × (f.error_code < 2 ^ 32)
IsWire (window_update_frame f) = f.window_size_increment < 2 ^ 31
IsWire (continuation_frame f) = f.end_headers ≡ flag_set f.flags 0x4

pub parse-put_header :
    (len t flags stream_id : ℕ) (rest : List ℕ)
    → len < 2 ^ 24
    → t < 256
    → flags < 256
    → stream_id < 2 ^ 31
    → parse_frame_header (put_header len t flags stream_id ++ rest)
      ≡ ok (record { type_byte = t; flags = flags; stream_id = stream_id; len = len })
unfolding parse_frame_header put_header put_uint32
parse-put_header len t flags stream_id rest hl ht hf hs =
    let e₁ : t % 256 ≡ t = omega arith in
    let e₂ : flags % 256 ≡ flags = omega arith in
    let e₃ : (stream_id % 2 ^ 31 / 2 ^ 24 % 256 * 2 ^ 24
            + stream_id % 2 ^ 31 / 2 ^ 16 % 256 * 2 ^ 16
            + stream_id % 2 ^ 31 / 256 % 256 * 256
            + stream_id % 2 ^ 31 % 256)
          % 2 ^ 31
        ≡ stream_id =
      omega arith in
    let e₄ : len / 2 ^ 16 % 256 * 2 ^ 16 + len / 256 % 256 * 256 + len % 256 ≡ len = omega arith in
    λ i. ok (record { type_byte = e₁ i; flags = e₂ i; stream_id = e₃ i; len = e₄ i })

pub length-put_header : (len t flags stream_id : ℕ) → length (put_header len t flags stream_id) ≡ 9
unfolding put_header put_uint32
length-put_header len t flags stream_id = refl

pub drop_header :
    (len t flags stream_id : ℕ) (rest : List ℕ)
    → drop 9 (put_header len t flags stream_id ++ rest) ≡ rest
unfolding put_header put_uint32
drop_header len t flags stream_id rest = refl

-- Keys under a bound.
abbrev Below : ℕ → Settings → Type 0
Below n [] = Unit {0}
Below n ((key, value) ∷ settings) = (key < n) × Below n settings

Below-snoc :
    (n m key value : ℕ) (settings : Settings)
    → Below n settings
    → n ≤ m
    → key < m
    → Below m (settings ++ ((key, value) ∷ []))
Below-snoc n m key value [] h le lt = (lt, tt)
Below-snoc n m key value ((k, v) ∷ settings) h le lt =
    (omega arith, Below-snoc n m key value settings h.1 le lt)

weaken : (n m : ℕ) (settings : Settings) → n ≤ m → Below n settings → Below m settings
weaken n m [] le h = tt
weaken n m ((k, v) ∷ settings) le h = (omega arith, weaken n m settings le h.1)

set_setting_last :
    (id value : ℕ) (settings : Settings)
    → Below id settings
    → set_setting id value settings ≡ settings ++ ((id, value) ∷ [])
unfolding set_setting
set_setting_last id value [] h = refl
set_setting_last id value ((k, v) ∷ settings) h = ground (arith, set_setting_last id value settings)

read_settings_step :
    (key value : ℕ) (rest : List ℕ) (acc : Settings)
    → key < 2 ^ 16
    → value < 2 ^ 32
    → read_settings (put_uint16 key ++ (put_uint32 value ++ rest)) acc
      ≡ read_settings rest (set_setting key value acc)
unfolding put_uint16 put_uint32
read_settings_step key value rest acc hk hv =
    let low : key / 256 % 256 * 256 + key % 256 ≡ key = omega arith in
    let high : value / 2 ^ 24 % 256 * 2 ^ 24
          + value / 2 ^ 16 % 256 * 2 ^ 16
          + value / 256 % 256 * 256
          + value % 256
        ≡ value =
      omega arith in
    unfold read_settings in ap₂ (λ k v. read_settings rest (set_setting k v acc)) low high

pub read-put_settings :
    (low : ℕ) (settings acc : Settings)
    → IsSettings low settings
    → Below low acc
    → read_settings (put_settings settings) acc ≡ acc ++ settings
unfolding put_settings
read-put_settings low [] acc h b = unfold read_settings in sym (append-nil acc)
read-put_settings low ((key, value) ∷ settings) acc (hl, hk, hv, h) b =
    read_settings_step key value (put_settings settings) acc hk hv
    ∙ rw (set_setting_last key value acc (weaken low key acc hl b)) (
        read-put_settings (key + 1) settings (acc ++ ((key, value) ∷ [])) h
          (Below-snoc low (key + 1) key value acc b (omega arith) (omega arith)))
    ∙ append_assoc acc ((key, value) ∷ []) settings
