-- ===== src/Frame/Tests.antt =====
-- The theorems about src/frame/frame.ts at concrete inputs.
use browsercore_http.Common.{
  take, length, ◌<◌, ◌^◌, err, frame_parse_error, ◌≡◌, refl, inl, arith, false, none, [], ◌∷◌, ◌++◌,
  ok,
}
use browsercore_http.Frame.Types.{Frame, settings_frame, flags_of, stream_id_of}
use browsercore_http.Frame.Serialize.{
  serialize_frame, put_header, serialize_payload, collect_settings_entries, put_settings,
}
use browsercore_http.Frame.Words.{put_uint16, put_uint32}
use browsercore_http.Frame.Parse.{parse_frame}
use browsercore_http.Frame.Truncated.{parse_frame-take}
use browsercore_http.Frame.RoundTrip.{parse_frame-serialize_frame}

-- SETTINGS with a window of 70000 octets and frames of up to 16384.
abbrev two_settings : Frame
two_settings = settings_frame (record {
  flags = 0;
  stream_id = 0;
  ack = false;
  settings = (4, 70000) ∷ (5, 16384) ∷ [];
  settings_order = none;
  grease = false;
})

length-two_settings : length (serialize_payload 7 two_settings) < 2 ^ 24
unfolding serialize_payload collect_settings_entries put_settings put_uint16 put_uint32
length-two_settings = omega arith

parse_frame-serialize_frame_example :
    parse_frame (serialize_frame 7 two_settings ++ (1 ∷ 2 ∷ [])) ≡ ok two_settings
parse_frame-serialize_frame_example =
    parse_frame-serialize_frame 7 two_settings (1 ∷ 2 ∷ [])
      (refl, refl, inl refl, refl, refl, ground arith) (unfold flags_of in omega arith)
      (unfold stream_id_of in omega arith)
      (unfold serialize_payload collect_settings_entries put_settings put_uint16 put_uint32 in
        omega arith)

parse_frame-take_example :
    parse_frame (take 13 (serialize_frame 7 two_settings)) ≡ err (frame_parse_error 9)
parse_frame-take_example =
    parse_frame-take 7 13 two_settings (unfold flags_of in omega arith)
      (unfold stream_id_of in omega arith) length-two_settings
      (unfold serialize_frame serialize_payload collect_settings_entries put_settings put_header
          put_uint16 put_uint32 in
        omega arith)
