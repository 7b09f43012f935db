-- ===== src/Tests/Protocol.antt =====
-- Profiles, handshakes and frames at concrete inputs.
use phone_cam.Prelude.{
  ℕ, ◌≡◌, ◌↔◌, ◌≤◌, ◌⊎◌, refl, true, false, Option, some, none, List, [], ◌∷◌, Mem, Result, ok, err,
  arith, length,
}
use phone_cam.Protocol.Profile.{h264, h264_720p30, validate_profiles}
use phone_cam.Protocol.Profile.Laws.{IsProfileList, validate_profiles-ok_iff}
use phone_cam.Protocol.Handshake.{VideoFrame}
use phone_cam.Protocol.Message.{
  Message, switch_camera, AudioFrame, opus, MessageCodecError, encode, encode_payload,
}
use phone_cam.Protocol.Frame.{
  FrameError, codec, frame_too_large, max_frame_bytes, encode_frame, decode_frame,
}
use phone_cam.Protocol.Frame.Laws.{
  decode_frame-encode_frame, Decoded, decode_frame-Decoded, encode_frame-errors,
}
use phone_cam.Tests.Toy.{toy, toy-IsLawful}

validate_profiles-ok_iff_example :
    (validate_profiles (h264_720p30 ∷ []) ≡ ok tt) ↔ IsProfileList (h264_720p30 ∷ [])
validate_profiles-ok_iff_example = validate_profiles-ok_iff (h264_720p30 ∷ [])

abbrev small_frame : VideoFrame
small_frame = record {
  bytes = 0 ∷ 0 ∷ 1 ∷ [];
  pts_us = 40;
  codec = h264;
  width = 1280;
  height = 720;
  is_keyframe = true;
}

abbrev switch : Message
switch = Message.camera_control (switch_camera true)

-- Length 2, type byte 4, payload 1.
abbrev switch_bytes : List ℕ
switch_bytes = 0 ∷ 0 ∷ 0 ∷ 2 ∷ 4 ∷ 1 ∷ []

switch_encoded : encode_frame toy switch ≡ ok switch_bytes
unfolding encode_frame phone_cam.Protocol.Frame.check_video
    phone_cam.Protocol.Message.encode_payload phone_cam.Prelude.to_be_bytes
    phone_cam.Protocol.Message.type_byte phone_cam.Protocol.Message.message_type
switch_encoded = refl

decode_frame-encode_frame_example : decode_frame toy switch_bytes ≡ ok switch
decode_frame-encode_frame_example =
    decode_frame-encode_frame toy toy-IsLawful switch switch_bytes switch_encoded

decode_frame-Decoded_example : Decoded toy switch switch_bytes
decode_frame-Decoded_example =
    decode_frame-Decoded toy switch switch_bytes decode_frame-encode_frame_example

abbrev sound : Message
sound = Message.audio_frame (record { codec = opus; sample_rate = 48000; channels = 2; bytes = [] })

abbrev sound_error : FrameError toy
sound_error = codec (encode tt)

sound_unencoded : encode_payload toy sound ≡ err (encode tt)
unfolding encode_payload
sound_unencoded = refl

sound_refused : encode_frame toy sound ≡ err sound_error
unfolding encode_frame phone_cam.Protocol.Frame.check_video encode_payload
sound_refused = refl

encode_frame-errors_example :
    ((n : ℕ) × (max_frame_bytes ≤ n) × (sound_error ≡ frame_too_large n))
    ⊎ ((c : MessageCodecError toy) × (encode_payload toy sound ≡ err c) × (sound_error ≡ codec c))
encode_frame-errors_example =
    encode_frame-errors toy sound sound_error (λ p h. let e = sound_unencoded in absurd (cc))
      sound_refused
