-- ===== src/Tests/Decoder.antt =====
-- Crates that stand in for openh264 and rust_h265: each H.264 payload gives one picture of two by two
-- pixels, and a HEVC payload is a list of the types of its NAL units.
use phone_cam.Prelude.{
  ℕ, ◌≡◌, ◌++◌, refl, true, false, ◌&&◌, Option, none, some, List, [], ◌∷◌, map, ok, ◌>>=◌, All,
  get_elem?, arith, ◌==◌, nat_eq, if◌then◌else◌,
}
use phone_cam.Protocol.Profile.{h264, hevc}
use phone_cam.Protocol.Handshake.{VideoFrame}
use phone_cam.Video.Planes.{
  Plane, Nv12Frame, planar_to_nv12, copy_plane_rows, copy_rows, interleave, is_odd,
}
use phone_cam.Video.Convert.{YuyvFrame, new_converter, convert}
use phone_cam.Decoder.AnnexB.{
  is_nal_header, starts_with_short, starts_with_long, start_code_len, scan, validate_h264_annex_b,
  with_start_code, normalize_h264_annex_b,
}
use phone_cam.Decoder.AnnexB.Laws.{codes_are_headed, has_code, validate_h264_annex_b_lem}
use phone_cam.Decoder.Backends.{
  gives, H264Picture, HevcPicture, NalKind, vps, sps, pps, idr, other, Codecs, done, new_backend,
  h264_frame_to_nv12, hevc_frame_to_nv12, one_frame, after_h264, decode_h264, note_nal,
  push_picture, after_nal, decode_nals, decode_hevc,
}
use phone_cam.Decoder.Worker.{
  frame, recovery_required, Worker, started, Happening, reset, submits, receives, happen,
  apply_reset, renew, try_send, receive, decode_frame, after_decode,
}
use phone_cam.Decoder.Runs.{Runs, rest, next}
use phone_cam.Decoder.Quiet.{IsRequest, reset-Runs-IsRequest}
use phone_cam.Decoder.ParameterSets.Sent.{after_all, all_nals, WereSent, decode_hevc-WereSent}
use phone_cam.Decoder.Pictures.{IsPacked}
use phone_cam.Decoder.Pictures.Sent.{happen-IsPacked}

abbrev luma : Plane
luma = record { bytes = 10 ∷ 11 ∷ 0 ∷ 20 ∷ 21 ∷ 0 ∷ []; stride = 3 }

abbrev blue : Plane
blue = record { bytes = 30 ∷ []; stride = 1 }

abbrev red : Plane
red = record { bytes = 40 ∷ []; stride = 1 }

abbrev small : H264Picture
small = record { width = 2; height = 2; y = luma; u = blue; v = red }

abbrev small_hevc : HevcPicture
small_hevc = record {
  width = 2;
  height = 2;
  bit_depth = 8;
  y = some (1 ∷ 2 ∷ 3 ∷ 4 ∷ []);
  u = some (5 ∷ []);
  v = some (6 ∷ []);
}

abbrev picture_of : NalKind → Option HevcPicture
picture_of idr = some small_hevc
picture_of _ = none

abbrev kind_of : ℕ → NalKind
kind_of n =
    if n == 32
    then vps
    else if n == 33
    then sps
    else if n == 34
    then pps
    else if n == 19
    then idr
    else other

abbrev crates : Codecs
crates = record {
  H264Decoder = Unit {0};
  HevcDecoder = Unit {0};
  Nal = NalKind;
  decode = λ d payload. (tt, gives (some small));
  new_hevc = tt;
  parse_annex_b = map kind_of;
  kind = λ n. n;
  decode_nal = λ d n. (tt, gives (picture_of n));
}

-- One unit behind a long start code, and one behind a short.
abbrev two_units : List ℕ
two_units = 0 ∷ 0 ∷ 0 ∷ 1 ∷ 0x67 ∷ 7 ∷ 0 ∷ 0 ∷ 1 ∷ 0x65 ∷ []

validate_h264_annex_b_lem_example :
    validate_h264_annex_b two_units ≡ (codes_are_headed two_units && has_code two_units)
validate_h264_annex_b_lem_example = validate_h264_annex_b_lem two_units

accepts : validate_h264_annex_b two_units ≡ true
unfolding validate_h264_annex_b scan start_code_len is_nal_header starts_with_short starts_with_long
accepts = refl

-- A header of the type 0, and data without a start code.
refuses :
    (validate_h264_annex_b (0 ∷ 0 ∷ 1 ∷ 0x60 ∷ []) ≡ false)
    × (validate_h264_annex_b (1 ∷ 2 ∷ 3 ∷ 4 ∷ []) ≡ false)
unfolding validate_h264_annex_b scan start_code_len is_nal_header starts_with_short starts_with_long
refuses = (refl, refl)

abbrev decoded_hevc : List Nv12Frame
decoded_hevc =
    record {
      width = 2;
      height = 2;
      pts_us = 5;
      y_stride = 2;
      uv_stride = 2;
      y_plane = 1 ∷ 2 ∷ 3 ∷ 4 ∷ [];
      uv_plane = 5 ∷ 6 ∷ [];
    }
    ∷ []

abbrev byte_of : NalKind → ℕ
byte_of vps = 32
byte_of sps = 33
byte_of pps = 34
byte_of idr = 19
byte_of other = 1

-- The parameter sets come in more than one payload, and an IDR unit in a third.
abbrev payload : List NalKind → VideoFrame
payload ks = record {
  codec = hevc;
  width = 2;
  height = 2;
  is_keyframe = true;
  pts_us = 5;
  bytes = map byte_of ks;
}

abbrev earlier : List VideoFrame
earlier = payload (vps ∷ sps ∷ []) ∷ payload (idr ∷ pps ∷ []) ∷ []

abbrev third : VideoFrame
third = payload (other ∷ pps ∷ idr ∷ [])

decodes_idr :
    (decode_hevc crates (after_all crates earlier (new_backend crates)) third).1 ≡ done decoded_hevc
unfolding decode_hevc decode_nals note_nal after_nal push_picture hevc_frame_to_nv12 planar_to_nv12
    copy_plane_rows copy_rows interleave is_odd
decodes_idr = refl

decode_hevc-WereSent_example : WereSent crates (all_nals crates earlier ++ other ∷ pps ∷ [])
decode_hevc-WereSent_example =
    decode_hevc-WereSent crates earlier third (other ∷ pps ∷ []) idr [] decoded_hevc decodes_idr
      refl refl

abbrev delta : VideoFrame
delta = record {
  codec = h264;
  width = 2;
  height = 2;
  is_keyframe = false;
  pts_us = 5;
  bytes = 0x61 ∷ [];
}

abbrev key : VideoFrame
key = record {
  codec = h264;
  width = 2;
  height = 2;
  is_keyframe = true;
  pts_us = 5;
  bytes = 0x65 ∷ [];
}

abbrev new_worker : Worker crates
new_worker = started crates tt

-- The thread after a reset, and with a frame that waits.
abbrev with_frames : List VideoFrame → Worker crates
with_frames fs = record new_worker { frames = fs }

abbrev h264_reset : Happening crates
h264_reset = reset h264 (some tt)

abbrev quiet : List (Happening crates)
quiet = submits delta ∷ receives none 2 ∷ []

quiet_run :
    Runs crates
      (happen crates h264_reset new_worker).worker
      quiet
      (recovery_required ∷ [])
      (with_frames [])
unfolding happen apply_reset renew try_send receive
quiet_run = next (submits delta) refl (next (receives none 2) refl rest)

reset_works : (happen crates h264_reset new_worker).accepted ≡ true
unfolding happen apply_reset renew
reset_works = refl

reset-Runs-IsRequest_example : All IsRequest (recovery_required ∷ [])
reset-Runs-IsRequest_example =
    reset-Runs-IsRequest crates h264 (some tt) new_worker (with_frames []) quiet
      (recovery_required ∷ []) reset_works (refl, (tt, tt)) quiet_run

abbrev decoded_h264 : Nv12Frame
decoded_h264 = record {
  width = 2;
  height = 2;
  pts_us = 5;
  y_stride = 2;
  uv_stride = 2;
  y_plane = 10 ∷ 11 ∷ 20 ∷ 21 ∷ [];
  uv_plane = 30 ∷ 40 ∷ [];
}

abbrev take_one : Happening crates
take_one = receives none 2

sends_picture :
    get_elem? (happen crates take_one (with_frames (key ∷ []))).events 0 ≡ some (frame decoded_h264)
unfolding happen receive decode_frame after_decode decode_h264 after_h264 one_frame
    h264_frame_to_nv12 normalize_h264_annex_b with_start_code starts_with_short starts_with_long
    is_nal_header planar_to_nv12 copy_plane_rows copy_rows interleave is_odd
sends_picture = refl

happen-IsPacked_example :
    IsPacked decoded_h264
    × (out : YuyvFrame) × ((do k ← new_converter 2 2; convert k decoded_h264) ≡ ok out)
happen-IsPacked_example =
    happen-IsPacked crates take_one (with_frames (key ∷ [])) 0 decoded_h264 sends_picture
      (omega arith)
