-- ===== src/Tests/Output.antt =====
-- The output device and the format events at concrete inputs.
use phone_cam.Prelude.{
  ℕ, ◌*◌, none, false, ◌≡◌, ◌↔◌, true, some, List, [], ◌∷◌, ok, err, arith, All, IsByte,
}
use phone_cam.Text.Split.{codes}
use phone_cam.Protocol.Profile.{h264_720p30}
use phone_cam.Output.Device.{
  V4l2, V4l2Device, OutputError, opened, commit, output_format, yuyv, NativeOutputFormat,
}
use phone_cam.Output.Device.Laws.{IsAgreeable, IsOffered, commit_lem}
use phone_cam.Output.FormatEvent.{parse, encode}
use phone_cam.Output.FormatEvent.Laws.{IsKnown, parse-ok_iff}

-- A driver that sets each format but not each rate: the device is left with the format.
abbrev format_only : V4l2
format_only = record {
  supports_format = λ w h f. some true;
  set_format = λ w h f. false;
  left_by_set_format = λ w h f device. record device {
    format = some (record { width = w; height = h; fourcc = codes "YUYV"; size = 2 * (w * h) });
  };
  writes = true;
}

abbrev new : V4l2Device
new = record { format = none; interval = none }

commit_lem_example :
    (((commit format_only (opened new) h264_720p30).1 ≡ ok tt)
      ↔ IsAgreeable format_only h264_720p30)
    × (IsAgreeable format_only h264_720p30
        → ((commit format_only (opened new) h264_720p30).0.converter
            ≡ some (record { width = 1280; height = 720 }))
          × (output_format (commit format_only (opened new) h264_720p30).0
              ≡ some (record { width = 1280; height = 720; fps = 30; pixel_format = yuyv })))
    × ((e : OutputError)
        → (commit format_only (opened new) h264_720p30).1 ≡ err e
        → ((commit format_only (opened new) h264_720p30).0.converter ≡ none)
          × ((commit format_only (opened new) h264_720p30).0.committed_profile ≡ none))
    × (¬ IsOffered format_only h264_720p30
        → (commit format_only (opened new) h264_720p30).0 ≡ opened new)
    × (IsOffered format_only h264_720p30
        → (commit format_only (opened new) h264_720p30).0.device
          ≡ format_only.left_by_set_format 1280 720 30 new)
commit_lem_example = commit_lem format_only (opened new) h264_720p30

-- 640 by 480 at 30, YUYV.
abbrev event : List ℕ
event = 80 ∷ 67 ∷ 70 ∷ 77 ∷ 128 ∷ 2 ∷ 0 ∷ 0 ∷ 224 ∷ 1 ∷ 0 ∷ 0 ∷ 30 ∷ 1 ∷ 0 ∷ 0 ∷ []

abbrev vga : NativeOutputFormat
vga = record { width = 640; height = 480; fps = 30; pixel_format = yuyv }

event_bytes : All IsByte event
event_bytes = ground arith

parse-ok_iff_example : (parse event ≡ ok vga) ↔ (IsKnown vga × (event ≡ encode vga))
parse-ok_iff_example = parse-ok_iff event vga event_bytes
