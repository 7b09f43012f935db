-- ===== src/Tests/Wrapper.antt =====
-- A kernel that takes what is asked, and a grey picture of 640 by 480 pixels.
use phone_cam.Prelude.{
  err, ℕ, zero, suc, ◌*◌, ◌≤◌, ◌≡◌, refl, ap, arith, true, false, none, some, List, [], ◌∷◌, ◌++◌,
  ok, length, contains,
}
use phone_cam.Text.Split.{codes}
use phone_cam.Protocol.Profile.{StreamProfile, h264, h264_720p30, validate}
use phone_cam.Video.Planes.{Nv12Frame, is_odd}
use phone_cam.Video.Convert.{Converter, new_converter, convert_rows}
use phone_cam.Video.Pixels.{Checked}
use phone_cam.Video.Picture.{convert-Checked}
use phone_cam.Decoder.Pictures.{IsPacked}
use phone_cam.Output.Device.{
  commit_failed, V4l2Device, OutputDevice, opened, preflight, agreed_converter, commit, write_frame,
}
use phone_cam.Output.Wrapper.{Kernel, supports_format, set_format, left_by_set_format, as_v4l2}
use phone_cam.Output.Wrapper.Laws.{IsFormatSet, write_frame-IsFormatSet}
use phone_cam.Output.Packed.{packed_nv12}
use phone_cam.Output.Packed.Laws.{packed_nv12-IsPacked}

abbrev kernel : Kernel
kernel = record {
  try_format = λ w h c. ok (record { width = w; height = h; fourcc = c; size = 2 * (w * h) });
  set_format = λ w h c. ok (record { width = w; height = h; fourcc = c; size = 2 * (w * h) });
  intervals = λ c w h. ok [];
  set_interval = λ fps. ok (record { numerator = 1; denominator = fps });
  f64_div = λ n d. n;
  f64_le = λ a b. false;
  writes = true;
}

abbrev new : V4l2Device
new = record { format = none; interval = none }

abbrev vga : StreamProfile
vga = record { codec = h264; width = 640; height = 480; fps = 30 }

grey : ℕ → List ℕ
grey zero = []
grey (suc n) = 128 ∷ grey n

length-grey : (n : ℕ) → length (grey n) ≡ n
unfolding grey
length-grey zero = omega arith
length-grey (suc n) = omega (arith, length-grey n)

abbrev picture : Nv12Frame
picture = record {
  width = 640;
  height = 480;
  pts_us = 0;
  y_stride = 640;
  uv_stride = 640;
  y_plane = grey 307200;
  uv_plane = grey 153600;
}

abbrev converter : Converter
converter = record { width = 640; height = 480 }

checks : Checked converter picture
checks = record {
  y_wide = omega arith;
  uv_wide = omega arith;
  y_long = omega (arith, length-grey 307200);
  uv_long = omega (arith, length-grey 153600);
  same_width = refl;
  same_height = refl;
}

abbrev committed : OutputDevice
committed = record {
  device = record {
    format = some (record { width = 640; height = 480; fourcc = codes "YUYV"; size = 614400 });
    interval = some (record { numerator = 1; denominator = 30 });
  };
  converter = some converter;
  committed_profile = some vga;
}

commits : commit (as_v4l2 kernel) (opened new) vga ≡ (committed, ok tt)
unfolding commit agreed_converter preflight validate new_converter is_odd contains supports_format
    set_format left_by_set_format
commits = refl

-- A kernel that sets any format, but only 25 pictures a second: it refuses a profile of 30 and keeps
-- the new format, while the output device still shows the former profile.
abbrev slow : Kernel
slow = record kernel { set_interval = λ fps. ok (record { numerator = 1; denominator = 25 }) }

refuses : commit (as_v4l2 slow) committed h264_720p30 ≡ (
  record committed {
    device = record {
      format = some (record { width = 1280; height = 720; fourcc = codes "YUYV"; size = 1843200 });
      interval = some (record { numerator = 1; denominator = 25 });
    };
  },
  err commit_failed,
)
unfolding commit agreed_converter preflight validate new_converter is_odd contains supports_format
    set_format left_by_set_format
refuses = refl

writes :
    write_frame (as_v4l2 kernel) (commit (as_v4l2 kernel) (opened new) vga).0 picture 0
    ≡ ok (convert_rows picture 640 0 480)
unfolding write_frame
writes =
    rw
      (
        ap (λ r. r.0) commits,
        convert-Checked converter picture checks (omega arith) (omega arith) (omega arith),
      )
      refl

write_frame-IsFormatSet_example :
    (s : IsFormatSet kernel 640 480 30) × (length (convert_rows picture 640 0 480)
      ≡ 2 * (640 * 480))
    × (length (convert_rows picture 640 0 480) ≤ s.actual.size)
write_frame-IsFormatSet_example =
    write_frame-IsFormatSet kernel (opened new) vga picture 0 (convert_rows picture 640 0 480)
      (ap (λ r. r.1) commits) writes

abbrev small : Nv12Frame
small = record {
  width = 2;
  height = 2;
  pts_us = 0;
  y_stride = 2;
  uv_stride = 2;
  y_plane = 1 ∷ 2 ∷ 3 ∷ 4 ∷ [];
  uv_plane = 5 ∷ 6 ∷ [];
}

small-IsPacked : IsPacked small
small-IsPacked = record {
  size = record {
    width_pos = omega arith;
    height_pos = omega arith;
    width_even = refl;
    height_even = refl;
  };
  y_tight = refl;
  uv_tight = refl;
  y_full = refl;
  uv_full = refl;
}

packed_nv12-IsPacked_example : packed_nv12 small ≡ ok ((1 ∷ 2 ∷ 3 ∷ 4 ∷ []) ++ 5 ∷ 6 ∷ [])
packed_nv12-IsPacked_example = packed_nv12-IsPacked small small-IsPacked (omega arith)
