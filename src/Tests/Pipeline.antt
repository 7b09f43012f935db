-- ===== src/Tests/Pipeline.antt =====
-- A desktop session at concrete inputs.
use phone_cam.Prelude.{
  ◌≡◌, ◌↔◌, ◌<◌, ◌^◌, refl, true, false, none, some, ◌*◌, List, [], ◌∷◌, ◌++◌, ok, err, arith,
  contains,
}
use phone_cam.Text.Split.{codes}
use phone_cam.Protocol.Profile.{profile_eq, h264, StreamProfile, h264_720p30, validate}
use phone_cam.Protocol.Handshake.{Handshake}
use phone_cam.Protocol.Message.{Message, configure_stream}
use phone_cam.Video.Convert.{Converter, new_converter}
use phone_cam.Video.Planes.{is_odd}
use phone_cam.Output.Device.{V4l2, V4l2Device, opened, preflight, agreed_converter, commit}
use phone_cam.Pipeline.Profiles.{
  auto, h264_only, next_request_id, common_profiles, select, resolve_profile, find_by_codec, find,
  codec_order, accepts_applied_profile,
}
use phone_cam.Pipeline.Profiles.Laws.{next_request_id-fresh, IsChoice, resolve_profile-some_iff}
use phone_cam.Pipeline.Session.{
  decoder_reset_failed, applied_commit_failed, Session, World, Command, Effect, sends, replies,
  turn, goes_on, published, configure, start, session_of, request_configuration, reset_decoder,
  apply_profile,
}
use phone_cam.Pipeline.Results.{on_result, on_answer, on_configure_result, after_configure}
use phone_cam.Pipeline.Step.{
  Event, command, received, is_enabled, step, on_command, on_resolved, on_message,
}
use phone_cam.Pipeline.Invariant.{IsSession}
use phone_cam.Pipeline.History.{Runs, next, rest, start-Runs-IsSession}
use phone_cam.Pipeline.Replies.{replied, owed, asked}
use phone_cam.Pipeline.Replies.Turns.{start-Runs-replied}
use phone_cam.Pipeline.Switch.{answer, using, requesting, switch-applied, switch-compensated}

abbrev vga : StreamProfile
vga = record { codec = h264; width = 640; height = 480; fps = 30 }

abbrev both : List StreamProfile
both = h264_720p30 ∷ vga ∷ []

abbrev peer : Handshake
peer = record {
  version = 2;
  device_name = "PhoneCam Mobile";
  supported_profiles = both;
  active_profile = some h264_720p30;
}

-- A driver that takes everything.
abbrev pub driver : V4l2
driver = record {
  supports_format = λ w h f. some true;
  set_format = λ w h f. true;
  left_by_set_format = λ w h f device. record {
    format = some (record { width = w; height = h; fourcc = codes "YUYV"; size = 2 * (w * h) });
    interval = some (record { numerator = 1; denominator = f });
  };
  writes = true;
}

-- The driver's device before it is used, and as a profile leaves it.
abbrev pub new : V4l2Device
new = record { format = none; interval = none }

abbrev set_to : StreamProfile → V4l2Device
set_to p = driver.left_by_set_format p.width p.height p.fps new

abbrev world : World
world = record {
  v4l2 = driver;
  reset_works = true;
  send_works = true;
  takes_frame = true;
  now = 100;
}

-- The decoder cannot be reset.
abbrev bad_world : World
bad_world = record world { reset_works = false }

abbrev converter : Converter
converter = record { width = 1280; height = 720 }

abbrev vga_converter : Converter
vga_converter = record { width = 640; height = 480 }

abbrev first : Session
first =
    session_of
      (record {
        device = set_to h264_720p30;
        converter = some converter;
        committed_profile = some h264_720p30;
      })
      both both h264_720p30

abbrev wanted : Command
wanted = record { width = 640; height = 480; fps = 30; preference = auto; reply = 8 }

started : start world true peer (opened new) both ≡ ok (first, published first ∷ [])
unfolding start contains common_profiles commit agreed_converter preflight validate new_converter
started = refl

abbrev events : List Event
events = command (some wanted) ∷ received (some (answer 1 vga)) ∷ []

abbrev last : Session
last = using first 1 vga (set_to vga) vga_converter

abbrev effects : List Effect
effects =
    sends (Message.camera_control (configure_stream 1 vga))
    ∷ published last
    ∷ replies 8 (ok vga)
    ∷ []

abbrev asking : Session
asking = requesting world vga (configure h264_720p30 (some 8)) first

runs : Runs first events effects last
unfolding step is_enabled on_command on_resolved on_message on_result on_answer on_configure_result
    after_configure apply_profile reset_decoder commit agreed_converter preflight validate
    new_converter contains accepts_applied_profile request_configuration next_request_id
    resolve_profile find_by_codec find codec_order common_profiles select is_odd
runs =
    next {s = first} world (command (some wanted)) refl refl
      (next {s = asking} world (received (some (answer 1 vga))) refl refl rest)

start-Runs-IsSession_example : IsSession last
start-Runs-IsSession_example =
    start-Runs-IsSession world true peer (opened new) both first last (published first ∷ []) effects
      events started runs

start-Runs-replied_example : replied effects ++ owed last ≡ asked events
start-Runs-replied_example =
    start-Runs-replied world true peer (opened new) both first last (published first ∷ []) effects
      events started runs

resolved : resolve_profile first.common 640 480 30 auto ≡ some vga
unfolding resolve_profile find_by_codec find codec_order common_profiles select contains
resolved = refl

qualified : preflight driver vga ≡ ok tt
unfolding preflight validate contains
qualified = refl

agreed : agreed_converter driver vga ≡ ok vga_converter
unfolding agreed_converter preflight validate contains new_converter is_odd
agreed = refl

agreed_again : agreed_converter driver h264_720p30 ≡ ok converter
unfolding agreed_converter preflight validate contains new_converter is_odd
agreed_again = refl

acceptable : accepts_applied_profile first.common vga vga ≡ true
unfolding accepts_applied_profile common_profiles select contains
acceptable = refl

not_applied : (apply_profile bad_world vga first).1 ≡ err decoder_reset_failed
unfolding apply_profile commit agreed_converter preflight validate contains new_converter is_odd
    reset_decoder
not_applied = refl

switch-applied_example :
    ((step world (command (some wanted)) first).effects
      ≡ sends (Message.camera_control (configure_stream (next_request_id 0) vga)) ∷ [])
    × (step world
          (received (some (answer (next_request_id 0) vga)))
          ((step world (command (some wanted)) first).session)
        ≡ turn
            (using first (next_request_id 0) vga (set_to vga) vga_converter)
            (published (using first (next_request_id 0) vga (set_to vga) vga_converter)
              ∷ replies 8 (ok vga)
              ∷ [])
            goes_on)
switch-applied_example =
    switch-applied world world wanted vga vga vga_converter first resolved qualified refl refl
      acceptable agreed refl

abbrev undone : Session
undone =
    using first (next_request_id (next_request_id 0)) h264_720p30 (set_to h264_720p30) converter

switch-compensated_example :
    ((step bad_world
        (received (some (answer (next_request_id 0) vga)))
        ((step world (command (some wanted)) first).session)).effects
      ≡ sends (
          Message.camera_control
            (configure_stream (next_request_id (next_request_id 0)) h264_720p30))
        ∷ [])
    × (step world (received (some (answer (next_request_id (next_request_id 0)) h264_720p30))) (
          (step bad_world
            (received (some (answer (next_request_id 0) vga)))
            ((step world (command (some wanted)) first).session)).session)
        ≡ turn undone
            (published undone ∷ replies 8 (err (applied_commit_failed decoder_reset_failed)) ∷ [])
            goes_on)
switch-compensated_example =
    switch-compensated world bad_world world wanted vga vga converter first decoder_reset_failed
      resolved qualified refl refl acceptable not_applied refl agreed_again refl

resolve_profile-some_iff_example :
    (resolve_profile both 640 480 30 h264_only ≡ some vga) ↔ IsChoice both 640 480 30 h264_only vga
resolve_profile-some_iff_example = resolve_profile-some_iff both 640 480 30 h264_only vga

next_request_id-fresh_example :
    (next_request_id 4294967295 < 2 ^ 32)
    × ¬ (next_request_id 4294967295 ≡ 0)
    × ¬ (next_request_id 4294967295 ≡ 4294967295)
next_request_id-fresh_example = next_request_id-fresh 4294967295 (omega arith)
