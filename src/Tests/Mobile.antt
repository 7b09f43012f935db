-- ===== src/Tests/Mobile.antt =====
-- The mobile core at concrete inputs.
use phone_cam.Prelude.{
  ℕ, ◌≡◌, refl, true, false, Option, some, none, List, [], ◌∷◌, ◌++◌, arith, inr, ap, All, contains,
  if◌then◌else◌,
}
use phone_cam.Text.{Text}
use phone_cam.Protocol.Profile.{StreamProfile, h264, h264_720p30, validate}
use phone_cam.Protocol.Profile.Laws.{IsSupported, validate-ok_of}
use phone_cam.Protocol.Message.{
  Message, CameraControl, Disconnect, request_keyframe, configure_stream, switch_camera,
  StreamConfigurationOutcome, unsupported_profile,
}
use phone_cam.Mobile.State.{Core, TransportClient, CStr, text, initial}
use phone_cam.Mobile.Setup.{VideoConfig, Environment, new_client}
use phone_cam.Mobile.Stream.{
  FrameCall, send_video_frame, update_video_capabilities, Report, report_stream_configuration,
  reported_outcome,
}
use phone_cam.Mobile.Control.{poll_control_command_json, with_inbound, next_pending}
use phone_cam.Mobile.Run.{Json, Call, configures, inits, polls, reports, brings_inbound, run}
use phone_cam.Mobile.Invariant.{IsCore}
use phone_cam.Mobile.History.{run-initial-IsCore}
use phone_cam.Mobile.Atomic.{refused_unchanged, reported, Accepted, report_lem}
use phone_cam.Mobile.Answers.{IsPassed, IsAnswered, poll_answers}
use phone_cam.Mobile.Stuck.{poll-pending_zero}
use phone_cam.Tests.Toy.{phone, toy}

abbrev config : VideoConfig
config = record { supported_profiles = h264_720p30 ∷ []; active_profile = h264_720p30 }

abbrev control_text : CameraControl → Option Text
control_text (switch_camera b) = some (b'S' ∷ [])
control_text request_keyframe = some (b'K' ∷ [])
control_text (configure_stream id p) = some (b'C' ∷ [])

abbrev json : Json
json = record {
  read_config = λ t. some config;
  read_profiles = λ t. some (h264_720p30 ∷ []);
  write_control = control_text;
}

abbrev env : Environment
env = record {
  runtime_built = true;
  connect_elapsed = false;
  network = record {
    resolved = true;
    established = true;
    works = true;
    elapsed = false;
    incoming = 0 ∷ 0 ∷ 0 ∷ 2 ∷ 1 ∷ 7 ∷ [];
  };
}

abbrev host : Text
host = b'h' ∷ []

abbrev refusal : Report
refusal = record { request_id = 4; result_code = 1; codec = 0; width = 0; height = 0; fps = 0 }

abbrev configuration : ℕ → Message
configuration id = Message.camera_control (configure_stream id h264_720p30)

abbrev calls : List Call
calls =
    configures host 7878
    ∷ inits env (text host) 7878 (text [])
    ∷ brings_inbound (configuration 4)
    ∷ polls
    ∷ reports refusal
    ∷ []

run-initial-IsCore_example : IsCore (run toy json calls initial)
run-initial-IsCore_example = run-initial-IsCore toy json calls

abbrev client : TransportClient
client = new_client config (record { peer_handshake = phone; incoming = []; sent = [] })

abbrev core_with : TransportClient → Core
core_with c = record initial { client = some c }

abbrev waiting : TransportClient
waiting = record client { pending_configuration = some (4, h264_720p30) }

refusal-Accepted : Accepted refusal unsupported_profile waiting
unfolding reported_outcome
refusal-Accepted = record { outcome = refl; matching = inr refl; alive = refl; room = omega arith }

report_lem_example :
    ((report_stream_configuration refusal (core_with waiting)).1 ≡ true
      → (o : StreamConfigurationOutcome) × Accepted refusal o waiting
        × (report_stream_configuration refusal (core_with waiting)
            ≡ (core_with (reported refusal o waiting), true)))
    × ((o : StreamConfigurationOutcome)
        → Accepted refusal o waiting
        → report_stream_configuration refusal (core_with waiting)
          ≡ (core_with (reported refusal o waiting), true))
report_lem_example = report_lem refusal (core_with waiting) waiting refl

refusal_queued :
    report_stream_configuration refusal (core_with waiting)
    ≡ (core_with (reported refusal unsupported_profile waiting), true)
refusal_queued = report_lem_example.1 unsupported_profile refusal-Accepted

abbrev tiny : StreamProfile
tiny = record { codec = h264; width = 2; height = 2; fps = 30 }

tiny_unsupported : ¬ IsSupported tiny
unfolding validate contains
tiny_unsupported h = let e = validate-ok_of tiny h in cc

-- A late keepalive and a configuration that no phone supports.
abbrev skipped : List Message
skipped = Message.handshake phone ∷ Message.camera_control (configure_stream 3 tiny) ∷ []

skipped_lem : All IsPassed skipped
skipped_lem = (tt, (tiny_unsupported, tt))

-- A key frame request after them, and a configuration behind it.
abbrev busy : TransportClient
busy = record client {
  connection = record client.connection {
    inbound = skipped ++ Message.camera_control request_keyframe ∷ configuration 4 ∷ [];
  };
}

poll_answers_example :
    ((k : CameraControl)
      → IsAnswered k
      → busy.connection.inbound ≡ skipped ++ Message.camera_control k ∷ configuration 4 ∷ []
      → poll_control_command_json control_text (core_with busy) ≡ (
        record (core_with busy) {
          client = some (record (with_inbound busy (configuration 4 ∷ [])) {
            pending_configuration = next_pending k none;
          });
        },
        control_text k,
      ))
    × ((d : Disconnect)
        → busy.connection.inbound ≡ skipped ++ Message.disconnect d ∷ configuration 4 ∷ []
        → poll_control_command_json control_text (core_with busy)
          ≡ (record (core_with busy) { client = none }, none))
    × (busy.connection.inbound ≡ skipped
        → poll_control_command_json control_text (core_with busy) ≡ (
          record (core_with busy) {
            client = if busy.connection.reader_alive then some (with_inbound busy []) else none;
          },
          none,
        ))
poll_answers_example =
    poll_answers control_text (core_with busy) busy skipped (configuration 4 ∷ []) refl refl
      skipped_lem

asks_keyframe : (poll_control_command_json control_text (core_with busy)).1 ≡ some (b'K' ∷ [])
asks_keyframe = ap (λ r. r.1) (poll_answers_example.0 request_keyframe tt refl)

refused_unchanged_example :
    ((f : FrameCall)
      → (send_video_frame f (core_with waiting)).1 ≡ false
      → (send_video_frame f (core_with waiting)).0 ≡ core_with waiting)
    × ((read : Text → Option (List StreamProfile)) (a : CStr)
        → (update_video_capabilities read a (core_with waiting)).1 ≡ false
        → (update_video_capabilities read a (core_with waiting)).0 ≡ core_with waiting)
    × ((r : Report)
        → (report_stream_configuration r (core_with waiting)).1 ≡ false
        → (report_stream_configuration r (core_with waiting)).0 ≡ core_with waiting)
refused_unchanged_example = refused_unchanged (core_with waiting)

abbrev stuck : TransportClient
stuck = record client { pending_configuration = some (0, h264_720p30) }

abbrev later : List Call
later = reports (record refusal { request_id = 0 }) ∷ brings_inbound (configuration 5) ∷ []

poll-pending_zero_example :
    poll_control_command_json control_text (run toy json later (core_with stuck))
    ≡ (run toy json later (core_with stuck), none)
poll-pending_zero_example =
    poll-pending_zero toy json h264_720p30 later (core_with stuck) (tt, (tt, tt)) refl
