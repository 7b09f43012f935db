-- ===== src/Mobile/Stuck.antt =====
-- What becomes of a configuration request whose id is 0.
use phone_cam.Prelude.{◌≡◌, Option, none, some, List, [], ◌∷◌, arith, All}
use phone_cam.Text.{Text}
use phone_cam.Protocol.Profile.{StreamProfile}
use phone_cam.Protocol.Message.{Bincode, CameraControl}
use phone_cam.Mobile.State.{Link, TransportClient, Core, CStr}
use phone_cam.Mobile.Setup.{configure_endpoint, set_streaming_enabled}
use phone_cam.Mobile.Stream.{
  FrameCall, send_video_frame, update_video_capabilities, Report, report_stream_configuration,
}
use phone_cam.Mobile.Control.{poll_control_command_json}
use phone_cam.Mobile.Run.{
  Json, Call, configures, enables, inits, shuts_down, sends_frame, polls, updates, reports,
  takes_outbound, brings_inbound, writer_ends, reader_ends, changes_state, change_link, step, run,
}

-- A client that waits for the report on a request of id 0.
abbrev pub WaitsForZero : StreamProfile → Option TransportClient → Type 0
WaitsForZero p none = ⊥
WaitsForZero p (some c) = c.pending_configuration ≡ some (0, p)

-- Every call but those that open and close the connection.
abbrev pub KeepsConnection : Call → Type 0
KeepsConnection (inits _ _ _ _) = ⊥
KeepsConnection shuts_down = ⊥
KeepsConnection _ = Unit {0}

abbrev pub Waiting : StreamProfile → Core → Type 0
Waiting p s = WaitsForZero p s.client

send-Waiting :
    (p : StreamProfile) (f : FrameCall) (s : Core)
    → Waiting p s
    → Waiting p (send_video_frame f s).0
unfolding send_video_frame
send-Waiting p f s w = ground arith

update-Waiting :
    (p : StreamProfile) (read : Text → Option (List StreamProfile)) (a : CStr) (s : Core)
    → Waiting p s
    → Waiting p (update_video_capabilities read a s).0
unfolding update_video_capabilities
update-Waiting p read a s w = ground arith

report-Waiting :
    (p : StreamProfile) (r : Report) (s : Core)
    → Waiting p s
    → Waiting p (report_stream_configuration r s).0
unfolding report_stream_configuration
report-Waiting p r s w = ground arith

poll-Waiting :
    (p : StreamProfile) (write : CameraControl → Option Text) (s : Core)
    → Waiting p s
    → (poll_control_command_json write s ≡ (s, none))
unfolding poll_control_command_json
poll-Waiting p write s w = ground arith

link-Waiting :
    (p : StreamProfile) (f : Link → Link) (o : Option TransportClient)
    → WaitsForZero p o
    → WaitsForZero p (change_link f o)
link-Waiting p f none w = w
link-Waiting p f (some c) w = w

step-Waiting :
    (B : Bincode) (json : Json) (p : StreamProfile) (c : Call) (s : Core)
    → KeepsConnection c
    → Waiting p s
    → Waiting p (step B json c s)
unfolding step configure_endpoint set_streaming_enabled
step-Waiting B json p (configures host port) s k w = ground arith
step-Waiting B json p (enables b) s k w = w
step-Waiting B json p (inits env host port config) s k w = absurd k
step-Waiting B json p shuts_down s k w = absurd k
step-Waiting B json p (sends_frame f) s k w = send-Waiting p f s w
step-Waiting B json p polls s k w = rw (poll-Waiting p json.write_control s w, step) w
step-Waiting B json p (updates ps) s k w = update-Waiting p json.read_profiles ps s w
step-Waiting B json p (reports r) s k w = report-Waiting p r s w
step-Waiting B json p takes_outbound s k w = link-Waiting p _ s.client w
step-Waiting B json p (brings_inbound m) s k w = link-Waiting p _ s.client w
step-Waiting B json p writer_ends s k w = link-Waiting p _ s.client w
step-Waiting B json p reader_ends s k w = link-Waiting p _ s.client w
step-Waiting B json p (changes_state t) s k w = link-Waiting p _ s.client w

run-Waiting :
    (B : Bincode) (json : Json) (p : StreamProfile) (cs : List Call) (s : Core)
    → All KeepsConnection cs
    → Waiting p s
    → Waiting p (run B json cs s)
unfolding run
run-Waiting B json p [] s k w = w
run-Waiting B json p (c ∷ cs) s k w =
    run-Waiting B json p cs (step B json c s) k.1 (step-Waiting B json p c s k.0 w)

-- Once a configuration request of id 0 is pending, no report clears it: after any calls and task
-- steps, short of opening or closing the connection, a poll gives nothing and changes nothing.
pub poll-pending_zero :
    (B : Bincode) (json : Json) (p : StreamProfile) (cs : List Call) (s : Core)
    → All KeepsConnection cs
    → Waiting p s
    → poll_control_command_json json.write_control (run B json cs s) ≡ (run B json cs s, none)
poll-pending_zero B json p cs s k w =
    poll-Waiting p json.write_control _ (run-Waiting B json p cs s k w)
