-- ===== src/Mobile/Run.antt =====
-- Histories of the mobile core: the calls of the C interface, and what the connection's tasks do
-- between them.
use phone_cam.Prelude.{ℕ, Bool, false, Option, none, some, List, [], ◌∷◌, ◌++◌}
use phone_cam.Text.{Text}
use phone_cam.Protocol.Profile.{StreamProfile}
use phone_cam.Protocol.Message.{Bincode, Message, CameraControl}
use phone_cam.Transport.Connect.{ConnectionState}
use phone_cam.Mobile.State.{Link, TransportClient, Core, CStr}
use phone_cam.Mobile.Setup.{
  VideoConfig, Environment, configure_endpoint, set_streaming_enabled, transport_init,
  transport_shutdown,
}
use phone_cam.Mobile.Stream.{
  FrameCall, send_video_frame, update_video_capabilities, Report, report_stream_configuration,
}
use phone_cam.Mobile.Control.{poll_control_command_json}

-- The third-party conversions that the calls use.
pub record Json : Type 0 where
  pub read_config : Text → Option VideoConfig
  pub read_profiles : Text → Option (List StreamProfile)
  pub write_control : CameraControl → Option Text

pub data Call : Type 0 where
  configures : Text → ℕ → Call
  enables : Bool → Call
  inits : Environment → CStr → ℕ → CStr → Call
  shuts_down : Call
  sends_frame : FrameCall → Call
  polls : Call
  updates : CStr → Call
  reports : Report → Call
  -- what the connection's tasks do
  takes_outbound : Call
  brings_inbound : Message → Call
  writer_ends : Call
  reader_ends : Call
  changes_state : ConnectionState → Call

-- A change that a task makes to the channels, if there is a connection.
abbrev pub change_link : (Link → Link) → Option TransportClient → Option TransportClient
change_link f none = none
change_link f (some c) = some (record c { connection = f c.connection })

abbrev pub on_link : (Link → Link) → Core → Core
on_link f s = record s { client = change_link f s.client }

abbrev pub taken : List Message → List Message
taken [] = []
taken (m ∷ ms) = ms

unfoldable pub step : (B : Bincode) → Json → Call → Core → Core
step B json (configures host port) s = configure_endpoint host port s
step B json (enables b) s = set_streaming_enabled b s
step B json (inits env host port config) s =
    (transport_init B json.read_config env host port config s).0
step B json shuts_down s = transport_shutdown s
step B json (sends_frame f) s = (send_video_frame f s).0
step B json polls s = (poll_control_command_json json.write_control s).0
step B json (updates profiles) s = (update_video_capabilities json.read_profiles profiles s).0
step B json (reports r) s = (report_stream_configuration r s).0
step B json takes_outbound s = on_link (λ l. record l { outbound = taken l.outbound }) s
step B json (brings_inbound m) s = on_link (λ l. record l { inbound = l.inbound ++ m ∷ [] }) s
step B json writer_ends s = on_link (λ l. record l { writer_alive = false }) s
step B json reader_ends s = on_link (λ l. record l { reader_alive = false }) s
step B json (changes_state t) s = on_link (λ l. record l { state = t }) s

unfoldable pub run : (B : Bincode) → Json → List Call → Core → Core
run B json [] s = s
run B json (c ∷ cs) s = run B json cs (step B json c s)
