-- ===== src/Mobile/Control.antt =====
-- `phonecam_poll_control_command_json` (rust/phonecam-mobile-core/src/lib.rs). `serde_json`'s
-- writing of a control, with `CString::new`, is a parameter.
use phone_cam.Prelude.{ℕ, Bool, Option, none, some, List, [], ◌∷◌, is_ok, if◌then◌else◌}
use phone_cam.Text.{Text}
use phone_cam.Protocol.Profile.{StreamProfile, validate}
use phone_cam.Protocol.Message.{Message, CameraControl, configure_stream}
use phone_cam.Mobile.State.{TransportClient, Core}

-- What a received message means for the poll.
pub data Reaction : Type 0 where
  drop_client : Reaction  -- `Disconnect`
  ignore : Reaction  -- `continue`
  answer : CameraControl → Reaction

unfoldable pub react : Message → Reaction
react (Message.camera_control (configure_stream id profile)) =
    if is_ok (validate profile) then answer (configure_stream id profile) else ignore
react (Message.camera_control c) = answer c
react (Message.disconnect _) = drop_client
react _ = ignore

-- How the loop over `try_recv` ends: the client goes, the channel is empty, or a control comes up.
-- The list is what stays in the channel.
pub data Polled : Type 0 where
  gone : Polled
  empty : Polled
  control : CameraControl → List Message → Polled

unfoldable pub poll_inbound : Bool → List Message → Polled
poll_inbound reader_alive [] = if reader_alive then empty else gone
poll_inbound reader_alive (m ∷ ms) = elim (react m) [
  | drop_client ↦ gone
  | ignore ↦ poll_inbound reader_alive ms
  | answer c ↦ control c ms
]

-- `client.pending_configuration = Some(..)` for a configuration.
abbrev pub next_pending : CameraControl → Option (ℕ × StreamProfile) → Option (ℕ × StreamProfile)
next_pending (configure_stream id profile) pending = some (id, profile)
next_pending _ pending = pending

abbrev pub with_inbound : TransportClient → List Message → TransportClient
with_inbound c ms = record c { connection = record c.connection { inbound = ms } }

unfoldable pub finish_poll :
    (CameraControl → Option Text) → TransportClient → Core → Polled → Core × Option Text
finish_poll write c s gone = (record s { client = none }, none)
finish_poll write c s empty = (record s { client = some (with_inbound c []) }, none)
finish_poll write c s (control k ms) = (
  record s {
    client = some (record (with_inbound c ms) {
      pending_configuration = next_pending k c.pending_configuration;
    });
  },
  write k,
)

-- `none` stands for the null pointer.
unfoldable pub poll_control_command_json : (CameraControl → Option Text) → Core → Core × Option Text
unfolding finish_poll
poll_control_command_json write s = elim s.client [
  | none ↦ (s, none)
  | some c ↦ elim c.pending_configuration [
    | some _ ↦ (s, none)
    | none ↦ finish_poll write c s (poll_inbound c.connection.reader_alive c.connection.inbound)
  ]
]
