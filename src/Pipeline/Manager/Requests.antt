-- ===== src/Pipeline/Manager/Requests.antt =====
-- `switch_camera` and `configure_stream` of the manager
-- (rust/phonecam-desktop/src-tauri/src/pipeline.rs).
use phone_cam.Prelude.{ℕ, Bool, Option, none, some, Result, ok, err, if◌then◌else◌}
use phone_cam.Protocol.Profile.{StreamProfile}
use phone_cam.Protocol.Message.{Message, switch_camera}
use phone_cam.Pipeline.Session.{SessionError, Command}
use phone_cam.Adb.Binary.{Machine, Environment}
use phone_cam.Pipeline.Manager.{Runtime}

-- The texts of the errors.
pub data RequestError : Type 0 where
  no_connection connection_closed actor_stopped reply_dropped : RequestError
  refused : SessionError → RequestError

module _ (M : Machine) (E : Environment M) where
  -- What is sent, and on which channel, with the result; `sends` says that the channel takes it.
  unfoldable pub request_switch :
      (sends : Bool)
      → (front : Bool) → Runtime M E
      → Option (ℕ × Message) × Result RequestError (Unit {0})
  request_switch sends front r = elim r.active_connection_sender [
    | none ↦ (none, err no_connection)
    | some connection ↦
        if sends
        then (some (connection, Message.camera_control (switch_camera front)), ok tt)
        else (none, err connection_closed)
  ]

  abbrev reply_of : Option (Result SessionError StreamProfile) → Result RequestError StreamProfile
  reply_of none = err reply_dropped
  reply_of (some (ok p)) = ok p
  reply_of (some (err e)) = err (refused e)

  -- `response` is what came back on the command's channel for its reply, if anything did.
  unfoldable pub configure_stream :
      (sends : Bool)
      → (response : Option (Result SessionError StreamProfile)) → Command
      → Runtime M E
      → Option (ℕ × Command) × Result RequestError StreamProfile
  configure_stream sends response command r = elim r.active_command_sender [
    | none ↦ (none, err no_connection)
    | some commands ↦
        if sends then (some (commands, command), reply_of response) else (none, err actor_stopped)
  ]
