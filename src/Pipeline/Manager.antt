-- ===== src/Pipeline/Manager.antt =====
-- `PipelineManager` and `run_pipeline` (rust/phonecam-desktop/src-tauri/src/pipeline.rs). The manager
-- calls adb's manager; a channel is a number.
pub mod Laws
pub mod Tunnels
pub mod Requests
use phone_cam.Prelude.{
  ℕ, Bool, true, false, Option, none, some, List, [], ◌∷◌, ◌++◌, Result, ok, err, ◌==◌, nat_eq,
  contains, if◌then◌else◌,
}
use phone_cam.Text.{Text}
use phone_cam.Text.Split.{codes}
use phone_cam.Protocol.Profile.{StreamProfile, profile_eq, h264_720p30}
use phone_cam.Output.Device.{V4l2, NativeOutputFormat}
use phone_cam.Pipeline.Profiles.{qualified_output_profiles}
use phone_cam.Pipeline.Session.{SessionError, StreamExit}
use phone_cam.Adb.Devices.{AdbError}
use phone_cam.Adb.Binary.{Machine, Environment}
use phone_cam.Adb.Manager.{AdbManager, reverse, kill_reverse}

abbrev pub default_listen_port : ℕ
default_listen_port = 7878

-- What the text of the status's error says.
pub data PipelineError : Type 0 where
  open_failed qualification_rejected advertisement_failed bind_failed accept_failed : PipelineError
  session_failed : SessionError → PipelineError

pub data StatusState : Type 0 where
  disconnected listening connected error : StatusState

pub record PipelineStatus : Type 0 where
  pub is_connected : Bool  -- the field `connected`
  pub state : StatusState
  pub last_error : Option PipelineError
  pub supported_profiles : List StreamProfile
  pub active_profile : Option StreamProfile
  pub output_format : Option NativeOutputFormat

abbrev pub disconnected_status : PipelineStatus
disconnected_status = record {
  is_connected = false;
  state = disconnected;
  last_error = none;
  supported_profiles = [];
  active_profile = none;
  output_format = none;
}

abbrev pub listening_status : PipelineStatus
listening_status = record disconnected_status { state = listening }

abbrev pub error_status : PipelineError → PipelineStatus
error_status e = record {
  is_connected = false;
  state = error;
  last_error = some e;
  supported_profiles = [];
  active_profile = none;
  output_format = none;
}

-- How the connection's task of `run_pipeline` was answered: what `accept` gave, or that the shutdown
-- came first.
pub data Accepted : Type 0 where
  shut_down : Accepted
  refused : Accepted
  accepts : (connection : ℕ) → (commands : ℕ) → Accepted

-- What the calls of `run_pipeline` give. `streamed` stands for the statuses that `stream_connection`
-- publishes and its result.
pub record Surroundings : Type 0 where
  pub opens : Bool
  pub v4l2 : V4l2
  pub advertises : Bool
  pub binds : Bool
  pub accepted : Accepted
  pub streamed : List PipelineStatus × Result SessionError StreamExit

-- A step of `run_pipeline` that the others see.
pub data Step : Type 0 where
  publishes : PipelineStatus → Step
  sets_connection_sender : Option ℕ → Step
  sets_command_sender : Option ℕ → Step
  streams : (connection : ℕ) → Step

abbrev pub publish_all : List PipelineStatus → List Step
publish_all [] = []
publish_all (s ∷ ss) = publishes s ∷ publish_all ss

abbrev pub final_status : Result SessionError StreamExit → PipelineStatus
final_status (ok exit) = disconnected_status
final_status (err e) = error_status (session_failed e)

unfoldable pub after_accept :
    Accepted → List PipelineStatus × Result SessionError StreamExit → List Step
after_accept shut_down r = publishes disconnected_status ∷ []
after_accept refused r = publishes (error_status accept_failed) ∷ []
after_accept (accepts connection commands) r =
    sets_connection_sender (some connection)
      ∷ sets_command_sender (some commands)
      ∷ streams connection
      ∷ publish_all r.0
    ++ publishes (final_status r.1) ∷ sets_connection_sender none ∷ sets_command_sender none ∷ []

-- An early return with an error's status.
abbrev pub or_error : Bool → PipelineError → List Step → List Step
or_error works e rest = if works then rest else publishes (error_status e) ∷ []

unfoldable pub run_pipeline : Surroundings → List Step
unfolding after_accept
run_pipeline s =
    sets_connection_sender none
    ∷ sets_command_sender none
    ∷ or_error s.opens open_failed (
        or_error (contains (qualified_output_profiles s.v4l2) h264_720p30) qualification_rejected (
          or_error s.advertises advertisement_failed (
            or_error s.binds bind_failed
              (publishes listening_status ∷ after_accept s.accepted s.streamed))))

-- The worker's task: it runs, or it has ended.
pub data Worker : Type 0 where
  running finished : Worker

pub data PipelineStartMode : Type 0 where
  wifi : PipelineStartMode
  usb : (serial : Option Text) → PipelineStartMode

pub record UsbForwardSession : Type 0 where
  pub serial : Text
  pub local_port : ℕ

pub data ManagerError (P : Type 0) : Type 0 where
  tunnel_failed : AdbError P → ManagerError P
  worker_join_failed : ManagerError P

module _ (M : Machine) (E : Environment M) where
  open M use {PathBuf}

  -- `PipelineRuntime`, and the manager of adb.
  pub record Runtime : Type 0 where
    pub status : PipelineStatus
    pub has_shutdown : Bool  -- `shutdown_tx` is there
    pub worker : Option Worker
    pub active_connection_sender : Option ℕ
    pub active_command_sender : Option ℕ
    pub usb_forward : Option UsbForwardSession
    pub adb : AdbManager M E

  -- The runtime, the result, and the port of a worker that was spawned.
  pub record Called : Type 0 where
    pub runtime : Runtime
    pub result : Result (ManagerError PathBuf) (Unit {0})
    pub spawned : Option ℕ

  abbrev pub listen_port : ℕ → ℕ
  listen_port port = if port == 0 then default_listen_port else port

  abbrev pub spawn : ℕ → Option UsbForwardSession → Runtime → Called
  spawn port forward r = record {
    runtime = record r { usb_forward = forward; has_shutdown = true; worker = some running };
    result = ok tt;
    spawned = some port;
  }

  abbrev pub after_reverse : ℕ → Runtime → AdbManager M E × Result (AdbError PathBuf) Text → Called
  after_reverse port r (adb, ok serial) =
      spawn port (some (record { serial = serial; local_port = port })) (record r { adb = adb })
  after_reverse port r (adb, err e) = record {
    runtime = record r { adb = adb };
    result = err (tunnel_failed e);
    spawned = none;
  }

  unfoldable pub start_worker : ℕ → PipelineStartMode → Runtime → Called
  start_worker port wifi r = spawn port none r
  start_worker port (usb serial) r = after_reverse port r (reverse M E port port serial r.adb)

  -- `start_with_mode`
  unfoldable pub start_with_mode : ℕ → PipelineStartMode → Runtime → Called
  unfolding start_worker
  start_with_mode port mode r = elim r.worker [
    | none ↦ start_worker (listen_port port) mode r
    | some running ↦ record { runtime = r; result = ok tt; spawned = none }
    | some finished ↦
        start_worker (listen_port port) mode (record r { worker = none; has_shutdown = false })
  ]

  abbrev pub remove_forward : Option UsbForwardSession → AdbManager M E → AdbManager M E
  remove_forward none adb = adb
  remove_forward (some u) adb = (kill_reverse M E u.local_port (some u.serial) adb).0

  -- `stop`. The worker is awaited, if there is one; `joins` says that its task did not panic, and `r`
  -- is the runtime once it ended.
  unfoldable pub stop : Bool → Runtime → Called
  stop joins r =
      let taken : Runtime = record r { has_shutdown = false; worker = none; usb_forward = none } in
      let closed : Runtime = record taken {
        active_connection_sender = none;
        active_command_sender = none;
        adb = remove_forward r.usb_forward r.adb;
        status = disconnected_status;
      } in
      let done : Called = record { runtime = closed; result = ok tt; spawned = none } in
      elim r.worker [
        | none ↦ done
        | some w ↦
            if joins
            then done
            else record { runtime = taken; result = err worker_join_failed; spawned = none }
      ]

  -- What others see of the worker's steps.
  unfoldable pub apply_step : Step → Runtime → Runtime
  apply_step (publishes s) r = record r { status = s }
  apply_step (sets_connection_sender o) r = record r { active_connection_sender = o }
  apply_step (sets_command_sender o) r = record r { active_command_sender = o }
  apply_step (streams c) r = r

  unfoldable pub apply_steps : List Step → Runtime → Runtime
  unfolding apply_step
  apply_steps [] r = r
  apply_steps (s ∷ ss) r = apply_steps ss (apply_step s r)
