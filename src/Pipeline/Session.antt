-- ===== src/Pipeline/Session.antt =====
-- The state of `stream_connection` between two turns of its loop, what a turn sees and what it does
-- (rust/phonecam-desktop/src-tauri/src/pipeline.rs). A reply channel is a number. What the driver,
-- the decoder thread, the connection and the clock answer in one turn is a `World`.
use phone_cam.Prelude.{
  ℕ, ◌+◌, Bool, false, Option, none, some, List, [], ◌∷◌, Result, ok, err, ok_or, ensure, map_err,
  ◌>>=◌, ◌>>◌, if◌then◌else◌, contains,
}
use phone_cam.Protocol.Profile.{VideoCodec, h264, StreamProfile, profile_eq}
use phone_cam.Protocol.Handshake.{Handshake, VideoFrame}
use phone_cam.Protocol.Message.{Message, configure_stream, StreamConfigurationOutcome}
use phone_cam.Output.Device.{
  V4l2, OutputDevice, OutputError, NativeOutputFormat, commit, output_format,
}
use phone_cam.Pipeline.Profiles.{CodecPreference, next_request_id, common_profiles}

-- The error texts, without what they quote of the decoder's. The two texts for a key frame that could
-- not be requested are one constructor.
pub data SessionError : Type 0 where
  unsupported_common_profile : SessionError
  output_error : OutputError → SessionError
  decoder_reset_failed : SessionError
  configuration_timed_out : SessionError
  rejected : StreamConfigurationOutcome → SessionError
  applied_commit_failed : SessionError → SessionError
  active_profile_omitted : SessionError
  active_profile_not_common : SessionError
  decoder_unavailable : SessionError
  configuration_not_sent : SessionError
  command_channel_closed : SessionError
  decoder_stopped : SessionError
  keyframe_not_requested : SessionError
  compensation_timed_out : SessionError → SessionError
  compensation_failed : SessionError → StreamConfigurationOutcome → SessionError
  output_not_restored : SessionError → OutputError → SessionError
  decoder_not_restored : SessionError → SessionError

-- `PendingKind`: the profile before the request, for a compensation the error that made it
-- necessary, and the reply channel.
pub data PendingKind : Type 0 where
  configure : StreamProfile → Option ℕ → PendingKind
  compensation : StreamProfile → SessionError → Option ℕ → PendingKind

-- `PendingConfiguration`; times are in milliseconds.
pub record Pending : Type 0 where
  pub request_id : ℕ
  pub requested : StreamProfile
  pub deadline : ℕ
  pub kind : PendingKind

abbrev pub configuration_timeout : ℕ
configuration_timeout = 5000

-- `PipelineCommand`
pub record Command : Type 0 where
  pub width : ℕ
  pub height : ℕ
  pub fps : ℕ
  pub preference : CodecPreference
  pub reply : ℕ

-- The loop's variables. `decoder_codec` is the variable `codec` of the decoder thread, which
-- `DecodeWorker::reset` sets when it succeeds and leaves alone when it fails.
pub record Session : Type 0 where
  pub local_profiles : List StreamProfile
  pub peer_profiles : List StreamProfile
  pub common : List StreamProfile
  pub active : StreamProfile
  pub output : OutputDevice
  pub decoder_codec : VideoCodec
  pub request_counter : ℕ
  pub pending : Option Pending
  pub keyframe_request_in_flight : Bool

pub record World : Type 0 where
  pub v4l2 : V4l2
  pub reset_works : Bool
  pub send_works : Bool
  pub takes_frame : Bool
  pub now : ℕ

pub data Effect : Type 0 where
  sends : Message → Effect
  publishes : List StreamProfile → StreamProfile → Option NativeOutputFormat → Effect
  replies : ℕ → Result SessionError StreamProfile → Effect
  decodes : VideoFrame → Effect
  displays : List ℕ → Effect

pub data StreamExit : Type 0 where
  peer_disconnected shutdown_requested : StreamExit

-- Whether the loop goes on, `return Ok(exit)`, or `return Err(error)`.
pub data Flow : Type 0 where
  goes_on : Flow
  exits : StreamExit → Flow
  fails : SessionError → Flow

pub record Turn : Type 0 where
  pub session : Session
  pub effects : List Effect
  pub flow : Flow

abbrev pub turn : Session → List Effect → Flow → Turn
turn s effects flow = record { session = s; effects = effects; flow = flow }

-- `continue`
abbrev pub stay : Session → Turn
stay s = turn s [] goes_on

-- `status_tx.send(PipelineStatus::connected(..))`
abbrev pub published : Session → Effect
published s = publishes s.common s.active (output_format s.output)

-- `if let Some(reply) = reply { let _ = reply.send(..); }`
abbrev pub reply_to : Option ℕ → Result SessionError StreamProfile → List Effect
reply_to none answer = []
reply_to (some channel) answer = replies channel answer ∷ []

-- The next identifier, `send_configuration(..).await?`, and the new `pending`.
unfoldable pub request_configuration : World → StreamProfile → PendingKind → Session → Turn
request_configuration w profile kind s =
    let id = next_request_id s.request_counter in
    let asked : Pending = record {
      request_id = id;
      requested = profile;
      deadline = w.now + configuration_timeout;
      kind = kind;
    } in
    if w.send_works
    then turn (record s { request_counter = id; pending = some asked })
        (sends (Message.camera_control (configure_stream id profile)) ∷ []) goes_on
    else turn (record s { request_counter = id; pending = none }) [] (fails configuration_not_sent)

-- `DecodeWorker::reset`, as the loop sees it.
unfoldable pub reset_decoder :
    World → VideoCodec → Session → Session × Result SessionError (Unit {0})
reset_decoder w codec s =
    if w.reset_works
    then (record s { decoder_codec = codec }, ok tt)
    else (s, err decoder_reset_failed)

-- `output.commit(&applied)`, and `decoder.reset(applied.codec)` if it succeeds.
unfoldable pub apply_profile :
    World → StreamProfile → Session → Session × Result SessionError (Unit {0})
unfolding reset_decoder
apply_profile w p s =
    let committed = commit w.v4l2 s.output p in
    elim (committed.1) [
      | err e ↦ (record s { output = committed.0 }, err (output_error e))
      | ok _ ↦ reset_decoder w p.codec (record s { output = committed.0 })
    ]

-- The session that the loop starts with, once `active` is known to be common.
abbrev pub session_of :
    OutputDevice → List StreamProfile → List StreamProfile → StreamProfile → Session
session_of d local peer active = record {
  local_profiles = local;
  peer_profiles = peer;
  common = common_profiles local peer;
  active = active;
  output = d;
  decoder_codec = h264;
  request_counter = 0;
  pending = none;
  keyframe_request_in_flight = false;
}

-- From `stream_connection`'s first line to its loop, with what it published. `decoder` tells
-- whether `DecodeWorker::new` works.
unfoldable pub start :
    World
    → Bool
    → Handshake
    → OutputDevice
    → List StreamProfile
    → Result SessionError (Session × List Effect)
unfolding reset_decoder
start w decoder h d local = do
  active ← ok_or h.active_profile active_profile_omitted
  let common = common_profiles local h.supported_profiles
  ensure (contains common active) active_profile_not_common
  let committed = commit w.v4l2 d active
  map_err output_error (committed.1)
  ensure decoder decoder_unavailable
  let s = reset_decoder w active.codec (session_of (committed.0) local h.supported_profiles active)
  s.1
  ok (s.0, published (s.0) ∷ [])
