-- ===== src/Pipeline/Step.antt =====
-- One turn of the loop of `stream_connection`, for the branch of its `select!` that is taken
-- (rust/phonecam-desktop/src-tauri/src/pipeline.rs).
use phone_cam.Prelude.{
  ℕ, ◌*◌, Bool, true, false, Option, none, some, [], ◌∷◌, Result, ok, err, leb, ltb, ◌==◌, nat_eq,
  is_ok, ◌^◌, if◌then◌else◌,
}
use phone_cam.Protocol.Profile.{StreamProfile, profile_eq}
use phone_cam.Protocol.Handshake.{VideoFrame, validate_against, CapabilitiesUpdate, validate_update}
use phone_cam.Protocol.Message.{Message, request_keyframe}
use phone_cam.Decoder.Worker.{DecodeEvent, frame, recovery_required, error}
use phone_cam.Output.Device.{preflight, write_frame}
use phone_cam.Pipeline.Profiles.{resolve_profile, common_profiles}
use phone_cam.Pipeline.Session.{
  SessionError, unsupported_common_profile, output_error, configuration_timed_out,
  command_channel_closed, decoder_stopped, keyframe_not_requested, compensation_timed_out,
  PendingKind, configure, compensation, Command, Session, World, sends, replies, decodes, displays,
  peer_disconnected, shutdown_requested, Turn, turn, stay, published, reply_to, goes_on, exits,
  fails, request_configuration,
}
use phone_cam.Pipeline.Results.{on_result}

-- What `select!` received. `state_changed b`: the connection is now disconnected, or its state
-- channel is closed, if `b`. `none` is a closed channel.
pub data Event : Type 0 where
  shutdown : Event
  state_changed : Bool → Event
  tick : Event
  command : Option Command → Event
  decoded : Option DecodeEvent → Event
  received : Option Message → Event

-- The tick of 100 ms, when the pending request's time is over.
unfoldable pub expire : PendingKind → Session → Turn
expire (configure prior reply) s = turn s (reply_to reply (err configuration_timed_out)) goes_on
expire (compensation prior e reply) s =
    turn s (reply_to reply (err e)) (fails (compensation_timed_out e))

unfoldable pub on_tick : World → Session → Turn
unfolding expire
on_tick w s = elim s.pending [
  | none ↦ stay s
  | some current ↦
      if leb current.deadline w.now
      then expire current.kind (record s { pending = none })
      else stay s
]

abbrev pub reply_now : ℕ → Result SessionError StreamProfile → Session → Turn
reply_now channel answer s = turn s (replies channel answer ∷ []) goes_on

-- The command once its profile is resolved.
unfoldable pub on_resolved : World → ℕ → StreamProfile → Session → Turn
on_resolved w channel requested s = elim (preflight w.v4l2 requested) [
  | err e ↦ reply_now channel (err (output_error e)) s
  | ok _ ↦
      if requested == s.active
      then reply_now channel (ok s.active) s
      else request_configuration w requested (configure s.active (some channel)) s
]

unfoldable pub on_command : World → Command → Session → Turn
unfolding on_resolved
on_command w c s = elim (resolve_profile s.common c.width c.height c.fps c.preference) [
  | none ↦ reply_now c.reply (err unsupported_common_profile) s
  | some requested ↦ on_resolved w c.reply requested s
]

-- A recovery key frame is requested unless a request is in flight.
unfoldable pub ask_keyframe : World → Session → Turn
ask_keyframe w s =
    if s.keyframe_request_in_flight
    then stay s
    else if w.send_works
    then turn (record s { keyframe_request_in_flight = true })
        (sends (Message.camera_control request_keyframe) ∷ []) goes_on
    else turn s [] (fails keyframe_not_requested)

-- `saturating_mul(1_000)` on a `u64`
abbrev pub presentation_ns : ℕ → ℕ
presentation_ns pts = if ltb (pts * 1000) (2 ^ 64) then pts * 1000 else 18446744073709551615

unfoldable pub on_decoder_event : World → DecodeEvent → Session → Turn
unfolding ask_keyframe
on_decoder_event w (frame f) s = elim (write_frame w.v4l2 s.output f (presentation_ns f.pts_us)) [
  | ok bytes ↦ turn s (displays bytes ∷ []) goes_on
  | err e ↦ turn s [] (fails (output_error e))
]
on_decoder_event w recovery_required s = ask_keyframe w s
on_decoder_event w error s = stay s

-- `decoder.try_send(frame)`, and a request for a key frame when a key frame found the queue full.
unfoldable pub submit : World → VideoFrame → Session → Turn
unfolding ask_keyframe
submit w f s =
    if w.takes_frame
    then turn s (decodes f ∷ []) goes_on
    else if f.is_keyframe
    then ask_keyframe w s
    else stay s

unfoldable pub on_video_frame : World → VideoFrame → Session → Turn
unfolding submit
on_video_frame w f s =
    if is_ok (validate_against f s.active)
    then submit w f (if f.is_keyframe then record s { keyframe_request_in_flight = false } else s)
    else stay s

unfoldable pub on_update : CapabilitiesUpdate → Session → Turn
on_update u s =
    let next : Session = record s {
      peer_profiles = u.supported_profiles;
      common = common_profiles s.local_profiles u.supported_profiles;
    } in
    if is_ok (validate_update u s.active) then turn next (published next ∷ []) goes_on else stay s

unfoldable pub on_message : World → Message → Session → Turn
unfolding on_video_frame on_update on_result
on_message w (Message.video_frame f) s = on_video_frame w f s
on_message w (Message.video_capabilities_update u) s = on_update u s
on_message w (Message.stream_configuration_result r) s = on_result w r s
on_message w (Message.disconnect _) s = turn s [] (exits peer_disconnected)
on_message w (Message.handshake _) s = stay s
on_message w (Message.audio_frame _) s = stay s
on_message w (Message.camera_control _) s = stay s
on_message w (Message.status_update _) s = stay s

-- The branch `command_rx.recv()` has the guard `pending.is_none()`.
unfoldable pub is_enabled : Event → Session → Bool
is_enabled (command _) s = elim s.pending [ none ↦ true | some _ ↦ false ]
is_enabled _ s = true

unfoldable pub step : World → Event → Session → Turn
unfolding on_tick on_command on_decoder_event on_message
step w shutdown s = turn s [] (exits shutdown_requested)
step w (state_changed disconnected) s =
    if disconnected then turn s [] (exits peer_disconnected) else stay s
step w tick s = on_tick w s
step w (command none) s = turn s [] (fails command_channel_closed)
step w (command (some c)) s = on_command w c s
step w (decoded none) s = turn s [] (fails decoder_stopped)
step w (decoded (some e)) s = on_decoder_event w e s
step w (received none) s = turn s [] (exits peer_disconnected)
step w (received (some m)) s = on_message w m s
