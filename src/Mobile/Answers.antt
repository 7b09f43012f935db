-- ===== src/Mobile/Answers.antt =====
-- What a poll answers, by the messages that wait in the channel.
use phone_cam.Prelude.{
  ◌≡◌, refl, Bool, true, false, Option, none, some, List, [], ◌∷◌, ◌++◌, inl, inr, arith,
  if◌then◌else◌, nat_eq, option_eq, All, ◌∙◌, Result-cases, is_ok,
}
use phone_cam.Text.{Text}
use phone_cam.Protocol.Profile.{StreamProfile, validate}
use phone_cam.Protocol.Profile.Laws.{IsSupported, validate-ok, validate-ok_of}
use phone_cam.Protocol.Message.{
  Message, CameraControl, switch_camera, request_keyframe, configure_stream, Disconnect,
}
use phone_cam.Mobile.State.{TransportClient, Core}
use phone_cam.Mobile.Control.{
  react, ignore, answer, Polled, gone, empty, control, finish_poll, poll_inbound,
  poll_control_command_json, with_inbound, next_pending,
}

-- A message that the poll passes over: any but a control and a farewell, and of the controls only a
-- configuration of an unsupported profile.
abbrev pub IsPassed : Message → Type 0
IsPassed (Message.camera_control (configure_stream id p)) = ¬ IsSupported p
IsPassed (Message.camera_control k) = ⊥
IsPassed (Message.disconnect d) = ⊥
IsPassed m = Unit {0}

-- A control that the poll hands out: of the configurations only one of a supported profile.
abbrev pub IsAnswered : CameraControl → Type 0
IsAnswered (configure_stream id p) = IsSupported p
IsAnswered k = Unit {0}

unsupported_err : (p : StreamProfile) → ¬ IsSupported p → is_ok (validate p) ≡ false
unsupported_err p n = elim (Result-cases (validate p)) [
  | inl (x, h) ↦ absurd (n (validate-ok p h))
  | inr (e, h) ↦ rw h refl
]

passed-ignored : (m : Message) → IsPassed m → react m ≡ ignore
unfolding react
passed-ignored (Message.camera_control (configure_stream id p)) h = rw (unsupported_err p h) refl
passed-ignored (Message.camera_control (switch_camera front)) h = absurd h
passed-ignored (Message.camera_control request_keyframe) h = absurd h
passed-ignored (Message.disconnect d) h = absurd h
passed-ignored (Message.handshake x) h = refl
passed-ignored (Message.video_frame x) h = refl
passed-ignored (Message.audio_frame x) h = refl
passed-ignored (Message.status_update x) h = refl
passed-ignored (Message.stream_configuration_result x) h = refl
passed-ignored (Message.video_capabilities_update x) h = refl

answered : (k : CameraControl) → IsAnswered k → react (Message.camera_control k) ≡ answer k
unfolding react
answered (configure_stream id p) h = rw (validate-ok_of p h) refl
answered (switch_camera front) h = refl
answered request_keyframe h = refl

poll_inbound-skip :
    (alive : Bool) (skipped rest : List Message)
    → All IsPassed skipped
    → poll_inbound alive (skipped ++ rest) ≡ poll_inbound alive rest
unfolding poll_inbound
poll_inbound-skip alive [] rest h = refl
poll_inbound-skip alive (m ∷ skipped) rest h =
    rw (passed-ignored m h.0, poll_inbound) (poll_inbound-skip alive skipped rest h.1)

poll_inbound-end :
    (alive : Bool) (skipped : List Message)
    → All IsPassed skipped
    → poll_inbound alive skipped ≡ (if alive then empty else gone)
unfolding poll_inbound
poll_inbound-end alive [] h = refl
poll_inbound-end alive (m ∷ skipped) h =
    rw (passed-ignored m h.0, poll_inbound) (poll_inbound-end alive skipped h.1)

poll_inbound-control :
    (alive : Bool) (skipped rest : List Message) (k : CameraControl)
    → All IsPassed skipped
    → IsAnswered k
    → poll_inbound alive (skipped ++ Message.camera_control k ∷ rest) ≡ control k rest
unfolding poll_inbound
poll_inbound-control alive skipped rest k h a =
    poll_inbound-skip alive skipped (Message.camera_control k ∷ rest) h
    ∙ rw (poll_inbound, answered k a) refl

-- How the poll's loop ends decides what the poll does.
polled :
    (write : CameraControl → Option Text) (s : Core) (c : TransportClient) (x : Polled)
    → s.client ≡ some c
    → c.pending_configuration ≡ none
    → poll_inbound c.connection.reader_alive c.connection.inbound ≡ x
    → poll_control_command_json write s ≡ finish_poll write c s x
unfolding poll_control_command_json
polled write s c x e n h = ground arith

ended :
    (write : CameraControl → Option Text) (s : Core) (c : TransportClient) (alive : Bool)
    → finish_poll write c s (if alive then empty else gone)
      ≡ (record s { client = if alive then some (with_inbound c []) else none }, none)
unfolding finish_poll
ended write s c true = refl
ended write s c false = refl

-- With no request pending, let some first messages in the channel be such that the poll passes over
-- them: no controls and no farewells, or configurations with an unsupported profile. If a control
-- comes next that is no such configuration, the poll answers with it: it is taken with all before
-- it, what follows stays, and a configuration becomes the pending one. If a farewell comes next, the
-- client goes and there is no answer. If nothing comes next, there is no answer, the channel is
-- emptied, and the client goes if its reader has ended.
pub poll_answers :
    (write : CameraControl → Option Text) (s : Core) (c : TransportClient)
    (skipped rest : List Message)
    → s.client ≡ some c
    → c.pending_configuration ≡ none
    → All IsPassed skipped
    → ((k : CameraControl)
        → IsAnswered k
        → c.connection.inbound ≡ skipped ++ Message.camera_control k ∷ rest
        → poll_control_command_json write s ≡ (
          record s {
            client =
                some (record (with_inbound c rest) { pending_configuration = next_pending k none });
          },
          write k,
        ))
      × ((d : Disconnect)
          → c.connection.inbound ≡ skipped ++ Message.disconnect d ∷ rest
          → poll_control_command_json write s ≡ (record s { client = none }, none))
      × (c.connection.inbound ≡ skipped
          → poll_control_command_json write s ≡ (
            record s {
              client = if c.connection.reader_alive then some (with_inbound c []) else none;
            },
            none,
          ))
unfolding poll_inbound finish_poll react
poll_answers write s c skipped rest e n h =
    let alive = c.connection.reader_alive in
    (
      (λ k a q.
          let l = poll_inbound-control alive skipped rest k h a in
          polled write s c (control k rest) e n (rw q l) ∙ rw (finish_poll, n) refl),
      (λ d q.
          let l = poll_inbound-skip alive skipped (Message.disconnect d ∷ rest) h in
          polled write s c gone e n (rw q l)),
      (λ q.
          let l = poll_inbound-end alive skipped h in
          polled write s c (if alive then empty else gone) e n (rw q l) ∙ ended write s c alive),
    )
