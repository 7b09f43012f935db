-- ===== src/Decoder/Worker.antt =====
-- The decoder thread (rust/phonecam-desktop/src-tauri/src/decode.rs): `DecodeWorker`,
-- `decoder_thread` and `apply_control`.
use phone_cam.Prelude.{
  ℕ, Bool, true, false, ◌&&◌, ◌||◌, not, Option, none, some, List, [], ◌∷◌, ◌++◌, map, leb, ltb,
  length, take, ◌==◌, if◌then◌else◌,
}
use phone_cam.Protocol.Profile.{VideoCodec, h264, hevc, codec_eq}
use phone_cam.Protocol.Handshake.{VideoFrame}
use phone_cam.Video.Planes.{Nv12Frame}
use phone_cam.Decoder.Backends.{
  Codecs, Attempt, done, failed, panicked, decode_h264, HevcBackend, new_backend, decode_hevc,
}

abbrev pub frame_queue_capacity : ℕ
frame_queue_capacity = 2

-- The text of an error is only logged.
pub data DecodeEvent : Type 0 where
  frame : Nv12Frame → DecodeEvent
  recovery_required : DecodeEvent
  error : DecodeEvent

module _ (C : Codecs) where
  open C use {H264Decoder}

  -- The variables of `decoder_thread`, and the frames that wait in its bounded channel.
  pub record Worker : Type 0 where
    pub h264_decoder : H264Decoder
    pub hevc_backend : HevcBackend C
    pub codec : VideoCodec
    pub waiting_for_idr : Bool
    pub frames : List VideoFrame

  -- The thread's start, with what `OpenH264Decoder::new` gave.
  abbrev pub started : H264Decoder → Worker
  started d = record {
    h264_decoder = d;
    hevc_backend = new_backend C;
    codec = h264;
    waiting_for_idr = true;
    frames = [];
  }

  -- What happens to the thread: a control, a frame put into its channel by `try_send`, or its own
  -- `recv` of a frame. `created` is what `OpenH264Decoder::new` gives if it is called, and `room` the
  -- number of events that the receiver takes before it closes.
  pub data Happening : Type 0 where
    reset : VideoCodec → (created : Option H264Decoder) → Happening
    shutdown : Happening
    submits : VideoFrame → Happening
    receives : (created : Option H264Decoder) → (room : ℕ) → Happening

  -- The worker, the events that were sent, whether the thread still runs, and whether the caller got
  -- `Ok`.
  pub record Outcome : Type 0 where
    pub worker : Worker
    pub events : List DecodeEvent
    pub alive : Bool
    pub accepted : Bool

  abbrev pub outcome : Worker → List DecodeEvent → Bool → Bool → Outcome
  outcome w events alive accepted = record {
    worker = w;
    events = events;
    alive = alive;
    accepted = accepted;
  }

  -- The codec's backend is made anew; `none` where openh264's is not to be had.
  unfoldable pub renew : Option H264Decoder → VideoCodec → Worker → Option Worker
  renew (some d) h264 w = some (record w { h264_decoder = d })
  renew none h264 w = none
  renew created hevc w = some (record w { hevc_backend = new_backend C })

  -- `apply_control` on a reset: the waiting frames go in any case.
  unfoldable pub apply_reset : Option H264Decoder → VideoCodec → Worker → Outcome
  unfolding renew
  apply_reset created next_codec w =
      let drained : Worker = record w { frames = [] } in
      elim (renew created next_codec drained) [
        | none ↦ outcome drained [] true false
        | some v ↦ outcome (record v { codec = next_codec; waiting_for_idr = true }) [] true true
      ]

  -- `blocking_send` of one event after another, until the receiver is closed.
  abbrev pub send_all : ℕ → Worker → List DecodeEvent → Outcome
  send_all room w events = outcome w (take room events) (leb (length events) room) true

  -- An error or a panic: the next frame must be a key frame, and the backend is made anew.
  unfoldable pub recover : Option H264Decoder → ℕ → List DecodeEvent → Worker → Outcome
  unfolding renew
  recover created room events w =
      elim (renew created w.codec (record w { waiting_for_idr = true })) [
        | none ↦ outcome w [] false true
        | some v ↦ send_all room v events
      ]

  -- `match codec { .. decode(&frame) }`, with the backend as it is then.
  unfoldable pub decode_frame : VideoCodec → VideoFrame → Worker → Worker × Attempt
  decode_frame h264 f w =
      let r = decode_h264 C w.h264_decoder f in (record w { h264_decoder = r.0 }, r.1)
  decode_frame hevc f w =
      let r = decode_hevc C w.hevc_backend f in (record w { hevc_backend = r.0 }, r.1)

  unfoldable pub after_decode : Option H264Decoder → ℕ → Bool → Worker × Attempt → Outcome
  unfolding recover
  after_decode created room is_keyframe (w, done pictures) =
      send_all room
        (record w { waiting_for_idr = if is_keyframe then false else w.waiting_for_idr })
        (map frame pictures)
  after_decode created room is_keyframe (w, failed e) =
      recover created room (error ∷ recovery_required ∷ []) w
  after_decode created room is_keyframe (w, panicked) = recover created room (error ∷ []) w

  -- The frame is of another codec, or a key frame must come first.
  abbrev pub is_skipped : VideoFrame → Worker → Bool
  is_skipped f w = not (f.codec == w.codec) || (w.waiting_for_idr && not f.is_keyframe)

  unfoldable pub receive : Option H264Decoder → ℕ → List VideoFrame → Worker → Outcome
  unfolding decode_frame after_decode
  receive created room [] w = outcome w [] true true
  receive created room (f ∷ fs) w =
      let v : Worker = record w { frames = fs } in
      if is_skipped f w
      then send_all room v (recovery_required ∷ [])
      else after_decode created room f.is_keyframe (decode_frame w.codec f v)

  -- `DecodeWorker::try_send` on the bounded channel.
  unfoldable pub try_send : VideoFrame → Worker → Outcome
  try_send f w =
      if ltb (length w.frames) frame_queue_capacity
      then outcome (record w { frames = w.frames ++ f ∷ [] }) [] true true
      else outcome w [] true false

  unfoldable pub happen : Happening → Worker → Outcome
  unfolding apply_reset receive try_send
  happen (reset codec created) w = apply_reset created codec w
  happen shutdown w = outcome w [] false true
  happen (submits f) w = try_send f w
  happen (receives created room) w = receive created room w.frames w
