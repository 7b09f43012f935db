-- ===== src/Mobile/Stream.antt =====
-- The calls that put a message for the desktop into the outbound channel: frames, capability
-- updates and configuration results (rust/phonecam-mobile-core/src/lib.rs). `serde_json`'s reading
-- of a profile list is a parameter.
use phone_cam.Prelude.{
  ℕ, Bool, true, false, ◌||◌, ◌&&◌, not, Option, none, some, List, ok, err, ◌==◌, nat_eq, option_eq,
  is_ok, length, if◌then◌else◌, contains,
}
use phone_cam.Text.{Text}
use phone_cam.Protocol.Profile.{VideoCodec, StreamProfile, profile_eq, codec_try_from}
use phone_cam.Protocol.Handshake.{VideoFrame, validate_against, CapabilitiesUpdate, validate_update}
use phone_cam.Protocol.Message.{
  Message, StreamConfigurationOutcome, applied, unsupported_profile, capture_configuration_failed,
  encoder_initialization_failed,
}
use phone_cam.Mobile.State.{
  FrameMetadata, TransportClient, Core, try_enqueue, CStr, text, profile_from_ffi,
}

-- The arguments of `phonecam_send_video_frame`; `bytes` is `none` for a null pointer, and its
-- length is `len`.
pub record FrameCall : Type 0 where
  pub bytes : Option (List ℕ)
  pub pts : ℕ
  pub codec : ℕ
  pub width : ℕ
  pub height : ℕ
  pub is_keyframe : Bool

abbrev pub frame_of : FrameCall → List ℕ → VideoCodec → VideoFrame
frame_of f payload codec = record {
  bytes = payload;
  pts_us = f.pts;
  codec = codec;
  width = f.width;
  height = f.height;
  is_keyframe = f.is_keyframe;
}

abbrev pub metadata_of : FrameCall → List ℕ → VideoCodec → FrameMetadata
metadata_of f payload codec = record {
  len = length payload;
  pts = f.pts;
  codec = codec;
  width = f.width;
  height = f.height;
  is_keyframe = f.is_keyframe;
}

-- `phonecam_send_video_frame` with a client, from the test against the active profile on.
unfoldable pub send_frame : FrameCall → List ℕ → VideoCodec → TransportClient → Core → Core × Bool
send_frame f payload codec c s =
    if is_ok (validate_against (frame_of f payload codec) c.active_profile)
    then elim (try_enqueue c.connection (Message.video_frame (frame_of f payload codec))) [
      | none ↦ (s, false)
      | some link ↦ (
        record s {
          client = some (record c { connection = link });
          last_frame = some (metadata_of f payload codec);
        },
        true,
      )
    ]
    else (s, false)

-- `phonecam_send_video_frame`
unfoldable pub send_video_frame : FrameCall → Core → Core × Bool
unfolding send_frame
send_video_frame f s = elim f.bytes [
  | none ↦ (s, false)
  | some payload ↦ if length payload == 0 then (s, false) else elim (codec_try_from f.codec) [
    | err e ↦ (s, false)
    | ok codec ↦ elim s.client [ none ↦ (s, false) | some c ↦ send_frame f payload codec c s ]
  ]
]

-- `phonecam_update_video_capabilities` with a client and a list of profiles.
unfoldable pub update_client : List StreamProfile → TransportClient → Core → Core × Bool
update_client profiles c s =
    let update : CapabilitiesUpdate = record { supported_profiles = profiles } in
    if is_ok (validate_update update c.active_profile)
    then elim (try_enqueue c.connection (Message.video_capabilities_update update)) [
      | none ↦ (s, false)
      | some link ↦ (
        record s { client = some (record c { connection = link; supported_profiles = profiles }) },
        true,
      )
    ]
    else (s, false)

unfoldable pub update_with : Option (List StreamProfile) → Core → Core × Bool
unfolding update_client
update_with none s = (s, false)
update_with (some profiles) s = elim s.client [
  | none ↦ (s, false)
  | some c ↦ update_client profiles c s
]

-- `phonecam_update_video_capabilities`
unfoldable pub update_video_capabilities :
    (Text → Option (List StreamProfile)) → CStr → Core → Core × Bool
unfolding update_with
update_video_capabilities read_profiles (text json) s = update_with (read_profiles json) s
update_video_capabilities read_profiles _ s = (s, false)

-- The arguments of `phonecam_report_stream_configuration`.
pub record Report : Type 0 where
  pub request_id : ℕ
  pub result_code : ℕ
  pub codec : ℕ
  pub width : ℕ
  pub height : ℕ
  pub fps : ℕ

-- `pending.map(|(id, _)| id)`
abbrev pub pending_id : TransportClient → Option ℕ
pending_id c = elim c.pending_configuration [ none ↦ none | some p ↦ some p.0 ]

-- The profile that a report of code 0 applies, if it may.
unfoldable pub reported_profile : Report → TransportClient → Option StreamProfile
reported_profile r c = elim (profile_from_ffi r.codec r.width r.height r.fps) [
  | none ↦ none
  | some profile ↦
      if not (contains c.supported_profiles profile)
        || not (contains c.connection.peer_handshake.supported_profiles profile)
      then none
      else some profile
]

-- The outcome that a report stands for; `none` is an early `return false`.
unfoldable pub reported_outcome : Report → TransportClient → Option StreamConfigurationOutcome
unfolding reported_profile
reported_outcome r c =
    if r.result_code == 0
    then elim (reported_profile r c) [ none ↦ none | some profile ↦ some (applied profile) ]
    else if r.result_code == 1
    then some unsupported_profile
    else if r.result_code == 2
    then some capture_configuration_failed
    else if r.result_code == 3
    then some encoder_initialization_failed
    else none

-- `if let Some(profile) = applied_profile`
abbrev pub next_active : StreamConfigurationOutcome → StreamProfile → StreamProfile
next_active (applied profile) active = profile
next_active _ active = active

-- The client after its report was queued.
unfoldable pub report_client :
    Report → StreamConfigurationOutcome → TransportClient → Core → Core × Bool
report_client r outcome c s =
    elim (try_enqueue c.connection (
      Message.stream_configuration_result
        (record { request_id = r.request_id; result = outcome }))) [
          | none ↦ (s, false)
          | some link ↦ (
            record s {
              client = some (record c {
                connection = link;
                active_profile = next_active outcome c.active_profile;
                pending_configuration = if r.request_id == 0 then c.pending_configuration else none;
              });
            },
            true,
          )
        ]

-- `phonecam_report_stream_configuration`
unfoldable pub report_stream_configuration : Report → Core → Core × Bool
unfolding report_client
report_stream_configuration r s = elim s.client [
  | none ↦ (s, false)
  | some c ↦
      if not (r.request_id == 0) && not (pending_id c == some r.request_id)
      then (s, false)
      else elim (reported_outcome r c) [
        | none ↦ (s, false)
        | some outcome ↦ report_client r outcome c s
      ]
]
