-- ===== src/Protocol/Message.antt =====
-- The messages and their type bytes (rust/phonecam-protocol/src/messages.rs and lib.rs). The
-- payload encoding is bincode's, a third-party crate: a parameter, `Bincode`.
pub mod Laws
use phone_cam.Prelude.{
  ℕ, Bool, Option, List, String, Result, ok, err, ◌>>=◌, ◌==◌, nat_eq, if◌then◌else◌, length,
}
use phone_cam.Protocol.Profile.{StreamProfile}
use phone_cam.Protocol.Handshake.{Handshake, CapabilitiesUpdate, VideoFrame}

pub data AudioCodec : Type 0 where
  opus aac pcm16 : AudioCodec

pub record AudioFrame : Type 0 where
  pub codec : AudioCodec
  pub sample_rate : ℕ
  pub channels : ℕ
  pub bytes : List ℕ  -- the field `data`

pub data CameraControl : Type 0 where
  switch_camera : Bool → CameraControl
  request_keyframe : CameraControl
  configure_stream : ℕ → StreamProfile → CameraControl

pub data StreamConfigurationOutcome : Type 0 where
  applied : StreamProfile → StreamConfigurationOutcome
  unsupported_profile : StreamConfigurationOutcome
  capture_configuration_failed : StreamConfigurationOutcome
  encoder_initialization_failed : StreamConfigurationOutcome

pub record StreamConfigurationResult : Type 0 where
  pub request_id : ℕ
  pub result : StreamConfigurationOutcome

pub record StatusUpdate : Type 0 where
  pub status : String

pub record Disconnect : Type 0 where
  pub reason : Option String

pub data Message : Type 0 where
  handshake : Handshake → Message
  video_frame : VideoFrame → Message
  audio_frame : AudioFrame → Message
  camera_control : CameraControl → Message
  status_update : StatusUpdate → Message
  disconnect : Disconnect → Message
  stream_configuration_result : StreamConfigurationResult → Message
  video_capabilities_update : CapabilitiesUpdate → Message

pub data MessageType : Type 0 where
  handshake video_frame audio_frame camera_control status_update disconnect : MessageType
  stream_configuration_result video_capabilities_update : MessageType

-- `Message::message_type`
unfoldable pub message_type : Message → MessageType
message_type (Message.handshake _) = MessageType.handshake
message_type (Message.video_frame _) = MessageType.video_frame
message_type (Message.audio_frame _) = MessageType.audio_frame
message_type (Message.camera_control _) = MessageType.camera_control
message_type (Message.status_update _) = MessageType.status_update
message_type (Message.disconnect _) = MessageType.disconnect
message_type (Message.stream_configuration_result _) = MessageType.stream_configuration_result
message_type (Message.video_capabilities_update _) = MessageType.video_capabilities_update

-- `as u8`
unfoldable pub type_byte : MessageType → ℕ
type_byte MessageType.handshake = 1
type_byte MessageType.video_frame = 2
type_byte MessageType.audio_frame = 3
type_byte MessageType.camera_control = 4
type_byte MessageType.status_update = 5
type_byte MessageType.disconnect = 6
type_byte MessageType.stream_configuration_result = 7
type_byte MessageType.video_capabilities_update = 8

-- What one type's `Serialize` and `DeserializeOwned` give through bincode's standard configuration:
-- `encode_to_vec`, and `decode_from_slice` with the number of bytes that it read. `E` and `D` are
-- bincode's errors.
pub record Serde (E D : Type 0) (T : Type 0) : Type 0 where
  pub encode_to_vec : T → Result E (List ℕ)
  pub decode_from_slice : List ℕ → Result D (T × ℕ)

pub record Bincode : Type 1 where
  pub EncodeError : Type 0
  pub DecodeError : Type 0
  pub handshakes : Serde EncodeError DecodeError Handshake
  pub video_frames : Serde EncodeError DecodeError VideoFrame
  pub audio_frames : Serde EncodeError DecodeError AudioFrame
  pub camera_controls : Serde EncodeError DecodeError CameraControl
  pub status_updates : Serde EncodeError DecodeError StatusUpdate
  pub disconnects : Serde EncodeError DecodeError Disconnect
  pub results : Serde EncodeError DecodeError StreamConfigurationResult
  pub updates : Serde EncodeError DecodeError CapabilitiesUpdate

pub data MessageCodecError (B : Bincode) : Type 0 where
  encode : B.EncodeError → MessageCodecError B
  decode : B.DecodeError → MessageCodecError B
  unknown_message_type : ℕ → MessageCodecError B
  trailing_bytes : ℕ → ℕ → MessageCodecError B

-- `MessageType::try_from`
unfoldable pub type_try_from : (B : Bincode) → ℕ → Result (MessageCodecError B) MessageType
unfolding type_byte
type_try_from B x =
    if x == type_byte MessageType.handshake
    then ok MessageType.handshake
    else if x == type_byte MessageType.video_frame
    then ok MessageType.video_frame
    else if x == type_byte MessageType.audio_frame
    then ok MessageType.audio_frame
    else if x == type_byte MessageType.camera_control
    then ok MessageType.camera_control
    else if x == type_byte MessageType.status_update
    then ok MessageType.status_update
    else if x == type_byte MessageType.disconnect
    then ok MessageType.disconnect
    else if x == type_byte MessageType.stream_configuration_result
    then ok MessageType.stream_configuration_result
    else if x == type_byte MessageType.video_capabilities_update
    then ok MessageType.video_capabilities_update
    else err (unknown_message_type x)

module _ (B : Bincode) where
  open B use {EncodeError, DecodeError}

  -- The generic `encode_payload`.
  unfoldable pub encode_value :
      {T : Type 0} → Serde EncodeError DecodeError T → T → Result (MessageCodecError B) (List ℕ)
  encode_value s v = elim (s.encode_to_vec v) [ ok bytes ↦ ok bytes | err e ↦ err (encode e) ]

  -- The last test of the generic `decode_payload`.
  unfoldable pub finish_decoding :
      {T : Type 0} → List ℕ → Result DecodeError (T × ℕ) → Result (MessageCodecError B) T
  finish_decoding payload (err e) = err (decode e)
  finish_decoding payload (ok (decoded, bytes_read)) =
      if bytes_read == length payload
      then ok decoded
      else err (trailing_bytes bytes_read (length payload))

  -- The generic `decode_payload`.
  unfoldable pub decode_value :
      {T : Type 0} → Serde EncodeError DecodeError T → List ℕ → Result (MessageCodecError B) T
  unfolding finish_decoding
  decode_value s payload = finish_decoding payload (s.decode_from_slice payload)

  -- `Message::encode_payload`
  unfoldable pub encode_payload : Message → Result (MessageCodecError B) (List ℕ)
  unfolding encode_value
  encode_payload (Message.handshake m) = encode_value B.handshakes m
  encode_payload (Message.video_frame m) = encode_value B.video_frames m
  encode_payload (Message.audio_frame m) = encode_value B.audio_frames m
  encode_payload (Message.camera_control m) = encode_value B.camera_controls m
  encode_payload (Message.status_update m) = encode_value B.status_updates m
  encode_payload (Message.disconnect m) = encode_value B.disconnects m
  encode_payload (Message.stream_configuration_result m) = encode_value B.results m
  encode_payload (Message.video_capabilities_update m) = encode_value B.updates m

  -- `Message::decode_payload`
  unfoldable pub decode_payload : MessageType → List ℕ → Result (MessageCodecError B) Message
  unfolding decode_value
  decode_payload MessageType.handshake bytes = do
    m ← decode_value B.handshakes bytes
    ok (Message.handshake m)
  decode_payload MessageType.video_frame bytes = do
    m ← decode_value B.video_frames bytes
    ok (Message.video_frame m)
  decode_payload MessageType.audio_frame bytes = do
    m ← decode_value B.audio_frames bytes
    ok (Message.audio_frame m)
  decode_payload MessageType.camera_control bytes = do
    m ← decode_value B.camera_controls bytes
    ok (Message.camera_control m)
  decode_payload MessageType.status_update bytes = do
    m ← decode_value B.status_updates bytes
    ok (Message.status_update m)
  decode_payload MessageType.disconnect bytes = do
    m ← decode_value B.disconnects bytes
    ok (Message.disconnect m)
  decode_payload MessageType.stream_configuration_result bytes = do
    m ← decode_value B.results bytes
    ok (Message.stream_configuration_result m)
  decode_payload MessageType.video_capabilities_update bytes = do
    m ← decode_value B.updates bytes
    ok (Message.video_capabilities_update m)
