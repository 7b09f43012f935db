-- ===== src/Mobile/State.antt =====
-- The three global slots of rust/phonecam-mobile-core/src/lib.rs as one record. The mutexes are
-- never poisoned here, so every `lock()` succeeds.
use phone_cam.Prelude.{
  ℕ, Bool, false, Option, none, some, List, [], ◌∷◌, ◌++◌, ok, err, ltb, length, if◌then◌else◌,
  is_ok,
}
use phone_cam.Text.{Text}
use phone_cam.Protocol.Profile.{VideoCodec, StreamProfile, codec_try_from, validate}
use phone_cam.Protocol.Handshake.{Handshake}
use phone_cam.Protocol.Message.{Message}
use phone_cam.Transport.Connect.{ConnectionState}

pub record FrameMetadata : Type 0 where
  pub len : ℕ
  pub pts : ℕ
  pub codec : VideoCodec
  pub width : ℕ
  pub height : ℕ
  pub is_keyframe : Bool

pub record CoreConfig : Type 0 where
  pub endpoint_host : Text
  pub endpoint_port : ℕ
  pub streaming_enabled : Bool

-- A `TransportConnection` as its owner sees it: the messages that the writer has not taken yet,
-- those that the reader has brought, whether the other ends of the two channels still exist, and
-- the watched state.
pub record Link : Type 0 where
  pub outbound : List Message
  pub writer_alive : Bool
  pub inbound : List Message
  pub reader_alive : Bool
  pub state : ConnectionState
  pub peer_handshake : Handshake

pub record TransportClient : Type 0 where
  pub connection : Link
  pub supported_profiles : List StreamProfile
  pub active_profile : StreamProfile
  pub pending_configuration : Option (ℕ × StreamProfile)

pub record Core : Type 0 where
  pub config : CoreConfig
  pub client : Option TransportClient
  pub last_frame : Option FrameMetadata

-- "127.0.0.1"
abbrev pub default_host : Text
default_host = b'1' ∷ b'2' ∷ b'7' ∷ b'.' ∷ b'0' ∷ b'.' ∷ b'0' ∷ b'.' ∷ b'1' ∷ []

abbrev pub default_config : CoreConfig
default_config = record {
  endpoint_host = default_host;
  endpoint_port = 7878;
  streaming_enabled = false;
}

abbrev pub initial : Core
initial = record { config = default_config; client = none; last_frame = none }

-- `OUTBOUND_CHANNEL_CAPACITY` of the transport.
abbrev pub outbound_channel_capacity : ℕ
outbound_channel_capacity = 8

-- `try_enqueue`: `try_send` fails on a full or a closed channel.
unfoldable pub try_enqueue : Link → Message → Option Link
try_enqueue l m =
    if l.writer_alive
    then if ltb (length l.outbound) outbound_channel_capacity
      then some (record l { outbound = l.outbound ++ m ∷ [] })
      else none
    else none

-- A C string argument: a null pointer, bytes that are no UTF-8, or a text.
pub data CStr : Type 0 where
  null : CStr
  invalid_utf8 : CStr
  text : Text → CStr

-- `profile_from_ffi`
unfoldable pub profile_from_ffi : ℕ → ℕ → ℕ → ℕ → Option StreamProfile
profile_from_ffi codec width height fps = elim (codec_try_from codec) [
  | err e ↦ none
  | ok c ↦
      let profile : StreamProfile = record {
        codec = c;
        width = width;
        height = height;
        fps = fps;
      } in
      if is_ok (validate profile) then some profile else none
]
