-- ===== src/Protocol/Message/Laws.antt =====
-- The payloads of messages come back, given that bincode's values do.
use phone_cam.Prelude.{ℕ, ◌≡◌, refl, List, ok, arith, length}
use phone_cam.Protocol.Message.{
  Message, MessageType, message_type, type_byte, type_try_from, Serde, Bincode, encode_value,
  decode_value, encode_payload, decode_payload,
}

-- bincode's documented behaviour: what `encode_to_vec` wrote, `decode_from_slice` reads back, and
-- it has then read all of it.
abbrev pub RoundTrips : {E D T : Type 0} → Serde E D T → Type 0
RoundTrips {T} s =
    (v : T) (bytes : List ℕ)
    → s.encode_to_vec v ≡ ok bytes
    → s.decode_from_slice bytes ≡ ok (v, length bytes)

pub record IsLawful (B : Bincode) : Type 0 where
  pub handshakes : RoundTrips B.handshakes
  pub video_frames : RoundTrips B.video_frames
  pub audio_frames : RoundTrips B.audio_frames
  pub camera_controls : RoundTrips B.camera_controls
  pub status_updates : RoundTrips B.status_updates
  pub disconnects : RoundTrips B.disconnects
  pub results : RoundTrips B.results
  pub updates : RoundTrips B.updates

module _ (B : Bincode) where
  open B use {EncodeError, DecodeError}

  encode_value-ok :
      {T : Type 0} (s : Serde EncodeError DecodeError T) (v : T) (bytes : List ℕ)
      → encode_value B s v ≡ ok bytes
      → s.encode_to_vec v ≡ ok bytes
  unfolding encode_value
  encode_value-ok s v bytes h = ground arith

  decode_value-encode_value :
      {T : Type 0} (s : Serde EncodeError DecodeError T) (v : T) (bytes : List ℕ)
      → RoundTrips s
      → encode_value B s v ≡ ok bytes
      → decode_value B s bytes ≡ ok v
  unfolding decode_value
  decode_value-encode_value s v bytes r h =
      rw (r v bytes (encode_value-ok s v bytes h)) (ground arith)

  -- `decode_payload` reads back what `encode_payload` wrote.
  pub decode_payload-encode_payload :
      IsLawful B
      → (m : Message) (bytes : List ℕ) → encode_payload B m ≡ ok bytes
      → decode_payload B (message_type m) bytes ≡ ok m
  unfolding encode_payload decode_payload message_type
  decode_payload-encode_payload l (Message.handshake m) bytes h =
      rw (decode_value-encode_value B.handshakes m bytes l.handshakes h) refl
  decode_payload-encode_payload l (Message.video_frame m) bytes h =
      rw (decode_value-encode_value B.video_frames m bytes l.video_frames h) refl
  decode_payload-encode_payload l (Message.audio_frame m) bytes h =
      rw (decode_value-encode_value B.audio_frames m bytes l.audio_frames h) refl
  decode_payload-encode_payload l (Message.camera_control m) bytes h =
      rw (decode_value-encode_value B.camera_controls m bytes l.camera_controls h) refl
  decode_payload-encode_payload l (Message.status_update m) bytes h =
      rw (decode_value-encode_value B.status_updates m bytes l.status_updates h) refl
  decode_payload-encode_payload l (Message.disconnect m) bytes h =
      rw (decode_value-encode_value B.disconnects m bytes l.disconnects h) refl
  decode_payload-encode_payload l (Message.stream_configuration_result m) bytes h =
      rw (decode_value-encode_value B.results m bytes l.results h) refl
  decode_payload-encode_payload l (Message.video_capabilities_update m) bytes h =
      rw (decode_value-encode_value B.updates m bytes l.updates h) refl

  pub type_try_from-type_byte : (t : MessageType) → type_try_from B (type_byte t) ≡ ok t
  unfolding type_try_from
  type_try_from-type_byte t = ground arith

  pub type_try_from-ok : (x : ℕ) (t : MessageType) → type_try_from B x ≡ ok t → x ≡ type_byte t
  unfolding type_try_from
  type_try_from-ok x t h = ground arith
