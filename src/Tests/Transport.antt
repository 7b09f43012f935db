-- ===== src/Tests/Transport.antt =====
-- Connections and their tasks at concrete inputs.
use phone_cam.Prelude.{
  ℕ, ◌≡◌, ◌≢◌, ◌↔◌, refl, Bool, true, false, Option, some, none, List, [], ◌∷◌, ◌++◌, Result, ok,
  err, arith, All, contains,
}
use phone_cam.Protocol.Profile.{validate, validate_each, validate_profiles}
use phone_cam.Protocol.Handshake.{validate_active, validate_handshake}
use phone_cam.Protocol.Handshake.Laws.{IsHandshake, validate_handshake-ok_iff}
use phone_cam.Protocol.Message.{Message, switch_camera, request_keyframe}
use phone_cam.Protocol.Frame.{encode_frame, decode_frame}
use phone_cam.Transport.Wire.{write_message}
use phone_cam.Transport.Loops.{
  WriterEvent, received, ticked, Exit, failed, running, Round, is_handshake, writer_loop,
  reader_loop,
}
use phone_cam.Transport.Loops.Laws.{
  IsInbound, reader_loop-IsInbound, outgoing, visible, prompt, prompt_rounds,
  reader_loop-writer_loop,
}
use phone_cam.Transport.Connect.{Network, Connection, build_connection}
use phone_cam.Transport.Connect.Laws.{
  IsAgreed, build_connection-IsAgreed, Speaks, build_connection_complete,
}
use phone_cam.Tests.Toy.{phone, toy, toy-IsLawful}

abbrev switch : Message
switch = Message.camera_control (switch_camera true)

switch_encoded : encode_frame toy switch ≡ ok (0 ∷ 0 ∷ 0 ∷ 2 ∷ 4 ∷ 1 ∷ [])
unfolding encode_frame phone_cam.Protocol.Frame.check_video
    phone_cam.Protocol.Message.encode_payload phone_cam.Prelude.to_be_bytes
    phone_cam.Protocol.Message.type_byte phone_cam.Protocol.Message.message_type
switch_encoded = refl

reader_loop-IsInbound_example :
    All IsInbound (reader_loop toy (prompt toy ∷ []) (0 ∷ 0 ∷ 0 ∷ 2 ∷ 4 ∷ 1 ∷ [])).1
reader_loop-IsInbound_example =
    reader_loop-IsInbound toy (prompt toy ∷ []) (0 ∷ 0 ∷ 0 ∷ 2 ∷ 4 ∷ 1 ∷ [])

-- A message, a keepalive, and another message.
abbrev events : List (WriterEvent × Bool)
events =
    (received switch, true)
    ∷ (ticked, true)
    ∷ (received (Message.camera_control request_keyframe), true)
    ∷ []

still_running : (writer_loop toy events []).0 ≡ running
unfolding encode_frame writer_loop write_message phone_cam.Transport.Loops.after_write
    phone_cam.Protocol.Frame.check_video phone_cam.Protocol.Message.encode_payload
    phone_cam.Prelude.to_be_bytes phone_cam.Protocol.Message.type_byte
    phone_cam.Protocol.Message.message_type
still_running = refl

none_is_handshake : All (λ m. is_handshake m ≡ false) (outgoing toy events)
unfolding is_handshake
none_is_handshake = (refl, (refl, (refl, tt)))

reader_loop-writer_loop_example :
    reader_loop toy (prompt_rounds toy (outgoing toy events)) (writer_loop toy events []).1
    ≡ (running, visible toy (outgoing toy events))
reader_loop-writer_loop_example =
    reader_loop-writer_loop toy toy-IsLawful events (λ x h. let r = still_running in absurd (cc))
      none_is_handshake

abbrev net : Network
net = record {
  resolved = true;
  established = true;
  incoming = 0 ∷ 0 ∷ 0 ∷ 2 ∷ 1 ∷ 7 ∷ [];
  works = true;
  elapsed = false;
}

hello_encoded : encode_frame toy (Message.handshake phone) ≡ ok net.incoming
unfolding encode_frame phone_cam.Protocol.Frame.check_video
    phone_cam.Protocol.Message.encode_payload phone_cam.Prelude.to_be_bytes
    phone_cam.Protocol.Message.type_byte phone_cam.Protocol.Message.message_type
hello_encoded = refl

phone-IsHandshake : IsHandshake phone
unfolding validate_handshake validate_profiles validate_each validate validate_active contains
phone-IsHandshake = (validate_handshake-ok_iff phone).0 refl

phone_agrees : IsAgreed phone phone
phone_agrees = record {
  local_valid = phone-IsHandshake;
  peer_valid = phone-IsHandshake;
  local_active = phone-IsHandshake.active;
  peer_active = phone-IsHandshake.active;
}

phone_speaks : Speaks toy phone net.incoming
phone_speaks = record { hello = net.incoming; rest = []; encoded = hello_encoded; first = refl }

abbrev opened : Connection
opened = record { peer_handshake = phone; incoming = []; sent = net.incoming }

build_connection_complete_example : build_connection toy net phone ≡ ok opened
unfolding phone_speaks
build_connection_complete_example =
    build_connection_complete toy toy-IsLawful net phone phone net.incoming phone_agrees refl refl
      hello_encoded phone_speaks

build_connection-IsAgreed_example : IsAgreed phone phone
build_connection-IsAgreed_example =
    build_connection-IsAgreed toy net phone opened build_connection_complete_example
