-- ===== src/Transport/Wire.antt =====
-- Single messages on a socket: `write_message` and `read_message` of
-- rust/phonecam-transport/src/client.rs. What a peer sent up to the end of the stream is a list of
-- bytes, and so is what has been written; whether a write works is the environment's choice.
pub mod Laws
use phone_cam.Prelude.{
  ℕ, ◌+◌, Bool, List, [], ◌∷◌, ◌++◌, String, Result, ok, err, ensure, map_err, ◌>>=◌, ◌>>◌, leb,
  length, take, drop, if◌then◌else◌, be_value,
}
use phone_cam.Protocol.Profile.{StreamProfile, ProfileValidationError}
use phone_cam.Protocol.Message.{Bincode, Message}
use phone_cam.Protocol.Frame.{FrameError, max_frame_bytes, encode_frame, decode_frame}

-- The `io::Error`s that the transport tells apart: `read_exact` met the end of the stream, an
-- address resolved to nothing, or the operating system reported a failure.
pub data IoError : Type 0 where
  unexpected_eof no_address os_failure : IoError

pub data TransportError (B : Bincode) : Type 0 where
  io : IoError → TransportError B
  frame : FrameError B → TransportError B
  keepalive_timeout : ℕ → TransportError B
  frame_too_large : ℕ → TransportError B
  sender_closed : TransportError B
  invalid_handshake : ProfileValidationError → TransportError B
  handshake_timeout : ℕ → TransportError B
  expected_handshake : TransportError B
  active_profile_not_common : StreamProfile → TransportError B
  unexpected_handshake : TransportError B

module _ (B : Bincode) where
  -- `AsyncReadExt::read_exact`, with what stays in the stream.
  unfoldable pub read_exact : ℕ → List ℕ → Result (TransportError B) (List ℕ × List ℕ)
  read_exact n incoming =
      if leb n (length incoming)
      then ok (take n incoming, drop n incoming)
      else err (io unexpected_eof)

  -- `read_message` once the four length bytes are there.
  unfoldable pub read_body : ℕ → ℕ → ℕ → ℕ → List ℕ → Result (TransportError B) (Message × List ℕ)
  read_body a b c d incoming = do
    let payload_len = be_value a b c d
    ensure (leb payload_len max_frame_bytes) (frame_too_large payload_len)
    body ← read_exact payload_len incoming
    message ← map_err frame (decode_frame B (a ∷ b ∷ c ∷ d ∷ body.0))
    ok (message, body.1)

  unfoldable pub read_message : List ℕ → Result (TransportError B) (Message × List ℕ)
  unfolding read_body
  read_message (a ∷ b ∷ c ∷ d ∷ incoming) = read_body a b c d incoming
  read_message _ = err (io unexpected_eof)

  -- The result is all that has been written. After an error nothing more is written.
  unfoldable pub write_message : Bool → Message → List ℕ → Result (TransportError B) (List ℕ)
  write_message works message sent = do
    encoded ← map_err frame (encode_frame B message)
    ensure works (io os_failure)
    ok (sent ++ encoded)
