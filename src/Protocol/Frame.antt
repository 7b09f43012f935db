-- ===== src/Protocol/Frame.antt =====
-- Length-prefixed frames (rust/phonecam-protocol/src/framing.rs). `usize` has 64 bits; the length
-- of a slice is a number, and what the code computes from it is checked or bounded as written.
pub mod Laws
use phone_cam.Prelude.{
  ℕ, ◌+◌, ◌-◌, ◌*◌, ◌^◌, Bool, Option, none, some, List, [], ◌∷◌, ◌++◌, Result, ok, err, ensure,
  ok_or, map_err, ◌>>=◌, ◌>>◌, ltb, leb, ◌==◌, nat_eq, length, if◌then◌else◌, be_value, to_be_bytes,
}
use phone_cam.Protocol.Message.{
  Message, Bincode, MessageCodecError, message_type, type_byte, type_try_from, encode_payload,
  decode_payload,
}

abbrev pub frame_length_prefix_bytes : ℕ
frame_length_prefix_bytes = 4

abbrev pub frame_type_bytes : ℕ
frame_type_bytes = 1

abbrev pub max_frame_bytes : ℕ
max_frame_bytes = 33554432

pub data FrameError (B : Bincode) : Type 0 where
  frame_too_short : FrameError B
  length_mismatch : ℕ → ℕ → FrameError B
  length_overflow : ℕ → FrameError B
  frame_too_large : ℕ → FrameError B
  codec : MessageCodecError B → FrameError B

-- `usize::checked_add`
abbrev pub checked_add : ℕ → ℕ → Option ℕ
checked_add a b = if ltb (a + b) (2 ^ 64) then some (a + b) else none

-- `u32::try_from`
abbrev pub u32_try_from : ℕ → Option ℕ
u32_try_from n = if ltb n (2 ^ 32) then some n else none

-- `frame.data.len()` of a video frame; another message has no such test.
unfoldable pub oversized_video : Message → Option ℕ
oversized_video (Message.video_frame f) =
    if leb max_frame_bytes (length f.bytes) then some (length f.bytes) else none
oversized_video _ = none

module _ (B : Bincode) where
  -- The first test of `encode_frame`.
  unfoldable pub check_video : Message → Result (FrameError B) (Unit {0})
  unfolding oversized_video
  check_video m = elim (oversized_video m) [ none ↦ ok tt | some n ↦ err (frame_too_large n) ]

  unfoldable pub encode_frame : Message → Result (FrameError B) (List ℕ)
  encode_frame m = do
    check_video m
    payload ← map_err codec (encode_payload B m)
    frame_length ←
        ok_or (checked_add frame_type_bytes (length payload)) (length_overflow (length payload))
    ensure (leb frame_length max_frame_bytes) (frame_too_large frame_length)
    frame_length_u32 ← ok_or (u32_try_from frame_length) (length_overflow frame_length)
    ok (to_be_bytes frame_length_u32 ++ type_byte (message_type m) ∷ payload)

  -- `decode_frame` after the test of its length: the prefix, the type byte and the payload.
  unfoldable pub decode_parts : ℕ → ℕ → List ℕ → Result (FrameError B) Message
  decode_parts declared type payload = do
    ensure (leb declared max_frame_bytes) (frame_too_large declared)
    ensure (declared == length payload + frame_type_bytes)
        (length_mismatch declared (length payload + frame_type_bytes))
    message_type ← map_err codec (type_try_from B type)
    map_err codec (decode_payload B message_type payload)

  unfoldable pub decode_frame : List ℕ → Result (FrameError B) Message
  unfolding decode_parts
  decode_frame (a ∷ b ∷ c ∷ d ∷ type ∷ payload) = decode_parts (be_value a b c d) type payload
  decode_frame _ = err frame_too_short
