-- ===== src/Protocol/Frame/Laws.antt =====
-- Frames read back, their length prefix is exact, and only the stated errors occur.
use phone_cam.Prelude.{
  ℕ, ◌+◌, ◌^◌, ◌≤◌, ◌<◌, ◌≡◌, none, some, List, ◌∷◌, ◌++◌, ok, err, length, arith, be_value,
  to_be_bytes, be_value-to_be_bytes, ap, Result-cases, inl, inr, Option-cases, ◌⊎◌,
}
use phone_cam.Protocol.Message.{
  Message, MessageType, Bincode, MessageCodecError, message_type, type_byte, type_try_from,
  encode_payload, decode_payload,
}
use phone_cam.Protocol.Message.Laws.{
  IsLawful, decode_payload-encode_payload, type_try_from-type_byte, type_try_from-ok,
}
use phone_cam.Protocol.Frame.{
  max_frame_bytes, frame_too_large, codec, check_video, oversized_video, encode_frame, decode_parts,
  decode_frame, FrameError,
}

module _ (B : Bincode) where
  -- What an encoded frame consists of.
  pub record Encoded (m : Message) (frame : List ℕ) : Type 0 where
    pub payload : List ℕ
    pub small : length payload + 1 ≤ max_frame_bytes
    pub video_small : check_video B m ≡ ok tt
    pub encoded : encode_payload B m ≡ ok payload
    pub layout : frame ≡ to_be_bytes (length payload + 1) ++ type_byte (message_type m) ∷ payload

  pub encode_frame-Encoded :
      (m : Message) (frame : List ℕ) → encode_frame B m ≡ ok frame → Encoded m frame
  unfolding encode_frame
  encode_frame-Encoded m frame h = elim (Result-cases (encode_payload B m)) [
    | inl (payload, e) ↦ record {
      payload = payload;
      small = ground arith;
      video_small = ground arith;
      encoded = e;
      layout = ground arith;
    }
    | inr (e, q) ↦ absurd (ground arith)
  ]

  prefix_value : (n : ℕ) → n ≤ max_frame_bytes → n < 2 ^ 32
  prefix_value n h = omega arith

  decode_parts-Encoded :
      IsLawful B
      → (m : Message) (payload : List ℕ) → encode_payload B m ≡ ok payload
      → length payload + 1 ≤ max_frame_bytes
      → decode_parts B (length payload + 1) (type_byte (message_type m)) payload ≡ ok m
  unfolding decode_parts
  decode_parts-Encoded l m payload e s =
      rw (type_try_from-type_byte B (message_type m), decode_payload-encode_payload B l m payload e)
        (ground arith)

  decode_frame-layout :
      (n t : ℕ) (payload : List ℕ)
      → n ≤ max_frame_bytes
      → decode_frame B (to_be_bytes n ++ t ∷ payload) ≡ decode_parts B n t payload
  unfolding decode_frame to_be_bytes
  decode_frame-layout n t payload h =
      ap (λ k. decode_parts B k t payload) (be_value-to_be_bytes n (prefix_value n h))

  -- If bincode's values come back, then what `encode_frame` accepts, `decode_frame` gives back.
  pub decode_frame-encode_frame :
      IsLawful B
      → (m : Message) (frame : List ℕ) → encode_frame B m ≡ ok frame
      → decode_frame B frame ≡ ok m
  decode_frame-encode_frame l m frame h =
      let e = encode_frame-Encoded m frame h in
      rw (e.layout, decode_frame-layout _ _ e.payload e.small)
        (decode_parts-Encoded l m e.payload e.encoded e.small)

  -- What an accepted frame looks like.
  pub record Decoded (m : Message) (frame : List ℕ) : Type 0 where
    pub a : ℕ
    pub b : ℕ
    pub c : ℕ
    pub d : ℕ
    pub payload : List ℕ
    pub shape : frame ≡ a ∷ b ∷ c ∷ d ∷ type_byte (message_type m) ∷ payload
    pub exact : be_value a b c d + 4 ≡ length frame
    pub small : be_value a b c d ≤ max_frame_bytes

  message_type-decode_payload :
      (t : MessageType) (payload : List ℕ) (m : Message)
      → decode_payload B t payload ≡ ok m
      → message_type m ≡ t
  unfolding decode_payload message_type
  message_type-decode_payload MessageType.handshake payload m h = ground arith
  message_type-decode_payload _ payload m h = ground arith

  -- Whatever the bytes, an accepted frame has a prefix that counts the rest exactly, keeps to
  -- the size limit, and has the type byte of the message that it gives.
  pub decode_frame-Decoded :
      (m : Message) (frame : List ℕ) → decode_frame B frame ≡ ok m → Decoded m frame
  unfolding decode_frame decode_parts
  decode_frame-Decoded m (a ∷ b ∷ c ∷ d ∷ t ∷ payload) h = elim (Result-cases (type_try_from B t)) [
    | inl (mt, e) ↦ record {
      a = a;
      b = b;
      c = c;
      d = d;
      payload = payload;
      shape = ground (arith, type_try_from-ok B t mt, message_type-decode_payload mt payload m);
      exact = ground arith;
      small = ground arith;
    }
    | inr (_, e) ↦ absurd (ground arith)
  ]
  decode_frame-Decoded m _ h = absurd (cc)

  oversized_video-le : (m : Message) (n : ℕ) → oversized_video m ≡ some n → max_frame_bytes ≤ n
  unfolding oversized_video
  oversized_video-le (Message.video_frame f) n h = ground arith
  oversized_video-le _ n h = absurd (cc)

  module _ (m : Message) (e : FrameError B) (h : encode_frame B m ≡ err e) where
    errors_oversized :
        (n : ℕ) → oversized_video m ≡ some n → (max_frame_bytes ≤ n) × (e ≡ frame_too_large n)
    unfolding encode_frame check_video
    errors_oversized n o = (oversized_video-le m n o, ground arith)

    errors_payload :
        (payload : List ℕ)
        → oversized_video m ≡ none
        → encode_payload B m ≡ ok payload
        → length payload < 2 ^ 63
        → (max_frame_bytes ≤ length payload + 1) × (e ≡ frame_too_large (1 + length payload))
    unfolding encode_frame check_video
    errors_payload payload o q fits = ground arith

    errors_bincode :
        (c : MessageCodecError B)
        → oversized_video m ≡ none
        → encode_payload B m ≡ err c
        → e ≡ codec c
    unfolding encode_frame check_video
    errors_bincode c o q = ground arith

  -- A payload of a length that memory can hold never meets `LengthOverflow`, so a frame is refused
  -- only for its size or by bincode.
  pub encode_frame-errors :
      (m : Message) (e : FrameError B)
      → ((payload : List ℕ) → encode_payload B m ≡ ok payload → length payload < 2 ^ 63)
      → encode_frame B m ≡ err e
      → ((n : ℕ) × (max_frame_bytes ≤ n) × (e ≡ frame_too_large n))
        ⊎ ((c : MessageCodecError B) × (encode_payload B m ≡ err c) × (e ≡ codec c))
  encode_frame-errors m e fits h = elim (Option-cases (oversized_video m)) [
    | inr (n, o) ↦ let p = errors_oversized m e h n o in inl (n, p.0, p.1)
    | inl o ↦ elim (Result-cases (encode_payload B m)) [
      | inl (payload, q) ↦
          let p = errors_payload m e h payload o q (fits payload q) in
          inl (1 + length payload, omega arith, p.1)
      | inr (c, q) ↦ inr (c, q, errors_bincode m e h c o q)
    ]
  ]
