-- ===== src/Transport/Wire/Laws.antt =====
-- A message that was written is the first that is read, and the rest of the stream stays.
use phone_cam.Prelude.{
  ℕ, ◌≤◌, ◌≡◌, ap, List, ◌∷◌, ◌++◌, ok, length, length-append, take-append, drop-append, arith,
  be_value,
}
use phone_cam.Protocol.Message.{Bincode, Message, message_type, type_byte}
use phone_cam.Protocol.Message.Laws.{IsLawful}
use phone_cam.Protocol.Frame.{max_frame_bytes, encode_frame, decode_frame}
use phone_cam.Protocol.Frame.Laws.{decode_frame-encode_frame, decode_frame-Decoded}
use phone_cam.Transport.Wire.{read_exact, read_body, read_message}

module _ (B : Bincode) where
  read_exact-append :
      (xs ys : List ℕ) (n : ℕ) → n ≡ length xs → read_exact B n (xs ++ ys) ≡ ok (xs, ys)
  unfolding read_exact
  read_exact-append xs ys n e =
      rw (e, take-append xs ys, drop-append xs ys) (ground (arith, length-append xs ys))

  read_body-append :
      (a b c d : ℕ) (body rest : List ℕ) (m : Message)
      → be_value a b c d ≤ max_frame_bytes
      → be_value a b c d ≡ length body
      → decode_frame B (a ∷ b ∷ c ∷ d ∷ body) ≡ ok m
      → read_body B a b c d (body ++ rest) ≡ ok (m, rest)
  unfolding read_body
  read_body-append a b c d body rest m small exact dec =
      rw (read_exact-append body rest _ exact) (ground arith)

  read_message-decoded :
      (m : Message) (f rest : List ℕ)
      → decode_frame B f ≡ ok m
      → read_message B (f ++ rest) ≡ ok (m, rest)
  unfolding read_message
  read_message-decoded m f rest h =
      let d = decode_frame-Decoded B m f h in
      rw d.shape (
        read_body-append d.a d.b d.c d.d (type_byte (message_type m) ∷ d.payload) rest m d.small
          (omega (arith, ap (length {A = ℕ}) d.shape, d.exact)) (rw d.shape at h))

  -- What `write_message` appended for a message, `read_message` takes off as that message.
  pub read_message-write :
      IsLawful B
      → (m : Message) (f rest : List ℕ) → encode_frame B m ≡ ok f
      → read_message B (f ++ rest) ≡ ok (m, rest)
  read_message-write l m f rest h =
      read_message-decoded m f rest (decode_frame-encode_frame B l m f h)
