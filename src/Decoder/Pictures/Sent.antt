-- ===== src/Decoder/Pictures/Sent.antt =====
-- The pictures among the events of a turn of the decoder thread.
use phone_cam.Prelude.{
  ℕ, zero, suc, ◌^◌, ◌*◌, ◌/◌, ◌≤◌, ◌<◌, ◌≡◌, refl, sym, Bool, true, Option, none, some, List, [],
  ◌∷◌, map, ok, ◌>>=◌, inl, inr, arith, length, All, take, get_elem?, ltb, Option-cases, Bool-cases,
}
use phone_cam.Protocol.Profile.{VideoCodec, h264, hevc}
use phone_cam.Protocol.Handshake.{VideoFrame}
use phone_cam.Video.Planes.{Nv12Frame}
use phone_cam.Video.Convert.{YuyvFrame, new_converter, convert}
use phone_cam.Video.Pixels.{Checked}
use phone_cam.Video.Picture.{new_converter-IsEvenSize, convert-Checked}
use phone_cam.Decoder.Backends.{Codecs, Attempt, done, failed, panicked}
use phone_cam.Decoder.Worker.{
  DecodeEvent, frame, recovery_required, error, Worker, Happening, reset, shutdown, submits,
  receives, renew, apply_reset, recover, decode_frame, after_decode, is_skipped, receive, try_send,
  happen, frame_queue_capacity,
}
use phone_cam.Decoder.Pictures.{IsPacked, IsFramePacked, IsDonePacked, decode_frame-packed}

module _ (C : Codecs) where
  open C use {H264Decoder, Nal}

  pictures-packed :
      (pictures : List Nv12Frame) → All IsPacked pictures → All IsFramePacked (map frame pictures)
  pictures-packed [] q = tt
  pictures-packed (f ∷ fs) q = (q.0, pictures-packed fs q.1)

  take-packed :
      (n : ℕ) (es : List DecodeEvent) → All IsFramePacked es → All IsFramePacked (take n es)
  take-packed zero es q = tt
  take-packed (suc n) [] q = tt
  take-packed (suc n) (e ∷ es) q = (q.0, take-packed n es q.1)

  recover-packed :
      (created : Option H264Decoder) (room : ℕ) (es : List DecodeEvent) (w : Worker C)
      → All IsFramePacked es
      → All IsFramePacked (recover C created room es w).events
  unfolding recover
  recover-packed created room es w q =
      elim (Option-cases (renew C created w.codec (record w { waiting_for_idr = true }))) [
        | inl k ↦ rw (k, All) tt
        | inr (v, k) ↦ rw (k, All) (take-packed room es q)
      ]

  after_decode-packed :
      (created : Option H264Decoder) (room : ℕ) (key : Bool) (r : Worker C × Attempt)
      → IsDonePacked r.1
      → All IsFramePacked (after_decode C created room key r).events
  unfolding after_decode
  after_decode-packed created room key (w, done pictures) q =
      take-packed room (map frame pictures) (pictures-packed pictures q)
  after_decode-packed created room key (w, failed e) q =
      recover-packed created room (error ∷ recovery_required ∷ []) w (tt, (tt, tt))
  after_decode-packed created room key (w, panicked) q =
      recover-packed created room (error ∷ []) w (tt, tt)

  receive-packed :
      (created : Option H264Decoder) (room : ℕ) (fs : List VideoFrame) (w : Worker C)
      → All IsFramePacked (receive C created room fs w).events
  unfolding receive
  receive-packed created room [] w = tt
  receive-packed created room (f ∷ fs) w = elim (Bool-cases (is_skipped C f w)) [
    | inl k ↦ rw (k, All) (take-packed room (recovery_required ∷ []) (tt, tt))
    | inr k ↦
        let v : Worker C = record w { frames = fs } in
        rw (k, All)
          (after_decode-packed created room f.is_keyframe (decode_frame C w.codec f v)
            (decode_frame-packed C w.codec f v))
  ]

  reset-packed :
      (created : Option H264Decoder) (c : VideoCodec) (w : Worker C)
      → All IsFramePacked (apply_reset C created c w).events
  unfolding apply_reset renew
  reset-packed none h264 w = tt
  reset-packed (some d) h264 w = tt
  reset-packed created hevc w = tt

  happen-packed : (h : Happening C) (w : Worker C) → All IsFramePacked (happen C h w).events
  unfolding happen try_send
  happen-packed (reset c created) w = reset-packed created c w
  happen-packed shutdown w = tt
  happen-packed (submits f) w = elim (Bool-cases (ltb (length w.frames) frame_queue_capacity)) [
    | inl k ↦ rw k tt
    | inr k ↦ rw k tt
  ]
  happen-packed (receives created room) w = receive-packed created room w.frames w

  sent-IsPacked :
      (es : List DecodeEvent) (i : ℕ) (f : Nv12Frame)
      → All IsFramePacked es
      → get_elem? es i ≡ some (frame f)
      → IsPacked f
  sent-IsPacked [] i f q h = cc
  sent-IsPacked (frame g ∷ es) zero f q h = let same : g ≡ f = ground arith in rw (sym same) (q.0)
  sent-IsPacked (recovery_required ∷ es) zero f q h = absurd (ground arith)
  sent-IsPacked (error ∷ es) zero f q h = absurd (ground arith)
  sent-IsPacked (e ∷ es) (suc i) f q h = sent-IsPacked es i f q.1 h

  shown :
      (f : Nv12Frame)
      → IsPacked f
      → length f.y_plane < 2 ^ 63
      → (out : YuyvFrame) × ((do k ← new_converter f.width f.height; convert k f) ≡ ok out)
  shown f p m =
      let w = f.width in
      let h = f.height in
      let area : w * h < 2 ^ 63 = omega (arith, p.y_full) in
      let luma : f.y_stride * h < 2 ^ 64 = rw p.y_tight (omega arith) in
      let chroma : f.uv_stride * (h / 2) < 2 ^ 64 =
        let half : h / 2 ≤ h = omega arith in rw p.uv_tight (grind arith) in
      let checks : Checked (record { width = w; height = h }) f = record {
        y_wide = omega (arith, p.y_tight);
        uv_wide = omega (arith, p.uv_tight);
        y_long = rw p.y_tight (omega (arith, p.y_full));
        uv_long = rw p.uv_tight (omega (arith, p.uv_full));
        same_width = refl;
        same_height = refl;
      } in
      rw (new_converter-IsEvenSize w h p.size)
        (_, convert-Checked (record { width = w; height = h }) f checks luma chroma area)

  -- Each picture that the thread sends, whatever happens to it and whatever the crates answer, is
  -- packed, and if memory can hold its luma plane a converter of its size is made and converts it.
  pub happen-IsPacked :
      (h : Happening C) (w : Worker C) (i : ℕ) (f : Nv12Frame)
      → get_elem? (happen C h w).events i ≡ some (frame f)
      → length f.y_plane < 2 ^ 63
      → IsPacked f
        × (out : YuyvFrame) × ((do k ← new_converter f.width f.height; convert k f) ≡ ok out)
  happen-IsPacked h w i f e m =
      let p = sent-IsPacked (happen C h w).events i f (happen-packed h w) e in
      let (out, q) = shown f p m in (p, out, q)
