-- ===== src/Decoder/Pictures.antt =====
-- The pictures that the decoder thread sends, and the converter of the output device.
pub mod Sent
use phone_cam.Prelude.{
  ℕ, zero, suc, ◌^◌, ◌%◌, ◌*◌, ◌/◌, ◌≤◌, ◌<◌, ◌≡◌, refl, sym, Bool, true, Option, none, some, List,
  [], ◌∷◌, map, Result, ok, ◌>>=◌, ◌⊎◌, inl, inr, arith, length, All, All-append, take, get_elem?,
  ltb, Result-cases, Option-cases, Sum-cases, Bool-cases,
}
use phone_cam.Protocol.Profile.{VideoCodec, h264, hevc}
use phone_cam.Protocol.Handshake.{VideoFrame}
use phone_cam.Video.Planes.{Nv12Frame, LayoutError, Plane, planar_to_nv12}
use phone_cam.Video.Convert.{YuyvFrame, new_converter, convert}
use phone_cam.Video.Pixels.{IsEvenSize, Checked}
use phone_cam.Video.Pack.{planar-IsPicture, planar-eq, luma_length, chroma_length}
use phone_cam.Video.Picture.{new_converter-IsEvenSize, convert-Checked}
use phone_cam.Decoder.AnnexB.{normalize_h264_annex_b}
use phone_cam.Decoder.Backends.{
  Codecs, Answer, gives, fails, panics, H264Picture, HevcPicture, Attempt, done, failed, panicked,
  h264_frame_to_nv12, hevc_frame_to_nv12, one_frame, after_h264, decode_h264, HevcBackend, note_nal,
  push_picture, after_nal, is_empty_list, decode_nals, decode_hevc,
}
use phone_cam.Decoder.Worker.{
  DecodeEvent, frame, recovery_required, error, Worker, Happening, reset, shutdown, submits,
  receives, renew, apply_reset, recover, decode_frame, after_decode, is_skipped, receive, try_send,
  happen, frame_queue_capacity,
}

-- A positive even size, rows without padding, and exactly the bytes of that size.
pub record IsPacked (f : Nv12Frame) : Type 0 where
  pub size : IsEvenSize f.width f.height
  pub y_tight : f.y_stride ≡ f.width
  pub uv_tight : f.uv_stride ≡ f.width
  pub y_full : length f.y_plane ≡ f.height * f.width
  pub uv_full : length f.uv_plane ≡ f.height / 2 * f.width

planar-IsPacked :
    (w h pts : ℕ) (y u v : Plane) (f : Nv12Frame) → planar_to_nv12 w h pts y u v ≡ ok f → IsPacked f
planar-IsPacked w h pts y u v f e =
    let p = planar-IsPicture w h pts y u v f e in
    rw (planar-eq w h pts y u v f e) (record {
      size = p.size;
      y_tight = refl;
      uv_tight = refl;
      y_full = luma_length w h pts y u v p;
      uv_full = chroma_length w h pts y u v p;
    })

h264-IsPacked :
    (p : H264Picture) (pts : ℕ) (f : Nv12Frame) → h264_frame_to_nv12 p pts ≡ ok f → IsPacked f
unfolding h264_frame_to_nv12
h264-IsPacked p pts f e =
    elim (Result-cases (planar_to_nv12 (p.width % 2 ^ 32) (p.height % 2 ^ 32) pts p.y p.u p.v)) [
      | inl (g, k) ↦
          let q = planar-IsPacked (p.width % 2 ^ 32) (p.height % 2 ^ 32) pts p.y p.u p.v g k in
          let same : g ≡ f = ground arith in rw (sym same) q
      | inr (x, k) ↦ absurd (ground arith)
    ]

abbrev hevc_planar : HevcPicture → ℕ → List ℕ → List ℕ → List ℕ → Result LayoutError Nv12Frame
hevc_planar p pts y u v =
    planar_to_nv12 p.width p.height pts (record { bytes = y; stride = p.width })
      (record { bytes = u; stride = p.width / 2 }) (record { bytes = v; stride = p.width / 2 })

hevc-IsPacked :
    (p : HevcPicture) (pts : ℕ) (f : Nv12Frame) → hevc_frame_to_nv12 p pts ≡ ok f → IsPacked f
unfolding hevc_frame_to_nv12
hevc-IsPacked p pts f e = elim (Option-cases p.y) [
  | inl a ↦ absurd (ground arith)
  | inr (y, a) ↦ elim (Option-cases p.u) [
    | inl b ↦ absurd (ground arith)
    | inr (u, b) ↦ elim (Option-cases p.v) [
      | inl c ↦ absurd (ground arith)
      | inr (v, c) ↦ elim (Result-cases (hevc_planar p pts y u v)) [
        | inl (g, k) ↦
            let q = planar-IsPacked p.width p.height pts _ _ _ g k in
            let same : g ≡ f = ground arith in rw (sym same) q
        | inr (x, k) ↦ absurd (ground arith)
      ]
    ]
  ]
]

abbrev IsDonePacked : Attempt → Type 0
IsDonePacked (done pictures) = All IsPacked pictures
IsDonePacked _ = Unit {0}

abbrev IsFramePacked : DecodeEvent → Type 0
IsFramePacked (frame f) = IsPacked f
IsFramePacked _ = Unit {0}

module _ (C : Codecs) where
  open C use {H264Decoder, Nal}

  after_h264-packed :
      (pts : ℕ) (r : H264Decoder × Answer (Option H264Picture))
      → IsDonePacked (after_h264 C pts r).1
  unfolding after_h264 one_frame
  after_h264-packed pts (d, gives (some p)) = elim (Result-cases (h264_frame_to_nv12 p pts)) [
    | inl (f, k) ↦ let q = h264-IsPacked p pts f k in rw k (q, tt)
    | inr (x, k) ↦ rw (k, IsDonePacked) tt
  ]
  after_h264-packed pts (d, gives none) = tt
  after_h264-packed pts (d, fails) = tt
  after_h264-packed pts (d, panics) = tt

  decode_h264-packed : (d : H264Decoder) (f : VideoFrame) → IsDonePacked (decode_h264 C d f).1
  unfolding decode_h264
  decode_h264-packed d f = elim (Option-cases (normalize_h264_annex_b f.bytes)) [
    | inl k ↦ rw (k, IsDonePacked) tt
    | inr (payload, k) ↦ rw (k, IsDonePacked) (after_h264-packed f.pts_us (C.decode d payload))
  ]

  abbrev IsStepPacked : List Nv12Frame ⊎ Attempt → Type 0
  IsStepPacked (inl more) = All IsPacked more
  IsStepPacked (inr end) = IsDonePacked end

  after_nal-packed :
      (pts : ℕ) (decoded : List Nv12Frame) (a : Answer (Option HevcPicture))
      → All IsPacked decoded
      → IsStepPacked (after_nal C pts decoded a)
  unfolding after_nal push_picture
  after_nal-packed pts decoded (gives none) q = q
  after_nal-packed pts decoded (gives (some p)) q = elim (Result-cases (hevc_frame_to_nv12 p pts)) [
    | inl (f, k) ↦
        let one = hevc-IsPacked p pts f k in
        rw (k, IsStepPacked) (All-append IsPacked decoded (f ∷ []) q (one, tt))
    | inr (x, k) ↦ rw (k, IsStepPacked) tt
  ]
  after_nal-packed pts decoded fails q = tt
  after_nal-packed pts decoded panics q = tt

  decode_nals-packed :
      (pts : ℕ) (ns : List Nal) (b : HevcBackend C) (decoded : List Nv12Frame)
      → All IsPacked decoded
      → IsDonePacked (decode_nals C pts ns b decoded).1
  unfolding decode_nals
  decode_nals-packed pts [] b decoded q = q
  decode_nals-packed pts (n ∷ ns) b decoded q = elim (Option-cases (note_nal C (C.kind n) b)) [
    | inl k ↦ rw (k, IsDonePacked) tt
    | inr (c, k) ↦
        let answer = C.decode_nal c.decoder n in
        let step = after_nal-packed pts decoded (answer.1) q in
        rw (k, IsDonePacked)
          (elim (Sum-cases (after_nal C pts decoded (answer.1))) [
            | inl (more, m) ↦
                rw (m, IsDonePacked)
                  (decode_nals-packed pts ns (record c { decoder = answer.0 }) more (rw m at step))
            | inr (end, m) ↦ rw (m, IsDonePacked) (rw m at step)
          ])
  ]

  decode_hevc-packed : (b : HevcBackend C) (f : VideoFrame) → IsDonePacked (decode_hevc C b f).1
  unfolding decode_hevc
  decode_hevc-packed b f = elim (Bool-cases (is_empty_list C (C.parse_annex_b f.bytes))) [
    | inl k ↦ rw (k, IsDonePacked) tt
    | inr k ↦ rw k (decode_nals-packed f.pts_us (C.parse_annex_b f.bytes) b [] tt)
  ]

  decode_frame-packed :
      (c : VideoCodec) (f : VideoFrame) (w : Worker C) → IsDonePacked (decode_frame C c f w).1
  unfolding decode_frame
  decode_frame-packed h264 f w = decode_h264-packed w.h264_decoder f
  decode_frame-packed hevc f w = decode_hevc-packed w.hevc_backend f
