-- ===== src/Decoder/Backends.antt =====
-- The two backends of rust/phonecam-desktop/src-tauri/src/decode.rs. The crates openh264 and
-- rust_h265 are parameters, `Codecs`.
use phone_cam.Prelude.{
  ℕ, ◌/◌, ◌%◌, ◌^◌, Bool, true, false, ◌&&◌, Option, none, some, List, [], ◌∷◌, ◌++◌, Result, ok,
  err, ok_or, map_err, ensure, ◌⊎◌, inl, inr, ◌>>=◌, ◌>>◌, ◌==◌, nat_eq, if◌then◌else◌,
}
use phone_cam.Protocol.Handshake.{VideoFrame}
use phone_cam.Video.Planes.{Nv12Frame, LayoutError, Plane, planar_to_nv12}
use phone_cam.Decoder.AnnexB.{normalize_h264_annex_b}

-- How a call of one of the crates ends; `panics` is what `catch_unwind` catches.
pub data Answer (A : Type 0) : Type 0 where
  gives : A → Answer A
  fails : Answer A
  panics : Answer A

-- A picture of openh264: `dimensions`, and the planes with their `strides`.
pub record H264Picture : Type 0 where
  pub width : ℕ
  pub height : ℕ
  pub y : Plane
  pub u : Plane
  pub v : Plane

-- `rust_h265::Frame`; a plane is `none` if it does not hold bytes.
pub record HevcPicture : Type 0 where
  pub width : ℕ
  pub height : ℕ
  pub bit_depth : ℕ
  pub y : Option (List ℕ)
  pub u : Option (List ℕ)
  pub v : Option (List ℕ)

-- The types of NAL units that the source tells apart.
pub data NalKind : Type 0 where
  vps sps pps idr other : NalKind

pub record Codecs : Type 1 where
  pub H264Decoder : Type 0
  pub HevcDecoder : Type 0
  pub Nal : Type 0
  pub decode : H264Decoder → List ℕ → H264Decoder × Answer (Option H264Picture)
  pub new_hevc : HevcDecoder
  pub parse_annex_b : List ℕ → List Nal
  pub kind : Nal → NalKind
  pub decode_nal : HevcDecoder → Nal → HevcDecoder × Answer (Option HevcPicture)

-- `DecodeError`, as far as the backends make it.
pub data DecodeError : Type 0 where
  layout : LayoutError → DecodeError
  malformed_annex_b : DecodeError
  decoder_failed : DecodeError
  idr_before_parameter_sets : DecodeError
  main10_unsupported : DecodeError

-- How a backend's `decode` ends.
pub data Attempt : Type 0 where
  done : List Nv12Frame → Attempt
  failed : DecodeError → Attempt
  panicked : Attempt

unfoldable pub h264_frame_to_nv12 : H264Picture → ℕ → Result DecodeError Nv12Frame
h264_frame_to_nv12 p pts_us =
    map_err layout (planar_to_nv12 (p.width % 2 ^ 32) (p.height % 2 ^ 32) pts_us p.y p.u p.v)

unfoldable pub hevc_frame_to_nv12 : HevcPicture → ℕ → Result DecodeError Nv12Frame
hevc_frame_to_nv12 p pts_us = do
  ensure (p.bit_depth == 8) main10_unsupported
  y ← ok_or p.y main10_unsupported
  u ← ok_or p.u main10_unsupported
  v ← ok_or p.v main10_unsupported
  map_err layout (
      planar_to_nv12 p.width p.height pts_us (record { bytes = y; stride = p.width })
        (record { bytes = u; stride = p.width / 2 }) (record { bytes = v; stride = p.width / 2 }))

module _ (C : Codecs) where
  open C use {H264Decoder, HevcDecoder, Nal}

  -- `vec![h264_frame_to_nv12(..)?]`
  unfoldable pub one_frame : Result DecodeError Nv12Frame → Attempt
  one_frame (ok f) = done (f ∷ [])
  one_frame (err e) = failed e

  unfoldable pub after_h264 : ℕ → H264Decoder × Answer (Option H264Picture) → H264Decoder × Attempt
  unfolding one_frame h264_frame_to_nv12
  after_h264 pts_us (d, gives (some p)) = (d, one_frame (h264_frame_to_nv12 p pts_us))
  after_h264 pts_us (d, gives none) = (d, done [])
  after_h264 pts_us (d, fails) = (d, failed decoder_failed)
  after_h264 pts_us (d, panics) = (d, panicked)

  -- `H264Backend::decode`
  unfoldable pub decode_h264 : H264Decoder → VideoFrame → H264Decoder × Attempt
  unfolding after_h264
  decode_h264 d f = elim (normalize_h264_annex_b f.bytes) [
    | none ↦ (d, failed malformed_annex_b)
    | some payload ↦ after_h264 f.pts_us (C.decode d payload)
  ]

  pub record HevcBackend : Type 0 where
    pub decoder : HevcDecoder
    pub saw_vps : Bool
    pub saw_sps : Bool
    pub saw_pps : Bool

  -- `HevcBackend::new`
  abbrev pub new_backend : HevcBackend
  new_backend = record { decoder = C.new_hevc; saw_vps = false; saw_sps = false; saw_pps = false }

  abbrev pub saw_all : HevcBackend → Bool
  saw_all b = b.saw_vps && (b.saw_sps && b.saw_pps)

  -- The `match` on the type of a NAL unit; `none` is its early return.
  unfoldable pub note_nal : NalKind → HevcBackend → Option HevcBackend
  note_nal vps b = some (record b { saw_vps = true })
  note_nal sps b = some (record b { saw_sps = true })
  note_nal pps b = some (record b { saw_pps = true })
  note_nal idr b = if saw_all b then some b else none
  note_nal other b = some b

  -- The pictures so far, with the one that a NAL unit completed; an error ends the loop.
  unfoldable pub push_picture :
      ℕ → List Nv12Frame → Option HevcPicture → Result DecodeError (List Nv12Frame)
  unfolding hevc_frame_to_nv12
  push_picture pts_us decoded none = ok decoded
  push_picture pts_us decoded (some p) = do f ← hevc_frame_to_nv12 p pts_us; ok (decoded ++ f ∷ [])

  -- What the decoder made of one NAL unit: the loop goes on with the pictures, or ends.
  unfoldable pub after_nal :
      ℕ → List Nv12Frame → Answer (Option HevcPicture) → List Nv12Frame ⊎ Attempt
  unfolding push_picture
  after_nal pts_us decoded (gives p) = elim (push_picture pts_us decoded p) [
    | ok more ↦ inl more
    | err e ↦ inr (failed e)
  ]
  after_nal pts_us decoded fails = inr (failed decoder_failed)
  after_nal pts_us decoded panics = inr panicked

  -- The loop over the NAL units of a payload.
  unfoldable pub decode_nals : ℕ → List Nal → HevcBackend → List Nv12Frame → HevcBackend × Attempt
  unfolding note_nal after_nal
  decode_nals pts_us [] b decoded = (b, done decoded)
  decode_nals pts_us (n ∷ ns) b decoded = elim (note_nal (C.kind n) b) [
    | none ↦ (b, failed idr_before_parameter_sets)
    | some c ↦
        let answer = C.decode_nal c.decoder n in
        let next : HevcBackend = record c { decoder = answer.0 } in
        elim (after_nal pts_us decoded (answer.1)) [
          | inl more ↦ decode_nals pts_us ns next more
          | inr end ↦ (next, end)
        ]
  ]

  abbrev pub is_empty_list : List Nal → Bool
  is_empty_list [] = true
  is_empty_list (n ∷ ns) = false

  -- `HevcBackend::decode`
  unfoldable pub decode_hevc : HevcBackend → VideoFrame → HevcBackend × Attempt
  unfolding decode_nals
  decode_hevc b f =
      let nals = C.parse_annex_b f.bytes in
      if is_empty_list nals then (b, failed malformed_annex_b) else decode_nals f.pts_us nals b []
