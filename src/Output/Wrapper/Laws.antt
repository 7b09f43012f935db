-- ===== src/Output/Wrapper/Laws.antt =====
-- What a format that was set means for the frames that are written.
use phone_cam.Prelude.{
  ℕ, ◌*◌, ◌≤◌, ◌≡◌, refl, sym, ap, ◌∙◌, arith, Bool, true, some, List, ok, is_ok→ok, length, ◌==◌,
  nat_eq, Bool-cases, nat_beq_iff, ◌&&◌, Result-cases, Option-cases, inl, inr,
}
use phone_cam.Text.Order.{text_eq, text_beq_iff}
use phone_cam.Protocol.Profile.{StreamProfile}
use phone_cam.Video.Planes.{Nv12Frame}
use phone_cam.Video.Convert.{YuyvFrame, convert}
use phone_cam.Video.Pixels.{convert_pixels}
use phone_cam.Output.Device.{
  Format, Fraction, V4l2Device, OutputDevice, asked, agreed_converter, commit, write_frame,
}
use phone_cam.Output.Device.Laws.{
  IsAgreeable, agreed-IsAgreeable, IsAgreeable-agreed, converter_for, supported_even,
}
use phone_cam.Output.Wrapper.{
  yuyv, to_fourcc, Kernel, minimum_size, checked_mul_u32, is_exact, is_as_asked, set_format,
  as_v4l2,
}

-- The format and the interval that the kernel set.
pub record IsFormatSet (k : Kernel) (width height fps : ℕ) : Type 0 where
  pub actual : Format
  pub actual_lem : k.set_format width height (to_fourcc yuyv) ≡ ok actual
  pub same_width : actual.width ≡ width
  pub same_height : actual.height ≡ height
  pub same_fourcc : actual.fourcc ≡ to_fourcc yuyv
  pub large : 2 * (width * height) ≤ actual.size
  pub interval : Fraction
  pub interval_lem : k.set_interval fps ≡ ok interval
  pub exact : interval.numerator * fps ≡ interval.denominator

both : (a b : Bool) → (a && b) ≡ true → (a ≡ true) × (b ≡ true)
both a b h = (ground arith, ground arith)

minimum_size_lem :
    (width height size : ℕ) → minimum_size width height ≡ some size → size ≡ 2 * (width * height)
minimum_size_lem width height size h = elim (Option-cases (checked_mul_u32 width height)) [
  | inl e ↦ absurd (ground arith)
  | inr (pixels, e) ↦
      let p : pixels ≡ width * height = ground arith in
      let q : size ≡ pixels * 2 = ground arith in q ∙ (ap (λ n. n * 2) p ∙ omega arith)
]

agreed-IsFormatSet :
    (k : Kernel) (width height fps size : ℕ) (a : Format) (x : Fraction)
    → k.set_format width height (to_fourcc yuyv) ≡ ok a
    → minimum_size width height ≡ some size
    → k.set_interval fps ≡ ok x
    → is_as_asked a width height yuyv size ≡ true
    → is_exact x fps ≡ true
    → IsFormatSet k width height fps
agreed-IsFormatSet k width height fps size a x e m i asked exact =
    let (w, r) = both (a.width == width) _ asked in
    let (h, q) = both (a.height == height) _ r in
    let (f, l) = both (a.fourcc == to_fourcc yuyv) _ q in
    let s = minimum_size_lem width height size m in
    record {
      actual = a;
      actual_lem = e;
      same_width = (nat_beq_iff a.width width).0 w;
      same_height = (nat_beq_iff a.height height).0 h;
      same_fourcc = (text_beq_iff a.fourcc (to_fourcc yuyv)).0 f;
      large = let n : size ≤ a.size = ground arith in rw (sym s) n;
      interval = x;
      interval_lem = i;
      exact = (nat_beq_iff (x.numerator * fps) x.denominator).0 exact;
    }

set_format-IsFormatSet :
    (k : Kernel) (width height fps : ℕ)
    → set_format k width height yuyv fps ≡ ok tt
    → IsFormatSet k width height fps
unfolding set_format
set_format-IsFormatSet k width height fps h =
    elim (Result-cases (k.set_format width height (to_fourcc yuyv))) [
      | inr (y, e) ↦ absurd (ground arith)
      | inl (a, e) ↦ elim (Option-cases (minimum_size width height)) [
        | inl m ↦ absurd (ground arith)
        | inr (size, m) ↦ elim (Result-cases (k.set_interval fps)) [
          | inr (y, i) ↦ absurd (ground arith)
          | inl (x, i) ↦ elim (Bool-cases (is_as_asked a width height yuyv size)) [
            | inr b ↦ absurd (cc (rw (set_format, e, m, b) at h))
            | inl b ↦ elim (Bool-cases (is_exact x fps)) [
              | inr c ↦ absurd (cc (rw (set_format, e, m, b, i, c) at h))
              | inl c ↦ agreed-IsFormatSet k width height fps size a x e m i b c
            ]
          ]
        ]
      ]
    ]

-- The device that a commit which went well leaves.
committed :
    (k : Kernel) (d : OutputDevice) (p : StreamProfile)
    → (commit (as_v4l2 k) d p).1 ≡ ok tt
    → IsAgreeable (as_v4l2 k) p
      × ((commit (as_v4l2 k) d p).0 ≡ record {
        device = asked (as_v4l2 k) d.device p;
        converter = some (converter_for p);
        committed_profile = some p;
      })
unfolding commit
committed k d p h = elim (Result-cases (agreed_converter (as_v4l2 k) p)) [
  | inl (c, e) ↦
      let a = agreed-IsAgreeable (as_v4l2 k) p c e in
      (a, rw (commit, IsAgreeable-agreed (as_v4l2 k) p a) refl)
  | inr (x, e) ↦ absurd (ground arith)
]

written :
    (k : Kernel) (device : V4l2Device) (p : StreamProfile) (f : Nv12Frame) (t : ℕ) (bytes : List ℕ)
    → write_frame
        (as_v4l2 k)
        (record { device = device; converter = some (converter_for p); committed_profile = some p })
        f
        t
      ≡ ok bytes
    → (out : YuyvFrame) × (convert (converter_for p) f ≡ ok out) × (bytes ≡ out.bytes)
unfolding write_frame
written k device p f t bytes h = elim (Result-cases (convert (converter_for p) f)) [
  | inl (out, e) ↦ (out, e, ground arith)
  | inr (x, e) ↦ absurd (ground arith)
]

-- After a commit that went well the kernel has set YUYV at the profile's size, exactly its rate, and a
-- buffer that each frame that is written then fits: it has two bytes for each pixel.
pub write_frame-IsFormatSet :
    (k : Kernel) (d : OutputDevice) (p : StreamProfile) (f : Nv12Frame) (t : ℕ) (bytes : List ℕ)
    → (commit (as_v4l2 k) d p).1 ≡ ok tt
    → write_frame (as_v4l2 k) (commit (as_v4l2 k) d p).0 f t ≡ ok bytes
    → (s : IsFormatSet k p.width p.height p.fps) × (length bytes ≡ 2 * (p.width * p.height))
      × (length bytes ≤ s.actual.size)
write_frame-IsFormatSet k d p f t bytes h w =
    let (a, left) = committed k d p h in
    let s =
      set_format-IsFormatSet k p.width p.height p.fps
        (is_ok→ok (set_format k p.width p.height yuyv p.fps) a.taken) in
    let (out, c, same) =
      written k _ p f t bytes (ap (λ e. write_frame (as_v4l2 k) e f t) (sym left) ∙ w) in
    let size =
      convert_pixels p.width p.height (converter_for p) f out (supported_even p a.supported) c in
    let n : length bytes ≡ 2 * (p.width * p.height) = ap length same ∙ size.0 in
    (s, n, let l = s.large in omega arith)
