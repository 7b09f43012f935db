-- ===== src/Output/FormatEvent/Laws.antt =====
-- Format events: what is written is read, and nothing else is accepted.
use phone_cam.Prelude.{
  ℕ, ◌/◌, ◌%◌, ◌<◌, ◌≡◌, ◌↔◌, true, ◌&&◌, List, [], ◌∷◌, Result, ok, err, ◌==◌, nat_eq, pair_eq,
  contains, arith, All, if◌then◌else◌, IsByte,
}
use phone_cam.Protocol.Profile.{supported_dimensions, supported_frame_rates}
use phone_cam.Output.Device.{NativeOutputFormat}
use phone_cam.Output.FormatEvent.{
  FormatEventError, invalid_header, le_value, pixel_format_of, parse_fields, parse, pixel_byte,
  encode,
}

-- A format that the protocol knows.
pub record IsKnown (x : NativeOutputFormat) : Type 0 where
  pub size : contains supported_dimensions (x.width, x.height) ≡ true
  pub rate : contains supported_frame_rates x.fps ≡ true

known_bounds : (x : NativeOutputFormat) → IsKnown x → (x.width < 65536) × (x.height < 65536)
unfolding contains
known_bounds x k = let s = k.size in ground arith

le_value-bytes :
    (n : ℕ)
    → n < 65536
    → le_value (n % 256) (n / 256 % 256) (n / 65536 % 256) (n / 16777216 % 256) ≡ n
le_value-bytes n h = omega arith

bytes-le_value :
    (a b c d n : ℕ)
    → IsByte a
    → IsByte b
    → IsByte c
    → IsByte d
    → le_value a b c d ≡ n
    → (a ≡ n % 256) × (b ≡ n / 256 % 256) × (c ≡ n / 65536 % 256) × (d ≡ n / 16777216 % 256)
bytes-le_value a b c d n ha hb hc hd h = (omega arith, omega arith, omega arith, omega arith)

parse_fields-known :
    (x : NativeOutputFormat)
    → IsKnown x
    → parse_fields x.width x.height x.fps (pixel_byte x.pixel_format) 0 0 ≡ ok x
unfolding parse_fields pixel_byte pixel_format_of
parse_fields-known x k =
    let s = k.size in let r = k.rate in let b = known_bounds x k in ground arith

parse-encode : (x : NativeOutputFormat) → IsKnown x → parse (encode x) ≡ ok x
unfolding parse encode
parse-encode x k =
    let b = known_bounds x k in
    rw (le_value-bytes x.width b.0, le_value-bytes x.height b.1) (parse_fields-known x k)

-- What a successful `parse_fields` read.
record Fields (w h fps pixel r s : ℕ) (x : NativeOutputFormat) : Type 0 where
  known : IsKnown x
  width_lem : w ≡ x.width
  height_lem : h ≡ x.height
  fps_lem : fps ≡ x.fps
  pixel_lem : pixel ≡ pixel_byte x.pixel_format
  r_lem : r ≡ 0
  s_lem : s ≡ 0

parse_fields-ok :
    (w h fps pixel r s : ℕ) (x : NativeOutputFormat)
    → parse_fields w h fps pixel r s ≡ ok x
    → Fields w h fps pixel r s x
unfolding parse_fields pixel_format_of pixel_byte
parse_fields-ok w h fps pixel r s x e = record {
  known = record { size = ground arith; rate = ground arith };
  width_lem = ground arith;
  height_lem = ground arith;
  fps_lem = ground arith;
  pixel_lem = ground arith;
  r_lem = ground arith;
  s_lem = ground arith;
}

magic :
    (p q m n : ℕ) {y : Result FormatEventError NativeOutputFormat} {x : NativeOutputFormat}
    → (if p == b'P' && (q == b'C' && (m == b'F' && n == b'M')) then y else err invalid_header)
      ≡ ok x
    → ((p ≡ b'P') × (q ≡ b'C') × (m ≡ b'F') × (n ≡ b'M')) × (y ≡ ok x)
magic p q m n h = ground arith

parsed :
    (bytes : List ℕ) (x : NativeOutputFormat)
    → All IsByte bytes
    → parse bytes ≡ ok x
    → IsKnown x × (bytes ≡ encode x)
unfolding parse encode
parsed (p ∷ q ∷ m ∷ n ∷ a ∷ b ∷ c ∷ d ∷ e ∷ f ∷ g ∷ h ∷ fps ∷ pixel ∷ r ∷ s ∷ []) x i k =
    let (j, l) = magic p q m n k in
    let z = parse_fields-ok _ _ fps pixel r s x l in
    let (i0, (i1, (i2, (i3, (ia, (ib, (ic, (id, (ie, (if_, (ig, (ih, is)))))))))))) = i in
    let u = bytes-le_value a b c d x.width ia ib ic id z.width_lem in
    let v = bytes-le_value e f g h x.height ie if_ ig ih z.height_lem in
    let y = z.fps_lem in
    let o = z.pixel_lem in let rz = z.r_lem in let sz = z.s_lem in (z.known, cc)
parsed [] x i k = absurd (cc)
parsed (p ∷ []) x i k = absurd (cc)
parsed (p ∷ q ∷ []) x i k = absurd (cc)
parsed (p ∷ q ∷ m ∷ []) x i k = absurd (cc)
parsed (p ∷ q ∷ m ∷ n ∷ []) x i k = absurd (cc)
parsed (p ∷ q ∷ m ∷ n ∷ a ∷ []) x i k = absurd (cc)
parsed (p ∷ q ∷ m ∷ n ∷ a ∷ b ∷ []) x i k = absurd (cc)
parsed (p ∷ q ∷ m ∷ n ∷ a ∷ b ∷ c ∷ []) x i k = absurd (cc)
parsed (p ∷ q ∷ m ∷ n ∷ a ∷ b ∷ c ∷ d ∷ []) x i k = absurd (cc)
parsed (p ∷ q ∷ m ∷ n ∷ a ∷ b ∷ c ∷ d ∷ e ∷ []) x i k = absurd (cc)
parsed (p ∷ q ∷ m ∷ n ∷ a ∷ b ∷ c ∷ d ∷ e ∷ f ∷ []) x i k = absurd (cc)
parsed (p ∷ q ∷ m ∷ n ∷ a ∷ b ∷ c ∷ d ∷ e ∷ f ∷ g ∷ []) x i k = absurd (cc)
parsed (p ∷ q ∷ m ∷ n ∷ a ∷ b ∷ c ∷ d ∷ e ∷ f ∷ g ∷ h ∷ []) x i k = absurd (cc)
parsed (p ∷ q ∷ m ∷ n ∷ a ∷ b ∷ c ∷ d ∷ e ∷ f ∷ g ∷ h ∷ fps ∷ []) x i k = absurd (cc)
parsed (p ∷ q ∷ m ∷ n ∷ a ∷ b ∷ c ∷ d ∷ e ∷ f ∷ g ∷ h ∷ fps ∷ pixel ∷ []) x i k = absurd (cc)
parsed (p ∷ q ∷ m ∷ n ∷ a ∷ b ∷ c ∷ d ∷ e ∷ f ∷ g ∷ h ∷ fps ∷ pixel ∷ r ∷ []) x i k = absurd (cc)
parsed (p ∷ q ∷ m ∷ n ∷ a ∷ b ∷ c ∷ d ∷ e ∷ f ∷ g ∷ h ∷ fps ∷ pixel ∷ r ∷ s ∷ t ∷ ts) x i k =
    absurd (cc)

-- On byte strings, `parse` gives a format exactly if its size and rate are known to the protocol and
-- the bytes are those that `encode` writes for it.
pub parse-ok_iff :
    (bytes : List ℕ) (x : NativeOutputFormat)
    → All IsByte bytes
    → (parse bytes ≡ ok x) ↔ (IsKnown x × (bytes ≡ encode x))
parse-ok_iff bytes x i = (λ h. parsed bytes x i h, λ h. rw h.1 (parse-encode x h.0))
