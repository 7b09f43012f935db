-- ===== src/Output/Packed/Laws.antt =====
-- What the native drivers get of a picture of the decoder.
use phone_cam.Prelude.{
  ℕ, zero, suc, ◌+◌, ◌*◌, ◌/◌, ◌^◌, ◌≤◌, ◌<◌, ◌≡◌, refl, sym, ap, ◌∙◌, arith, List, [], ◌∷◌, ◌++◌,
  ok, length, take, drop,
}
use phone_cam.Video.Planes.{Nv12Frame, copy_rows, is_odd}
use phone_cam.Decoder.Pictures.{IsPacked}
use phone_cam.Output.Packed.{packed_nv12}

take-drop : (n : ℕ) (xs : List ℕ) → take n xs ++ drop n xs ≡ xs
take-drop zero xs = refl
take-drop (suc n) [] = refl
take-drop (suc n) (x ∷ xs) = ap (λ l. x ∷ l) (take-drop n xs)

drop_all : (n : ℕ) (xs : List ℕ) → length xs ≤ n → drop n xs ≡ []
drop_all zero [] h = refl
drop_all zero (x ∷ xs) h = absurd (omega arith)
drop_all (suc n) [] h = refl
drop_all (suc n) (x ∷ xs) h = drop_all n xs (omega arith)

drop-drop : (a b : ℕ) (xs : List ℕ) → drop b (drop a xs) ≡ drop (a + b) xs
drop-drop zero b xs = ap (λ n. drop n xs) (omega arith)
drop-drop (suc a) b [] = drop_all b [] (omega arith) ∙ sym (drop_all (suc a + b) [] (omega arith))
drop-drop (suc a) b (x ∷ xs) = drop-drop a b xs ∙ ap (λ n. drop n (x ∷ xs)) shift
  where
    shift : suc (a + b) ≡ suc a + b
    shift = omega arith

-- Rows without padding are copied as they stand.
copy_tight :
    (xs : List ℕ) (w row rows : ℕ)
    → length xs ≡ (row + rows) * w
    → copy_rows xs w w row rows ≡ drop (row * w) xs
unfolding copy_rows
copy_tight xs w row zero h = sym (drop_all (row * w) xs (omega arith))
copy_tight xs w row (suc rows) h =
    let later = copy_tight xs w (suc row) rows (omega arith) in
    let next : drop (suc row * w) xs ≡ drop w (drop (row * w) xs) =
      sym (drop-drop (row * w) w xs ∙ ap (λ n. drop n xs) (omega arith)) in
    ap (λ l. take w (drop (row * w) xs) ++ l) (later ∙ next) ∙ take-drop w (drop (row * w) xs)

zero_times : (w : ℕ) → 0 * w ≡ 0
zero_times w = omega arith

-- All the checks of the packing hold.
packed_lem :
    (f : Nv12Frame)
    → IsPacked f
    → length f.y_plane < 2 ^ 63
    → packed_nv12 f
      ≡ ok (
          copy_rows f.y_plane f.y_stride f.width 0 f.height
          ++ copy_rows f.uv_plane f.uv_stride f.width 0 (f.height / 2))
unfolding packed_nv12 is_odd
packed_lem f p m =
    let area : f.width * f.height < 2 ^ 63 = omega (arith, p.y_full) in
    let s = p.size in
    let y_need : f.y_stride * f.height ≡ f.height * f.width = rw p.y_tight (omega arith) in
    let uv_need : f.uv_stride * (f.height / 2) ≡ f.height / 2 * f.width =
      rw p.uv_tight (omega arith) in
    let half : f.height / 2 * f.width ≤ f.height * f.width =
      let l : f.height / 2 ≤ f.height = omega arith in grind arith in
    let a = s.width_pos in
    let b = s.height_pos in
    let c = s.width_even in
    let d = s.height_even in
    let e = p.y_full in let g = p.uv_full in let h = p.y_tight in let i = p.uv_tight in ground arith

-- A picture as the decoder sends it, whose luma plane memory can hold, is packed without a change: the
-- drivers of macOS and Windows get its luma plane and then its chroma plane.
pub packed_nv12-IsPacked :
    (f : Nv12Frame)
    → IsPacked f
    → length f.y_plane < 2 ^ 63
    → packed_nv12 f ≡ ok (f.y_plane ++ f.uv_plane)
packed_nv12-IsPacked f p m =
    let y : copy_rows f.y_plane f.y_stride f.width 0 f.height ≡ f.y_plane = rw p.y_tight (
      copy_tight f.y_plane f.width 0 f.height (p.y_full ∙ omega arith)
      ∙ ap (λ n. drop n f.y_plane) (zero_times f.width)) in
    let uv : copy_rows f.uv_plane f.uv_stride f.width 0 (f.height / 2) ≡ f.uv_plane =
      rw p.uv_tight (
        copy_tight f.uv_plane f.width 0 (f.height / 2) (p.uv_full ∙ omega arith)
        ∙ ap (λ n. drop n f.uv_plane) (zero_times f.width)) in
    packed_lem f p m
    ∙ ap ok (
        ap (λ l. l ++ copy_rows f.uv_plane f.uv_stride f.width 0 (f.height / 2)) y
        ∙ ap (λ l. f.y_plane ++ l) uv)
