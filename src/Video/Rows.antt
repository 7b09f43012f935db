-- ===== src/Video/Rows.antt =====
-- Where the loops put each byte.
use phone_cam.Prelude.{
  ℕ, zero, suc, ◌+◌, ◌*◌, ◌/◌, ◌≤◌, ◌<◌, ◌≡◌, refl, ap, ◌∙◌, some, List, [], ◌∷◌, ◌++◌, arith,
  length, length-append, length-take, length-drop, take, drop, get_or, get_elem?, get_elem?-take,
  get_elem?-drop, get_elem?-append_left, get_elem?-append_right,
}
use phone_cam.Video.Planes.{copy_rows, interleave, Nv12Frame}
use phone_cam.Video.Convert.{convert_columns, convert_rows}

module _ (source : List ℕ) (stride w : ℕ) (wide : w ≤ stride) where
  abbrev slice : ℕ → List ℕ
  slice row = take w (drop (row * stride) source)

  row_fits :
      (row rows : ℕ) → (row + suc rows) * stride ≤ length source → row * stride + w ≤ length source
  row_fits row rows h = grind arith

  length-slice : (row rows : ℕ) → (row + suc rows) * stride ≤ length source → length (slice row) ≡ w
  length-slice row rows h = omega (
    arith,
    length-take w (drop (row * stride) source),
    length-drop (row * stride) source,
    row_fits row rows h,
  )

  next_fits :
      (row rows : ℕ)
      → (row + suc rows) * stride ≤ length source
      → (suc row + rows) * stride ≤ length source
  next_fits row rows h = omega arith

  pub length-copy_rows :
      (row rows : ℕ)
      → (row + rows) * stride ≤ length source
      → length (copy_rows source stride w row rows) ≡ rows * w
  unfolding copy_rows
  length-copy_rows row zero h = omega arith
  length-copy_rows row (suc rows) h = omega (
    arith,
    length-append (slice row) (copy_rows source stride w (suc row) rows),
    length-slice row rows h,
    length-copy_rows (suc row) rows (next_fits row rows h),
  )

  -- Row `r` of the copy starts at `r * w` and holds the first `w` bytes of the source's row.
  pub get_elem?-copy_rows :
      (row rows r c : ℕ)
      → (row + rows) * stride ≤ length source
      → r < rows
      → c < w
      → get_elem? (copy_rows source stride w row rows) (r * w + c)
        ≡ get_elem? source ((row + r) * stride + c)
  unfolding copy_rows
  get_elem?-copy_rows row zero r c h hr hc = absurd (omega arith)
  get_elem?-copy_rows row (suc rows) zero c h hr hc =
      let rest = copy_rows source stride w (suc row) rows in
      let inside : c < length (slice row) = omega (arith, length-slice row rows h) in
      let start : 0 * w + c ≡ c = omega arith in
      let place : row * stride + c ≡ (row + 0) * stride + c = omega arith in
      ap (get_elem? (slice row ++ rest)) start
      ∙ get_elem?-append_left (slice row) rest c inside
      ∙ get_elem?-take w c (drop (row * stride) source) hc
      ∙ get_elem?-drop (row * stride) c source
      ∙ ap (get_elem? source) place
  get_elem?-copy_rows row (suc rows) (suc r) c h hr hc =
      let rest = copy_rows source stride w (suc row) rows in
      let start : suc r * w + c ≡ length (slice row) + (r * w + c) =
        omega (arith, length-slice row rows h) in
      let place : (suc row + r) * stride + c ≡ (row + suc r) * stride + c = omega arith in
      ap (get_elem? (slice row ++ rest)) start
      ∙ get_elem?-append_right (slice row) rest (r * w + c)
      ∙ get_elem?-copy_rows (suc row) rows r c (next_fits row rows h) (omega arith) hc
      ∙ ap (get_elem? source) place

-- The interleaved plane alternates the two.
pub length-interleave :
    (us vs : List ℕ) → length us ≡ length vs → length (interleave us vs) ≡ 2 * length us
unfolding interleave
length-interleave [] [] h = refl
length-interleave [] (v ∷ vs) h = absurd (omega arith)
length-interleave (u ∷ us) [] h = absurd (omega arith)
length-interleave (u ∷ us) (v ∷ vs) h = omega (arith, length-interleave us vs)

pub get_elem?-interleave_even :
    (us vs : List ℕ) (i : ℕ)
    → length us ≡ length vs
    → get_elem? (interleave us vs) (2 * i) ≡ get_elem? us i
unfolding interleave
get_elem?-interleave_even [] vs i h = refl
get_elem?-interleave_even (u ∷ us) [] i h = absurd (omega arith)
get_elem?-interleave_even (u ∷ us) (v ∷ vs) zero h = refl
get_elem?-interleave_even (u ∷ us) (v ∷ vs) (suc i) h =
    let place : 2 * suc i ≡ suc (suc (2 * i)) = omega arith in
    ap (get_elem? (u ∷ v ∷ interleave us vs)) place
    ∙ get_elem?-interleave_even us vs i (omega arith)

pub get_elem?-interleave_odd :
    (us vs : List ℕ) (i : ℕ)
    → length us ≡ length vs
    → get_elem? (interleave us vs) (2 * i + 1) ≡ get_elem? vs i
unfolding interleave
get_elem?-interleave_odd [] [] i h = refl
get_elem?-interleave_odd [] (v ∷ vs) i h = absurd (omega arith)
get_elem?-interleave_odd (u ∷ us) [] i h = absurd (omega arith)
get_elem?-interleave_odd (u ∷ us) (v ∷ vs) zero h = refl
get_elem?-interleave_odd (u ∷ us) (v ∷ vs) (suc i) h =
    let place : 2 * suc i + 1 ≡ suc (suc (2 * i + 1)) = omega arith in
    ap (get_elem? (u ∷ v ∷ interleave us vs)) place ∙ get_elem?-interleave_odd us vs i (omega arith)

module _ (f : Nv12Frame) where
  pub length-convert_columns :
      (ys us column steps : ℕ) → length (convert_columns f ys us column steps) ≡ 4 * steps
  unfolding convert_columns
  length-convert_columns ys us column zero = refl
  length-convert_columns ys us column (suc steps) =
      omega (arith, length-convert_columns ys us (column + 2) steps)

  pub get_elem?-convert_columns :
      (ys us column steps c : ℕ)
      → c < 2 * steps
      → (get_elem? (convert_columns f ys us column steps) (2 * c)
          ≡ some (get_or f.y_plane (ys + (column + c)) 0))
        × (get_elem? (convert_columns f ys us column steps) (2 * c + 1)
            ≡ some (get_or f.uv_plane (us + (column + c)) 0))
  unfolding convert_columns
  get_elem?-convert_columns ys us column zero c h = absurd (omega arith)
  get_elem?-convert_columns ys us column (suc steps) zero h = (ground arith, ground arith)
  get_elem?-convert_columns ys us column (suc steps) (suc zero) h = (ground arith, ground arith)
  get_elem?-convert_columns ys us column (suc steps) (suc (suc c)) h =
      let four = convert_columns f ys us column (suc steps) in
      let later = get_elem?-convert_columns ys us (column + 2) steps c (omega arith) in
      let y_place : 2 * suc (suc c) ≡ suc (suc (suc (suc (2 * c)))) = omega arith in
      let uv_place : 2 * suc (suc c) + 1 ≡ suc (suc (suc (suc (2 * c + 1)))) = omega arith in
      let shift : column + 2 + c ≡ column + suc (suc c) = omega arith in
      (
        ap (get_elem? four) y_place ∙ later.0 ∙ ap (λ k. some (get_or f.y_plane (ys + k) 0)) shift,
        ap (get_elem? four) uv_place
            ∙ later.1
            ∙ ap (λ k. some (get_or f.uv_plane (us + k) 0)) shift,
      )

  module _ (w : ℕ) (even : 2 * ((w + 1) / 2) ≡ w) where
    abbrev line : ℕ → List ℕ
    line row = convert_columns f (row * f.y_stride) (row / 2 * f.uv_stride) 0 ((w + 1) / 2)

    length-line : (row : ℕ) → length (line row) ≡ 2 * w
    length-line row =
        omega
          (arith, length-convert_columns (row * f.y_stride) (row / 2 * f.uv_stride) 0 ((w + 1) / 2))

    pub length-convert_rows : (row rows : ℕ) → length (convert_rows f w row rows) ≡ rows * (2 * w)
    unfolding convert_rows
    length-convert_rows row zero = omega arith
    length-convert_rows row (suc rows) = omega (
      arith,
      length-append (line row) (convert_rows f w (suc row) rows),
      length-line row,
      length-convert_rows (suc row) rows,
    )

    -- Pixel `c` of row `r` is a luma byte and a chroma byte.
    pub get_elem?-convert_rows :
        (row rows r c : ℕ)
        → r < rows
        → c < w
        → (get_elem? (convert_rows f w row rows) (2 * (r * w + c))
            ≡ some (get_or f.y_plane ((row + r) * f.y_stride + c) 0))
          × (get_elem? (convert_rows f w row rows) (2 * (r * w + c) + 1)
              ≡ some (get_or f.uv_plane ((row + r) / 2 * f.uv_stride + c) 0))
    unfolding convert_rows
    get_elem?-convert_rows row zero r c hr hc = absurd (omega arith)
    get_elem?-convert_rows row (suc rows) zero c hr hc =
        let rest = convert_rows f w (suc row) rows in
        let here =
          get_elem?-convert_columns (row * f.y_stride) (row / 2 * f.uv_stride) 0 ((w + 1) / 2) c
            (omega arith) in
        let y_place : 2 * (0 * w + c) ≡ 2 * c = omega arith in
        let uv_place : 2 * (0 * w + c) + 1 ≡ 2 * c + 1 = omega arith in
        let from_y : row * f.y_stride + (0 + c) ≡ (row + 0) * f.y_stride + c = omega arith in
        let from_uv : row / 2 * f.uv_stride + (0 + c) ≡ (row + 0) / 2 * f.uv_stride + c =
          (ground arith) in
        (
          ap (get_elem? (line row ++ rest)) y_place
              ∙ get_elem?-append_left (line row) rest (2 * c) (omega (arith, length-line row))
              ∙ here.0
              ∙ ap (λ k. some (get_or f.y_plane k 0)) from_y,
          ap (get_elem? (line row ++ rest)) uv_place
              ∙ get_elem?-append_left (line row) rest (2 * c + 1) (omega (arith, length-line row))
              ∙ here.1
              ∙ ap (λ k. some (get_or f.uv_plane k 0)) from_uv,
        )
    get_elem?-convert_rows row (suc rows) (suc r) c hr hc =
        let rest = convert_rows f w (suc row) rows in
        let later = get_elem?-convert_rows (suc row) rows r c (omega arith) hc in
        let y_place : 2 * (suc r * w + c) ≡ length (line row) + 2 * (r * w + c) =
          omega (arith, length-line row) in
        let uv_place : 2 * (suc r * w + c) + 1 ≡ length (line row) + (2 * (r * w + c) + 1) =
          omega (arith, length-line row) in
        let same : suc row + r ≡ row + suc r = omega arith in
        (
          ap (get_elem? (line row ++ rest)) y_place
              ∙ get_elem?-append_right (line row) rest (2 * (r * w + c))
              ∙ later.0
              ∙ ap (λ k. some (get_or f.y_plane (k * f.y_stride + c) 0)) same,
          ap (get_elem? (line row ++ rest)) uv_place
              ∙ get_elem?-append_right (line row) rest (2 * (r * w + c) + 1)
              ∙ later.1
              ∙ ap (λ k. some (get_or f.uv_plane (k / 2 * f.uv_stride + c) 0)) same,
        )
