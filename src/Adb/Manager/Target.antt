-- ===== src/Adb/Manager/Target.antt =====
-- Which device is chosen.
use phone_cam.Prelude.{
  ◌≡◌, ◌↔◌, refl, sym, ap, ◌∙◌, arith, Bool, true, false, Option, none, some, List, [], ◌∷◌, ◌++◌,
  All, ok, ◌==◌, Bool-cases, Option-cases, inl, inr,
}
use phone_cam.Text.{Text}
use phone_cam.Text.Order.{text_eq}
use phone_cam.Adb.Devices.{AdbDevice, is_ready}
use phone_cam.Adb.Manager.{find_serial, filter, choose_target}

-- The first device that passes a test.
pub record IsFirst (test : AdbDevice → Bool) (ds : List AdbDevice) (d : AdbDevice) : Type 0 where
  pub before : List AdbDevice
  pub after : List AdbDevice
  pub parts : ds ≡ before ++ d ∷ after
  pub skipped : All (λ x. test x ≡ false) before
  pub passes : test d ≡ true

-- The only device that passes a test.
pub record IsOnly (test : AdbDevice → Bool) (ds : List AdbDevice) (d : AdbDevice) : Type 0 where
  pub first : IsFirst test ds d
  pub no_other : All (λ x. test x ≡ false) first.after

-- The device that a request means: the first of its serial, which is ready; without a request, the
-- only one that is ready.
abbrev pub IsTarget : List AdbDevice → Option Text → Text → Type 0
IsTarget ds none s = (d : AdbDevice) × IsOnly is_ready ds d × (s ≡ d.serial)
IsTarget ds (some r) s =
    (d : AdbDevice) × IsFirst (λ x. x.serial == r) ds d × (is_ready d ≡ true) × (s ≡ r)

filter-none :
    (test : AdbDevice → Bool) (ds : List AdbDevice)
    → (filter test ds ≡ []) ↔ All (λ x. test x ≡ false) ds
unfolding filter
filter-none test [] = (λ h. tt, λ h. refl)
filter-none test (d ∷ ds) =
    let later = filter-none test ds in
    elim (Bool-cases (test d)) [
      | inl t ↦ (λ h. absurd (ground arith), λ h. absurd (cc h.0))
      | inr t ↦ (λ h. (t, later.0 (ground arith)), λ h. let k = later.1 h.1 in ground arith)
    ]

first_here :
    (test : AdbDevice → Bool) (d : AdbDevice) (ds : List AdbDevice)
    → test d ≡ true
    → IsFirst test (d ∷ ds) d
first_here test d ds t = record { before = []; after = ds; parts = refl; skipped = tt; passes = t }

first_later :
    (test : AdbDevice → Bool) (x d : AdbDevice) (ds : List AdbDevice)
    → test x ≡ false
    → IsFirst test ds d
    → IsFirst test (x ∷ ds) d
first_later test x d ds t f = record {
  before = x ∷ f.before;
  after = f.after;
  parts = ap (λ l. x ∷ l) f.parts;
  skipped = (t, f.skipped);
  passes = f.passes;
}

filter-IsOnly :
    (test : AdbDevice → Bool) (ds : List AdbDevice) (d : AdbDevice)
    → filter test ds ≡ d ∷ []
    → IsOnly test ds d
unfolding filter first_here first_later
filter-IsOnly test [] d h = cc
filter-IsOnly test (x ∷ ds) d h = elim (Bool-cases (test x)) [
  | inl t ↦
      let same : x ≡ d = ground arith in
      let gone = (filter-none test ds).0 (ground arith) in
      rw (sym same) (record { first = first_here test x ds t; no_other = gone })
  | inr t ↦
      let o = filter-IsOnly test ds d (ground arith) in
      record { first = first_later test x d ds t o.first; no_other = o.no_other }
]

IsOnly-filter :
    (test : AdbDevice → Bool) (before after : List AdbDevice) (d : AdbDevice)
    → All (λ x. test x ≡ false) before
    → test d ≡ true
    → All (λ x. test x ≡ false) after
    → filter test (before ++ d ∷ after) ≡ d ∷ []
unfolding filter
IsOnly-filter test [] after d b t a = rw (t, (filter-none test after).1 a) refl
IsOnly-filter test (x ∷ before) after d b t a = rw (b.0) (IsOnly-filter test before after d b.1 t a)

find-IsFirst :
    (r : Text) (ds : List AdbDevice) (d : AdbDevice)
    → find_serial r ds ≡ some d
    → IsFirst (λ x. x.serial == r) ds d
unfolding find_serial
find-IsFirst r [] d h = cc
find-IsFirst r (x ∷ ds) d h = elim (Bool-cases (x.serial == r)) [
  | inl t ↦
      let same : x ≡ d = ground arith in rw (sym same) (first_here (λ y. y.serial == r) x ds t)
  | inr t ↦ first_later (λ y. y.serial == r) x d ds t (find-IsFirst r ds d (ground arith))
]

IsFirst-find :
    (r : Text) (before after : List AdbDevice) (d : AdbDevice)
    → All (λ x. (x.serial == r) ≡ false) before
    → (d.serial == r) ≡ true
    → find_serial r (before ++ d ∷ after) ≡ some d
unfolding find_serial
IsFirst-find r [] after d b t = rw t refl
IsFirst-find r (x ∷ before) after d b t = rw (b.0) (IsFirst-find r before after d b.1 t)

only_ready-ok :
    {P : Type 0} (x : AdbDevice) (ds : List AdbDevice) (s : Text)
    → choose_target {P = P} (x ∷ ds) none ≡ ok s
    → (d : AdbDevice) × (filter is_ready (x ∷ ds) ≡ d ∷ []) × (s ≡ d.serial)
unfolding choose_target
only_ready-ok x ds s h = go (filter is_ready (x ∷ ds)) refl
  where
    go :
        (l : List AdbDevice)
        → filter is_ready (x ∷ ds) ≡ l
        → (d : AdbDevice) × (filter is_ready (x ∷ ds) ≡ d ∷ []) × (s ≡ d.serial)
    go [] e = absurd (ground arith)
    go (d ∷ []) e = (d, e, ground arith)
    go (d ∷ c ∷ l) e = absurd (ground arith)

chosen :
    {P : Type 0} (ds : List AdbDevice) (w : Option Text) (s : Text)
    → choose_target {P = P} ds w ≡ ok s
    → IsTarget ds w s
unfolding choose_target
chosen [] w s h = cc
chosen {P} (x ∷ ds) none s h =
    let (d, e, n) = only_ready-ok {P = P} x ds s h in (d, filter-IsOnly is_ready (x ∷ ds) d e, n)
chosen (x ∷ ds) (some r) s h = elim (Option-cases (find_serial r (x ∷ ds))) [
  | inl e ↦ absurd (ground arith)
  | inr (d, e) ↦ (d, find-IsFirst r (x ∷ ds) d e, ground arith, ground arith)
]

no_parts : (before after : List AdbDevice) (d : AdbDevice) → ¬ ([] ≡ before ++ d ∷ after)
no_parts [] after d h = cc
no_parts (x ∷ before) after d h = cc

meant :
    {P : Type 0} (ds : List AdbDevice) (w : Option Text) (s : Text)
    → IsTarget ds w s
    → choose_target {P = P} ds w ≡ ok s
unfolding choose_target
meant [] none s (d, o, n) = absurd (no_parts o.first.before o.first.after d o.first.parts)
meant [] (some r) s (d, f, t, n) = absurd (no_parts f.before f.after d f.parts)
meant (x ∷ ds) none s (d, o, n) =
    let f = o.first in
    let one : filter is_ready (x ∷ ds) ≡ d ∷ [] =
      ap (filter is_ready) f.parts
      ∙ IsOnly-filter is_ready f.before f.after d f.skipped f.passes o.no_other in
    rw (one, n) refl
meant (x ∷ ds) (some r) s (d, f, t, n) =
    let found : find_serial r (x ∷ ds) ≡ some d =
      ap (find_serial r) f.parts ∙ IsFirst-find r f.before f.after d f.skipped f.passes in
    rw (found, t, n) refl

-- A device is chosen exactly if it is the one that the request means.
pub choose_target-ok_iff :
    {P : Type 0} (ds : List AdbDevice) (w : Option Text) (s : Text)
    → (choose_target {P = P} ds w ≡ ok s) ↔ IsTarget ds w s
choose_target-ok_iff ds w s = (chosen ds w s, meant ds w s)
