-- ===== src/Adb/Map.antt =====
-- `BTreeMap` with texts as keys: its entries in the order of the keys.
use phone_cam.Prelude.{
  ◌≡◌, refl, sym, true, false, Option, none, some, List, [], ◌∷◌, All, ◌==◌, if◌then◌else◌, inl,
  inr, Bool-cases,
}
use phone_cam.Text.{Text}
use phone_cam.Text.Order.{
  text_beq_iff, text_eq, text_lt, text_lt_trans, text_lt_irrefl, text_lt_total,
}

abbrev pub BTreeMap {ℓ} : Type ℓ → Type ℓ
BTreeMap A = List (Text × A)

differ : (k j : Text) → text_lt k j ≡ true → (k == j) ≡ false
differ k j h = elim (Bool-cases (k == j)) [
  | inl s ↦ let e = (text_beq_iff k j).0 s in let i = text_lt_irrefl k in cc
  | inr s ↦ s
]

module _ {ℓ} {A : Type ℓ} where
  unfoldable pub get : BTreeMap A → Text → Option A
  get [] k = none
  get (e ∷ m) k = if k == e.0 then some e.1 else get m k

  unfoldable pub insert : Text → A → BTreeMap A → BTreeMap A
  insert k v [] = (k, v) ∷ []
  insert k v (e ∷ m) =
      let later = insert k v m in
      if k == e.0 then (k, v) ∷ m else if text_lt k e.0 then (k, v) ∷ e ∷ m else e ∷ later

  abbrev pub IsAbove : Text → BTreeMap A → Type 0
  IsAbove k m = All (λ e. text_lt k e.0 ≡ true) m

  -- The keys ascend.
  abbrev pub IsOrdered : BTreeMap A → Type 0
  IsOrdered [] = Unit {0}
  IsOrdered (e ∷ m) = IsAbove e.0 m × IsOrdered m

  -- A key below all others is not there.
  pub get-IsAbove : (k : Text) (m : BTreeMap A) → IsAbove k m → get m k ≡ none
  unfolding get
  get-IsAbove k [] h = refl
  get-IsAbove k (e ∷ m) h = rw (differ k e.0 h.0) (get-IsAbove k m h.1)

  IsAbove-trans : (k j : Text) (m : BTreeMap A) → text_lt k j ≡ true → IsAbove j m → IsAbove k m
  IsAbove-trans k j [] h a = tt
  IsAbove-trans k j (e ∷ m) h a = (text_lt_trans k j e.0 h a.0, IsAbove-trans k j m h a.1)

  insert-IsAbove :
      (j k : Text) (v : A) (m : BTreeMap A)
      → text_lt j k ≡ true
      → IsAbove j m
      → IsAbove j (insert k v m)
  unfolding insert
  insert-IsAbove j k v [] h a = (h, tt)
  insert-IsAbove j k v (e ∷ m) h a = elim (Bool-cases (k == e.0)) [
    | inl s ↦ rw s (h, a.1)
    | inr s ↦ elim (Bool-cases (text_lt k e.0)) [
      | inl l ↦ rw (s, l) (h, a)
      | inr l ↦ rw (s, l) (a.0, insert-IsAbove j k v m h a.1)
    ]
  ]

  pub insert-IsOrdered :
      (k : Text) (v : A) (m : BTreeMap A) → IsOrdered m → IsOrdered (insert k v m)
  unfolding insert
  insert-IsOrdered k v [] o = (tt, tt)
  insert-IsOrdered k v (e ∷ m) o = elim (Bool-cases (k == e.0)) [
    | inl s ↦ rw s (rw (sym ((text_beq_iff k e.0).0 s)) at o)
    | inr s ↦ elim (Bool-cases (text_lt k e.0)) [
      | inl l ↦ rw (s, l) ((l, IsAbove-trans k e.0 m l o.0), o)
      | inr l ↦
          rw (s, l)
            (insert-IsAbove e.0 k v m (text_lt_total k e.0 s l) o.0, insert-IsOrdered k v m o.1)
    ]
  ]

  get-insert_later :
      (k j : Text) (v : A) (e : Text × A) (m : BTreeMap A) (o : Option A)
      → (k == e.0) ≡ false
      → o ≡ (if j == k then some v else get m j)
      → (if j == e.0 then some e.1 else o)
        ≡ (if j == k then some v else (if j == e.0 then some e.1 else get m j))
  get-insert_later k j v e m o s h = rw h (elim (Bool-cases (j == k)) [
    | inl t ↦ let same = (text_beq_iff j k).0 t in rw (same, s, (text_beq_iff k k).1 refl) refl
    | inr t ↦ rw t refl
  ])

  -- An entry that was put in is found, and the others stay.
  pub get-insert :
      (k j : Text) (v : A) (m : BTreeMap A)
      → get (insert k v m) j ≡ (if j == k then some v else get m j)
  unfolding get insert
  get-insert k j v [] = refl
  get-insert k j v (e ∷ m) = elim (Bool-cases (k == e.0)) [
    | inl s ↦
        let same = (text_beq_iff k e.0).0 s in
        rw (s, sym same) (elim (Bool-cases (j == k)) [ inl t ↦ rw t refl | inr t ↦ rw t refl ])
    | inr s ↦ elim (Bool-cases (text_lt k e.0)) [
      | inl l ↦ rw (s, l) refl
      | inr l ↦ rw (s, l) (get-insert_later k j v e m (get (insert k v m) j) s (get-insert k j v m))
    ]
  ]
