-- ===== src/Adb/Binary/Search.antt =====
-- What the search for the binary returns.
use phone_cam.Prelude.{
  ◌≡◌, refl, sym, ap, ◌∙◌, true, false, List, [], ◌∷◌, ◌++◌, Result, ok, err, contains, Mem,
  Bool-cases, inl, inr,
}
use mathlib.Core.List.{mem-cons, mem-cons_of_mem}
use mathlib.Core.Logic.Or
use phone_cam.Adb.Devices.{AdbError, not_found}
use phone_cam.Adb.Binary.{
  Machine, Environment, push_candidate, push_all, named_paths, candidates_of, probe_adb_binary,
  is_tried, search, discover_adb_binary,
}

module _ (M : Machine) (E : Environment M) where
  open M use {PathBuf, Outside}

  -- Each path is not among those before it.
  abbrev pub IsNew : List PathBuf → List PathBuf → Type 0
  IsNew before [] = Unit {0}
  IsNew before (p ∷ ps) = (contains ⦃eq = M.path_eq⦄ before p ≡ false) × IsNew (before ++ p ∷ []) ps

  append_one :
      (ps : List PathBuf) (q : PathBuf) (rs : List PathBuf) → (ps ++ q ∷ []) ++ rs ≡ ps ++ q ∷ rs
  append_one [] q rs = refl
  append_one (p ∷ ps) q rs = ap (λ l. p ∷ l) (append_one ps q rs)

  append_nil : (ps : List PathBuf) → ps ++ [] ≡ ps
  append_nil [] = refl
  append_nil (p ∷ ps) = ap (λ l. p ∷ l) (append_nil ps)

  IsNew-append :
      (before ps : List PathBuf) (p : PathBuf)
      → IsNew before ps
      → contains ⦃eq = M.path_eq⦄ (before ++ ps) p ≡ false
      → IsNew before (ps ++ p ∷ [])
  IsNew-append before [] p n h = (rw (append_nil before) at h, tt)
  IsNew-append before (q ∷ ps) p n h =
      (n.0, IsNew-append (before ++ q ∷ []) ps p n.1 (rw (append_one before q ps) h))

  push_all-IsNew : (ps qs : List PathBuf) → IsNew [] ps → IsNew [] (push_all M ps qs)
  unfolding push_all push_candidate
  push_all-IsNew ps [] n = n
  push_all-IsNew ps (q ∷ qs) n = elim (Bool-cases (contains ⦃eq = M.path_eq⦄ ps q)) [
    | inl h ↦ rw h (push_all-IsNew ps qs n)
    | inr h ↦ rw h (push_all-IsNew (ps ++ q ∷ []) qs (IsNew-append [] ps q n h))
  ]

  -- A candidate that works: it was tried, and its answer names the bridge.
  pub record IsWorking (p : PathBuf) : Type 0 where
    pub tried : is_tried M p ≡ true
    pub outside : Outside
    pub probed : (probe_adb_binary M p outside).1 ≡ true

  -- How the search ends: with a path among those left, that works, or with all of them searched.
  abbrev pub Ends : List PathBuf → List PathBuf → Result (AdbError PathBuf) PathBuf → Type 0
  Ends ps searched (ok p) = Mem p ps × IsWorking p
  Ends ps searched (err e) = e ≡ not_found (searched ++ ps)

  one_more :
      (p : PathBuf) (ps searched : List PathBuf) (r : Result (AdbError PathBuf) PathBuf)
      → Ends ps (searched ++ p ∷ []) r
      → Ends (p ∷ ps) searched r
  one_more p ps searched (ok q) e = (mem-cons_of_mem p e.0, e.1)
  one_more p ps searched (err x) e = e ∙ ap not_found (append_one searched p ps)

  search-Ends :
      (ps searched : List PathBuf) (outside : Outside)
      → IsNew searched ps
      → Ends ps searched (search M ps searched outside).1
  unfolding search
  search-Ends [] searched outside n = ap not_found (sym (append_nil searched))
  search-Ends (p ∷ ps) searched outside n =
      let later = λ (o : Outside).
        one_more p ps searched (search M ps (searched ++ p ∷ []) o).1
          (search-Ends ps (searched ++ p ∷ []) o n.1) in
      rw (n.0, Ends)
        (elim (Bool-cases (is_tried M p)) [
          | inr t ↦ rw (t, Ends) (later outside)
          | inl t ↦ elim (Bool-cases (probe_adb_binary M p outside).1) [
            | inr b ↦ rw (t, b, Ends) (later (probe_adb_binary M p outside).0)
            | inl b ↦
                rw (t, b)
                  (mem-cons.1 (Or.inl refl), record { tried = t; outside = outside; probed = b })
          ]
        ])

  -- No candidate is among those before it; and the search ends either with a candidate that was tried
  -- and answered as adb does, or with the error that lists all the candidates in their order.
  pub discover_adb_binary-Ends :
      (outside : Outside)
      → IsNew [] (candidates_of M E)
        × Ends (candidates_of M E) [] (discover_adb_binary M E outside).1
  unfolding discover_adb_binary candidates_of
  discover_adb_binary-Ends outside =
      let new = push_all-IsNew [] (named_paths M E) tt in
      (new, search-Ends (push_all M [] (named_paths M E)) [] outside new)
