-- ===== src/Adb/Monitor/Follow.antt =====
-- The monitor's events tell a client the state of each device.
use phone_cam.Prelude.{
  ◌≡◌, refl, sym, ap, ◌∙◌, arith, false, Option, none, some, ◌==◌, Bool-cases, Option-cases, inl,
  inr,
}
use phone_cam.Text.{Text}
use phone_cam.Text.Order.{text_eq}
use phone_cam.Adb.Map.{BTreeMap, get, IsOrdered}
use phone_cam.Adb.Devices.{AdbDeviceState, state_eq, state_beq_iff, AdbDevice}
use phone_cam.Adb.Monitor.{
  AdbDeviceEvent, arrival, change, departure, present, absent, each, poll_events,
}
use phone_cam.Adb.Monitor.Replay.{
  View, replay, IsChain, states, Fits, IsFitting, each-IsChain, replay-append, IsChain-append,
  changed, after, IsNamed, each-replay,
}

same_states : (p d : AdbDevice) → (p.state == d.state) ≡ false → ¬ (some p.state ≡ some d.state)
same_states p d h e = let s = (state_beq_iff p.state d.state).1 in ground arith

module _ (previous current : BTreeMap AdbDevice) where
  arrival-Fits :
      (k : Text) (d : AdbDevice) → get previous k ≡ none → Fits (states previous) k (arrival k d)
  arrival-Fits k d g = record { named = refl; known = rw g refl; kind_fits = (refl, λ h. cc) }

  change-Fits :
      (k : Text) (p d : AdbDevice)
      → get previous k ≡ some p
      → (p.state == d.state) ≡ false
      → Fits (states previous) k (change k p d)
  change-Fits k p d g s = record {
    named = refl;
    known = rw g refl;
    kind_fits = (λ h. cc, λ h. cc, same_states p d s);
  }

  departure-Fits :
      (k : Text) (p : AdbDevice) (view : View) → view k ≡ some p.state → Fits view k (departure k p)
  departure-Fits k p view h = record { named = refl; known = sym h; kind_fits = (λ e. cc, refl) }

  present-Fits :
      (k : Text) (d : AdbDevice) (e : AdbDeviceEvent)
      → present previous (k, d) ≡ some e
      → Fits (states previous) k e
  unfolding present
  present-Fits k d e b = elim (Option-cases (get previous k)) [
    | inl g ↦ let same : arrival k d ≡ e = ground arith in rw (sym same) (arrival-Fits k d g)
    | inr (p, g) ↦ elim (Bool-cases (p.state == d.state)) [
      | inl s ↦ absurd (ground arith)
      | inr s ↦ let same : change k p d ≡ e = ground arith in rw (sym same) (change-Fits k p d g s)
    ]
  ]

  absent-departure :
      (k : Text) (p : AdbDevice) (e : AdbDeviceEvent)
      → absent current (k, p) ≡ some e
      → (get current k ≡ none) × (e ≡ departure k p)
  unfolding absent
  absent-departure k p e b = elim (Option-cases (get current k)) [
    | inl g ↦ (g, ground arith)
    | inr (d, g) ↦ absurd (ground arith)
  ]

  -- The first loop's event makes known what is there.
  taken :
      (k : Text) (d : AdbDevice)
      → changed (present previous (k, d)) (states previous k) ≡ some d.state
  unfolding present
  taken k d = elim (Option-cases (get previous k)) [
    | inl h ↦
        let e : present previous (k, d) ≡ some (arrival k d) = rw (h, present) refl in rw e refl
    | inr (p, h) ↦ elim (Bool-cases (p.state == d.state)) [
      | inl s ↦
          let e : present previous (k, d) ≡ none = rw (h, s, present) refl in
          rw (e, h) (ap some ((state_beq_iff p.state d.state).0 s))
      | inr s ↦
          let e : present previous (k, d) ≡ some (change k p d) = rw (h, s, present) refl in
          rw e refl
    ]
  ]

  -- The second loop's event makes known that a device left.
  left :
      (k : Text) (p : AdbDevice) (s : Option AdbDeviceState)
      → (get current k ≡ none → s ≡ states previous k)
      → ((d : AdbDevice) → get current k ≡ some d → s ≡ some d.state)
      → changed (absent current (k, p)) s ≡ states current k
  unfolding absent
  left k p s h g = elim (Option-cases (get current k)) [
    | inl c ↦
        let e : absent current (k, p) ≡ some (departure k p) = rw (c, absent) refl in rw (e, c) refl
    | inr (d, c) ↦ let e : absent current (k, p) ≡ none = rw (c, absent) refl in rw (e, c) (g d c)
  ]

  present-IsNamed : IsNamed (present previous)
  present-IsNamed k d e b = (present-Fits k d e b).named

  absent-IsNamed : IsNamed (absent current)
  absent-IsNamed k p e b = rw (absent-departure k p e b).1 refl

  module _ (view : View) (op : IsOrdered previous) (oc : IsOrdered current)
      (knows : (k : Text) → view k ≡ states previous k) where
    met : View
    met = replay (each (present previous) current) view

    met_lem : (k : Text) → met k ≡ after (present previous) k (get current k) (states previous k)
    unfolding met
    met_lem k =
        each-replay (present previous) current view k oc present-IsNamed
        ∙ ap (after (present previous) k (get current k)) (knows k)

    met_gone : (k : Text) → get current k ≡ none → met k ≡ states previous k
    met_gone k g = met_lem k ∙ ap (λ o. after (present previous) k o (states previous k)) g

    met_there : (k : Text) (d : AdbDevice) → get current k ≡ some d → met k ≡ some d.state
    met_there k d g =
        met_lem k ∙ (ap (λ o. after (present previous) k o (states previous k)) g ∙ taken k d)

    all_met : (k : Text) → after (absent current) k (get previous k) (met k) ≡ states current k
    all_met k = elim (Option-cases (get previous k)) [
      | inl g ↦ rw g (elim (Option-cases (get current k)) [
        | inl c ↦ met_gone k c ∙ rw (g, c) refl
        | inr (d, c) ↦ met_there k d c ∙ rw c refl
      ])
      | inr (p, g) ↦ rw g (left k p (met k) (met_gone k) (met_there k))
    ]

    pub poll_events-replay :
        (k : Text) → replay (poll_events previous current) view k ≡ states current k
    unfolding poll_events met
    poll_events-replay k =
        ap (λ v. v k)
          (replay-append (each (present previous) current) (each (absent current) previous) view)
        ∙ (each-replay (absent current) previous met k op absent-IsNamed ∙ all_met k)

    fits_absent : IsFitting (absent current) previous met
    fits_absent k p e g b =
        let (c, same) = absent-departure k p e b in
        rw same (departure-Fits k p met (met_gone k c ∙ rw g refl))

    fits_present : IsFitting (present previous) current view
    fits_present k d e g b =
        let f = present-Fits k d e b in
        record { named = f.named; known = f.known ∙ sym (knows k); kind_fits = f.kind_fits }

    pub poll_events-IsChain : IsChain view (poll_events previous current)
    unfolding poll_events met
    poll_events-IsChain =
        IsChain-append (each (present previous) current) (each (absent current) previous) view
          (each-IsChain (present previous) current view oc fits_present)
          (each-IsChain (absent current) previous met op fits_absent)
