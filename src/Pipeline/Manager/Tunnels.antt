-- ===== src/Pipeline/Manager/Tunnels.antt =====
-- What becomes of a tunnel whose session ended by itself.
use phone_cam.Prelude.{
  ℕ, ◌≡◌, refl, ap, ◌∙◌, Bool, true, none, some, List, [], ◌∷◌, nat_eq, inl, inr, Bool-cases,
  Option-cases,
}
use phone_cam.Protocol.Profile.{profile_eq}
use phone_cam.Adb.Binary.{Machine, Environment}
use phone_cam.Adb.Manager.{kill_reverse}
use phone_cam.Pipeline.Manager.{
  Step, publishes, sets_connection_sender, sets_command_sender, streams, finished, wifi,
  UsbForwardSession, Runtime, start_worker, start_with_mode, stop, apply_step, apply_steps,
}
use phone_cam.Pipeline.Manager.Laws.{start_with_mode-finished}

module _ (M : Machine) (E : Environment M) where
  steps_adb :
      (ss : List Step) (r : Runtime M E)
      → ((apply_steps M E ss r).adb ≡ r.adb) × ((apply_steps M E ss r).usb_forward ≡ r.usb_forward)
  unfolding apply_steps apply_step
  steps_adb [] r = (refl, refl)
  steps_adb (publishes s ∷ ss) r = steps_adb ss (record r { status = s })
  steps_adb (sets_connection_sender o ∷ ss) r =
      steps_adb ss (record r { active_connection_sender = o })
  steps_adb (sets_command_sender o ∷ ss) r = steps_adb ss (record r { active_command_sender = o })
  steps_adb (streams c ∷ ss) r = steps_adb ss r

  stop-none :
      (joins : Bool) (r : Runtime M E)
      → r.usb_forward ≡ none
      → (stop M E joins r).runtime.adb ≡ r.adb
  unfolding stop
  stop-none joins r h = elim (Option-cases r.worker) [
    | inl w ↦ rw (w, h) refl
    | inr (x, w) ↦ elim (Bool-cases joins) [ inl j ↦ rw (w, j, h) refl | inr j ↦ rw (w, j) refl ]
  ]

  start_wifi :
      (port : ℕ) (r : Runtime M E)
      → r.worker ≡ some finished
      → ((start_with_mode M E port wifi r).runtime.usb_forward ≡ none)
        × ((start_with_mode M E port wifi r).runtime.adb ≡ r.adb)
  unfolding start_worker
  start_wifi port r w =
      let e = start_with_mode-finished M E port wifi r w in
      (ap (λ c. c.runtime.usb_forward) e, ap (λ c. c.runtime.adb) e)

  -- While the ended worker of a session over USB is still there, a stop asks adb to remove its tunnel
  -- if that worker joins, so if it did not panic. But if a start without USB comes first, adb is left
  -- just as it was by that start and by a stop after it, whatever the new worker publishes and sets in
  -- between and whether it joins or not.
  pub forgotten_tunnel :
      (port : ℕ) (steps : List Step) (joins : Bool) (r : Runtime M E) (u : UsbForwardSession)
      → r.worker ≡ some finished
      → r.usb_forward ≡ some u
      → ((stop M E true r).runtime.adb ≡ (kill_reverse M E u.local_port (some u.serial) r.adb).0)
        × ((stop M E joins
              (apply_steps M E steps (start_with_mode M E port wifi r).runtime)).runtime.adb
            ≡ r.adb)
  unfolding stop
  forgotten_tunnel port steps joins r u w f =
      let after = (start_with_mode M E port wifi r).runtime in
      let (gone, same) = start_wifi port r w in
      let (adb, forward) = steps_adb steps after in
      (
        rw (w, f) refl,
        stop-none joins (apply_steps M E steps after) (forward ∙ gone) ∙ (adb ∙ same),
      )
